-- ===== src/CString.antt =====
-- The C strings that the tables compare: byte buffers read up to the first zero byte. A buffer that
-- ends without one is read as if zeros followed; `key-strncpy` shows where that is never relied on.
-- strncmp and strncpy are those of the C library, as Stable, Ptable, Sem and Directory use them.
use nachos_system_calls.Prelude.{
  ℕ, zero, suc, ◌≤◌, ◌≡◌, ◌↔◌, refl, Bool, true, false, List, [], ◌∷◌, ◌++◌, ◌==◌, if◌then◌else◌,
  arith, ◌∙◌, sym,
}

-- `strncmp(a, b, n) == 0`.
unfoldable pub strncmp_eq : ℕ → List ℕ → List ℕ → Bool
strncmp_eq zero a b = true
strncmp_eq (suc n) [] [] = true
strncmp_eq (suc n) [] (y ∷ b) = y == 0
strncmp_eq (suc n) (x ∷ a) [] = x == 0
strncmp_eq (suc n) (x ∷ a) (y ∷ b) =
    if x == y then (if x == 0 then true else strncmp_eq n a b) else false

-- What `strncpy(dst, src, n)` leaves in the `n` bytes at `dst`.
unfoldable pub strncpy : ℕ → List ℕ → List ℕ
strncpy zero src = []
strncpy (suc n) [] = 0 ∷ strncpy n []
strncpy (suc n) (x ∷ src) = x ∷ strncpy n (if x == 0 then [] else src)

-- The string in a buffer, cut off after `n` bytes.
abbrev pub key : ℕ → List ℕ → List ℕ
key zero s = []
key (suc n) [] = []
key (suc n) (x ∷ s) = if x == 0 then [] else x ∷ key n s

-- Two buffers compare equal over `n` bytes exactly when they hold the same string up to there.
pub strncmp_eq_iff : (n : ℕ) (a b : List ℕ) → (strncmp_eq n a b ≡ true) ↔ (key n a ≡ key n b)
unfolding strncmp_eq
strncmp_eq_iff zero a b = (λ h. refl, λ h. refl)
strncmp_eq_iff (suc n) [] [] = (λ h. refl, λ h. refl)
strncmp_eq_iff (suc n) [] (y ∷ b) = ground arith
strncmp_eq_iff (suc n) (x ∷ a) [] = ground arith
strncmp_eq_iff (suc n) (x ∷ a) (y ∷ b) = ground (arith, strncmp_eq_iff n a b)

pub key-strncpy : (n m : ℕ) (s : List ℕ) → n ≤ m → key n (strncpy m s) ≡ key n s
unfolding strncpy
key-strncpy zero m s h = refl
key-strncpy (suc n) zero s h = absurd (omega arith)
key-strncpy (suc n) (suc m) [] h = refl
key-strncpy (suc n) (suc m) (x ∷ s) h = ground (arith, key-strncpy n m s (omega arith))

Bool-ext : (a b : Bool) → (a ≡ true → b ≡ true) → (b ≡ true → a ≡ true) → a ≡ b
Bool-ext true b h k = sym (h refl)
Bool-ext false true h k = k refl
Bool-ext false false h k = refl

-- So the comparison is an equivalence.
pub strncmp_eq_refl : (n : ℕ) (a : List ℕ) → strncmp_eq n a a ≡ true
strncmp_eq_refl n a = (strncmp_eq_iff n a a).1 refl

pub strncmp_eq_left :
    (n : ℕ) (a b c : List ℕ) → strncmp_eq n a b ≡ true → strncmp_eq n a c ≡ strncmp_eq n b c
strncmp_eq_left n a b c h =
    let e = (strncmp_eq_iff n a b).0 h in
    Bool-ext _ _ (λ k. (strncmp_eq_iff n b c).1 (sym e ∙ (strncmp_eq_iff n a c).0 k))
      (λ k. (strncmp_eq_iff n a c).1 (e ∙ (strncmp_eq_iff n b c).0 k))

-- A name that strncpy has copied into a larger buffer compares as the name itself.
pub strncmp_eq-strncpy :
    (n m : ℕ) (a b : List ℕ) → n ≤ m → strncmp_eq n (strncpy m a) b ≡ strncmp_eq n a b
strncmp_eq-strncpy n m a b h =
    strncmp_eq_left n (strncpy m a) a b ((strncmp_eq_iff n (strncpy m a) a).1 (key-strncpy n m a h))

pub strncmp_eq_sym : (n : ℕ) (a b : List ℕ) → strncmp_eq n a b ≡ strncmp_eq n b a
strncmp_eq_sym n a b =
    Bool-ext _ _ (λ k. (strncmp_eq_iff n b a).1 (sym ((strncmp_eq_iff n a b).0 k)))
      (λ k. (strncmp_eq_iff n a b).1 (sym ((strncmp_eq_iff n b a).0 k)))

pub strncmp_eq_right :
    (n : ℕ) (a b c : List ℕ) → strncmp_eq n a b ≡ true → strncmp_eq n c a ≡ strncmp_eq n c b
strncmp_eq_right n a b c h = strncmp_eq_sym n c a ∙ strncmp_eq_left n a b c h ∙ strncmp_eq_sym n b c

key-strncpy_append : (n : ℕ) (s rest : List ℕ) → key n (strncpy n s ++ rest) ≡ key n s
unfolding strncpy
key-strncpy_append zero s rest = refl
key-strncpy_append (suc n) [] rest = refl
key-strncpy_append (suc n) (x ∷ s) rest = ground (arith, key-strncpy_append n s rest)

-- What stands behind the bytes that are copied does not matter.
pub strncmp_eq-strncpy_append :
    (n : ℕ) (s rest b : List ℕ) → strncmp_eq n (strncpy n s ++ rest) b ≡ strncmp_eq n s b
strncmp_eq-strncpy_append n s rest b =
    strncmp_eq_left n (strncpy n s ++ rest) s b
      ((strncmp_eq_iff n (strncpy n s ++ rest) s).1 (key-strncpy_append n s rest))
