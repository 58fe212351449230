-- ===== src/Number/Print.antt =====
-- What SC_PrintInt writes: the decimal digits, the most significant first.
use native.Mathlib.Nat.{pow-suc}
use nachos_system_calls.Prelude.{
  ℕ, zero, suc, ◌+◌, ◌-◌, ◌*◌, ◌/◌, ◌%◌, ◌^◌, ◌≤◌, ◌<◌, ◌≡◌, refl, true, Option, some, List, [],
  ◌∷◌, ◌++◌, set, length, drop, length-append, arith, ltb, if◌then◌else◌, Bool-cases, inl, inr, ap,
  sym,
}
use nachos_system_calls.Number.{max_int_length, digit_loop, reverse_digits}

-- The digits, the least significant first.
abbrev pub le_digits : ℕ → ℕ → List ℕ
le_digits zero n = []
le_digits (suc f) n =
    let rest = le_digits f (n / 10) in (n % 10 + 48) ∷ (if ltb 0 (n / 10) then rest else [])

-- The list reversed, in front of another.
abbrev pub rev_onto : List ℕ → List ℕ → List ℕ
rev_onto [] ys = ys
rev_onto (x ∷ xs) ys = rev_onto xs (x ∷ ys)

-- The number that such digits stand for.
abbrev pub number_of : List ℕ → ℕ
number_of [] = 0
number_of (d ∷ ds) = (d - 48) + 10 * number_of ds

abbrev pub AreDigits : List ℕ → Type 0
AreDigits [] = Unit
AreDigits (d ∷ ds) = (48 ≤ d) × (d ≤ 57) × AreDigits ds

pub length-le_digits : (f n : ℕ) → length (le_digits f n) ≤ f
length-le_digits zero n = omega arith
length-le_digits (suc f) n = ground (arith, length-le_digits f (n / 10))

-- A smaller bound needs no more digits.
pub length-le_digits_lt : (f g n : ℕ) → 1 ≤ g → n < 10 ^ g → length (le_digits f n) ≤ g
length-le_digits_lt zero g n p h = omega arith
length-le_digits_lt (suc f) zero n p h = absurd (omega arith)
length-le_digits_lt (suc f) (suc zero) n p h = ground arith
length-le_digits_lt (suc f) (suc (suc g)) n p h = ground (
  arith,
  length-le_digits_lt f (suc g) (n / 10) (omega arith) (omega (arith, pow-suc 10 (suc g))),
)

pub le_digits-AreDigits : (f n : ℕ) → AreDigits (le_digits f n)
le_digits-AreDigits zero n = tt
le_digits-AreDigits (suc f) n = ground (arith, le_digits-AreDigits f (n / 10))

pub number_of-le_digits : (f n : ℕ) → n < 10 ^ f → number_of (le_digits f n) ≡ n
number_of-le_digits zero n h = omega arith
number_of-le_digits (suc f) n h =
    ground (arith, number_of-le_digits f (n / 10) (omega (arith, pow-suc 10 f)))

set-append : (pre gs : List ℕ) (g v : ℕ) → set (pre ++ (g ∷ gs)) (length pre) v ≡ pre ++ (v ∷ gs)
set-append [] gs g v = refl
set-append (x ∷ pre) gs g v = ap (λ r. x ∷ r) (set-append pre gs g v)

snoc-append : (pre gs : List ℕ) (d : ℕ) → pre ++ (d ∷ gs) ≡ (pre ++ (d ∷ [])) ++ gs
snoc-append [] gs d = refl
snoc-append (x ∷ pre) gs d = ap (λ r. x ∷ r) (snoc-append pre gs d)

first_room : (room n : ℕ) → 1 ≤ suc room → n < 10 ^ suc room → ltb 0 (n / 10) ≡ true → 1 ≤ room
first_room zero n p h more = ground arith
first_room (suc room) n p h more = omega arith

pair_same :
    {i j : ℕ} {xs ys : List ℕ}
    → i ≡ j
    → xs ≡ ys
    → Path (Option (ℕ × List ℕ)) (some (i, xs)) (some (j, ys))
pair_same p q = rw (p, q) refl

digit_step :
    (room n : ℕ) (pre gs : List ℕ) (d k : ℕ) (ds : List ℕ)
    → digit_loop room n (length pre + 1) ((pre ++ (d ∷ [])) ++ gs)
      ≡ some ((length pre + 1) + k, (pre ++ (d ∷ [])) ++ ds)
    → digit_loop room n (length pre + 1) (pre ++ (d ∷ gs))
      ≡ some (length pre + suc k, pre ++ (d ∷ ds))
digit_step room n pre gs d k ds q =
    rw (snoc-append pre gs d, q) (pair_same (omega arith) (sym (snoc-append pre ds d)))

-- The loop appends the digits to what it has written, in front of the rest of the buffer.
pub digit_loop_lem :
    (room n i : ℕ) (pre gs : List ℕ)
    → 1 ≤ room
    → i ≡ length pre
    → room ≡ length gs
    → n < 10 ^ room
    → digit_loop room n i (pre ++ gs)
      ≡ some (
        i + length (le_digits room n),
        pre ++ (le_digits room n ++ drop (length (le_digits room n)) gs),
      )
unfolding digit_loop
digit_loop_lem zero n i pre gs p e r h = absurd (omega arith)
digit_loop_lem (suc room) n i pre [] p e r h = absurd (omega arith)
digit_loop_lem (suc room) n i pre (g ∷ gs) p e r h = elim (Bool-cases (ltb 0 (n / 10))) [
  | inl more ↦
      let k = length (le_digits room (n / 10)) in
      let pre' = pre ++ ((n % 10 + 48) ∷ []) in
      rw (e, set-append pre gs g (n % 10 + 48), more)
        (digit_step room (n / 10) pre gs (n % 10 + 48) k (le_digits room (n / 10) ++ drop k gs) (
          digit_loop_lem room (n / 10) (length pre + 1) pre' gs
            (first_room room n (omega arith) h more) (sym (length-append pre ((n % 10 + 48) ∷ [])))
            (omega arith) (omega (arith, pow-suc 10 room))))
  | inr done ↦ rw (e, set-append pre gs g (n % 10 + 48), done) refl
]

-- Up to nine digits, the buffer has room for the line feed, and the swaps reverse it.
pub reverse_digits_lem :
    (ds gs : List ℕ)
    → 1 ≤ length ds
    → length ds ≤ 9
    → length ds + length gs ≡ max_int_length
    → reverse_digits (length ds, ds ++ gs) ≡ some (rev_onto ds [])
unfolding reverse_digits
reverse_digits_lem [] gs p h e = absurd (omega arith)
reverse_digits_lem (a ∷ []) (g ∷ gs) p h e = refl
reverse_digits_lem (a ∷ b ∷ []) (g ∷ gs) p h e = refl
reverse_digits_lem (a ∷ b ∷ c ∷ []) (g ∷ gs) p h e = refl
reverse_digits_lem (a ∷ b ∷ c ∷ d ∷ []) (g ∷ gs) p h e = refl
reverse_digits_lem (a ∷ b ∷ c ∷ d ∷ x ∷ []) (g ∷ gs) p h e = refl
reverse_digits_lem (a ∷ b ∷ c ∷ d ∷ x ∷ y ∷ []) (g ∷ gs) p h e = refl
reverse_digits_lem (a ∷ b ∷ c ∷ d ∷ x ∷ y ∷ z ∷ []) (g ∷ gs) p h e = refl
reverse_digits_lem (a ∷ b ∷ c ∷ d ∷ x ∷ y ∷ z ∷ u ∷ []) (g ∷ gs) p h e = refl
reverse_digits_lem (a ∷ b ∷ c ∷ d ∷ x ∷ y ∷ z ∷ u ∷ v ∷ []) (g ∷ gs) p h e = refl
reverse_digits_lem (a ∷ b ∷ c ∷ d ∷ x ∷ y ∷ z ∷ u ∷ v ∷ w ∷ ds) gs p h e = absurd (omega arith)
reverse_digits_lem ds [] p h e = absurd (omega arith)
