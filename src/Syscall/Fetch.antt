-- ===== src/Syscall/Fetch.antt =====
-- The bytes that User2System gets, against reads of the user memory one byte at a time.
use mathlib.Core.Option.{some-injective}
use nachos_system_calls.Prelude.{
  ℕ, zero, suc, ◌+◌, ◌%◌, ◌^◌, ◌<◌, ◌≡◌, ◌≢◌, refl, Option, some, List, [], ◌∷◌, ◌++◌, length,
  replicate, ◌==◌, >>=-eq-some, Bool-cases, inl, inr, ap, ◌∙◌, subst, arith,
}
use nachos_system_calls.CString.{key}
use nachos_system_calls.Machine.{Machine, ExceptionType, Access, trap, value, read_mem}
use nachos_system_calls.Syscall.{
  Copied, fault, copied, keep_byte, user_step, user_loop, user_to_system,
}

-- Reads of one byte each from `addr` on, none of which yields zero: the bytes, the machine that
-- they leave and the address after the last.
pub data Reads : Machine → ℕ → List ℕ → Machine → ℕ → Type 0 where
  no_byte : (m : Machine) (addr : ℕ) → Reads m addr [] m addr
  byte :
      {m m₁ m' : Machine} {addr a' : ℕ} {bs : List ℕ} (v : ℕ)
      → read_mem m addr 1 ≡ some (m₁, value v)
      → v ≢ 0
      → Reads m₁ ((addr + 1) % 2 ^ 32) bs m' a'
      → Reads m addr (v % 256 ∷ bs) m' a'

-- How User2System gets at most `n` bytes: a read fails, or yields zero, or all `n` are there. The
-- rest of the buffer of `n + 1` bytes is zero.
pub data Fetches (n : ℕ) (m : Machine) (addr : ℕ) : Copied → Type 0 where
  traps :
      {m₁ m' : Machine} {a : ℕ} {bs : List ℕ} {e : ExceptionType}
      → Reads m addr bs m₁ a
      → length bs < n
      → read_mem m₁ a 1 ≡ some (m', trap e)
      → Fetches n m addr fault
  ends :
      {m₁ m' : Machine} {a : ℕ} (bs : List ℕ) (z : ℕ)
      → Reads m addr bs m₁ a
      → suc (length bs) + z ≡ n
      → read_mem m₁ a 1 ≡ some (m', value 0)
      → Fetches n m addr (copied m' (bs ++ replicate (suc (suc z)) 0))
  fills :
      {m' : Machine} {a : ℕ} (bs : List ℕ)
      → Reads m addr bs m' a
      → length bs ≡ n
      → Fetches n m addr (copied m' (bs ++ 0 ∷ []))

keep_byte-Fetches :
    (n : ℕ) (m m₁ : Machine) (addr v : ℕ) (r : Copied)
    → read_mem m addr 1 ≡ some (m₁, value v)
    → v ≢ 0
    → Fetches n m₁ ((addr + 1) % 2 ^ 32) r
    → Fetches (suc n) m addr (keep_byte (v % 256) r)
unfolding keep_byte
keep_byte-Fetches n m m₁ addr v _ e z (traps r l t) = traps (byte v e z r) (omega (arith, l)) t
keep_byte-Fetches n m m₁ addr v _ e z (ends bs k r l t) =
    ends (v % 256 ∷ bs) k (byte v e z r) (omega (arith, l)) t
keep_byte-Fetches n m m₁ addr v _ e z (fills bs r l) =
    fills (v % 256 ∷ bs) (byte v e z r) (omega (arith, l))

user_step-Fetches :
    (n : ℕ) (m m₁ : Machine) (addr : ℕ) (x : Access) (rest : Option Copied) (r : Copied)
    → read_mem m addr 1 ≡ some (m₁, x)
    → ((q : Copied) → rest ≡ some q → Fetches n m₁ ((addr + 1) % 2 ^ 32) q)
    → user_step n m₁ x rest ≡ some r
    → Fetches (suc n) m addr r
unfolding user_step
user_step-Fetches n m m₁ addr (trap e) rest r f ih h =
    subst (Fetches (suc n) m addr) (some-injective _ _ h) (traps (no_byte m addr) (omega arith) f)
user_step-Fetches n m m₁ addr (value v) rest r f ih h = elim (Bool-cases (v == 0)) [
  | inl t ↦
      let z : v ≡ 0 = ground arith in
      subst (Fetches (suc n) m addr) (some-injective _ _ (rw t at h))
        (ends [] n (no_byte m addr) (omega arith) (f ∙ ap (λ x. some (m₁, value x)) z))
  | inr t ↦
      let (q, e, g) = >>=-eq-some rest _ (rw t at h) in
      subst (Fetches (suc n) m addr) (some-injective _ _ g)
        (keep_byte-Fetches n m m₁ addr v q f (λ z. absurd (ground (arith, z, t))) (ih q e))
]

pub user_to_system-Fetches :
    (n : ℕ) (m : Machine) (addr : ℕ) (r : Copied)
    → user_to_system m addr n ≡ some r
    → Fetches n m addr r
unfolding user_to_system user_loop
user_to_system-Fetches zero m addr r h =
    subst (Fetches zero m addr) (some-injective _ _ h) (fills [] (no_byte m addr) refl)
user_to_system-Fetches (suc n) m addr r h =
    let ((m', x), e, g) = >>=-eq-some (read_mem m addr 1) _ h in
    user_step-Fetches n m m' addr x (user_loop n m' ((addr + 1) % 2 ^ 32)) r e
      (λ q k. user_to_system-Fetches n m' ((addr + 1) % 2 ^ 32) q k) g

-- A string is read up to its zero, whatever is behind it.
pub key-terminated :
    (bs tail : List ℕ) → key (length (bs ++ 0 ∷ tail)) (bs ++ 0 ∷ tail) ≡ key (length bs) bs
key-terminated [] tail = refl
key-terminated (b ∷ bs) tail = rw (key-terminated bs tail) refl
