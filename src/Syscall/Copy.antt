-- ===== src/Syscall/Copy.antt =====
-- What SC_PrintString and User2System do with the bytes of a string.
use mathlib.Core.Option.{some-injective}
use nachos_system_calls.Prelude.{
  ℕ, zero, suc, ◌+◌, ◌%◌, ◌^◌, ◌≡◌, refl, Bool, true, false, Option, some, List, [], ◌∷◌, ◌++◌,
  length, replicate, ◌==◌, >>=-eq-some, if◌then◌else◌, Bool-cases, inl, inr, ap, ◌∙◌, sym, subst,
  append_assoc, append_nil,
}
use nachos_system_calls.CString.{key}
use nachos_system_calls.Console.{Console, write}
use nachos_system_calls.Machine.{Machine, Access, trap, value, read_mem}
use nachos_system_calls.Machine.Translate.{HasTable}
use nachos_system_calls.Machine.Memory.{read_mem_byte}
use nachos_system_calls.Syscall.{
  Copied, fault, copied, keep_byte, user_step, user_loop, user_to_system, print_loop,
}

-- A buffer that holds a terminator.
abbrev pub IsTerminated : List ℕ → Type 0
IsTerminated [] = ⊥
IsTerminated (x ∷ xs) = if x == 0 then Unit else IsTerminated xs

-- The loop of SC_PrintString on a buffer with a terminator ends, and writes the bytes in front of
-- the first zero, in their order, and nothing else.
pub print_loop_lem :
    (c : Console) (buf : List ℕ)
    → IsTerminated buf
    → print_loop c buf ≡ some (record c { output = c.output ++ key (length buf) buf })
unfolding print_loop write
print_loop_lem c [] h = absurd h
print_loop_lem c (x ∷ buf) h = elim (Bool-cases (x == 0)) [
  | inl t ↦ rw t (ap (λ o. some (record c { output = o })) (sym (append_nil c.output)))
  | inr t ↦ rw t (
      print_loop_lem (write c (x ∷ []) 1) buf (rw t at h)
      ∙ ap (λ o. some (record c { output = o }))
          (append_assoc c.output (x ∷ []) (key (length buf) buf)))
]

zeros-IsTerminated : (n : ℕ) → IsTerminated (replicate (suc n) 0)
zeros-IsTerminated n = tt

length-replicate : (n : ℕ) → length (replicate n zero) ≡ n
length-replicate zero = refl
length-replicate (suc n) = ap (λ k. suc k) (length-replicate n)

-- The bytes asked for and one more, with a terminator.
abbrev pub IsString : ℕ → Copied → Type 0
IsString n fault = Unit
IsString n (copied m buf) = (length buf ≡ suc n) × IsTerminated buf

keep_byte-IsString : (n v : ℕ) (r : Copied) → IsString n r → IsString (suc n) (keep_byte v r)
unfolding keep_byte
keep_byte-IsString n v fault h = tt
keep_byte-IsString n v (copied m buf) (l, t) = (ap (λ k. suc k) l, cons_terminated (v == 0) t)
  where
    cons_terminated : (b : Bool) → IsTerminated buf → (if b then Unit else IsTerminated buf)
    cons_terminated true t = tt
    cons_terminated false t = t

user_step-IsString :
    (n : ℕ) (m : Machine) (x : Access) (rest : Option Copied) (r : Copied)
    → ((q : Copied) → rest ≡ some q → IsString n q)
    → user_step n m x rest ≡ some r
    → IsString (suc n) r
unfolding user_step
user_step-IsString n m (trap e) rest r ih h = subst (IsString (suc n)) (some-injective _ _ h) tt
user_step-IsString n m (value v) rest r ih h = elim (Bool-cases (v == 0)) [
  | inl t ↦
      subst (IsString (suc n)) (some-injective _ _ (rw t at h))
        (ap (λ k. suc (suc k)) (length-replicate n), tt)
  | inr t ↦
      let (q, e, g) = >>=-eq-some rest _ (rw t at h) in
      subst (IsString (suc n)) (some-injective _ _ g) (keep_byte-IsString n (v % 256) q (ih q e))
]

-- A buffer that User2System returns has the bytes asked for and one more, and a terminator.
user_to_system-IsString :
    (n : ℕ) (m : Machine) (addr : ℕ) (r : Copied) → user_to_system m addr n ≡ some r → IsString n r
unfolding user_to_system user_loop
user_to_system-IsString zero m addr r h = subst (IsString zero) (some-injective _ _ h) (refl, tt)
user_to_system-IsString (suc n) m addr r h =
    let ((m', x), e, g) = >>=-eq-some (read_mem m addr 1) _ h in
    user_step-IsString n m' x (user_loop n m' ((addr + 1) % 2 ^ 32)) r
      (λ q k. user_to_system-IsString n m' ((addr + 1) % 2 ^ 32) q k) g

-- What a copy leaves of the machine.
abbrev pub Keeps : Machine → Copied → Type 0
Keeps m fault = Unit
Keeps m (copied m' buf) = (m'.main_memory ≡ m.main_memory) × (m'.registers ≡ m.registers)

keep_byte-Keeps :
    (m m₁ : Machine) (v : ℕ) (r : Copied)
    → m₁.main_memory ≡ m.main_memory
    → m₁.registers ≡ m.registers
    → Keeps m₁ r
    → Keeps m (keep_byte v r)
unfolding keep_byte
keep_byte-Keeps m m₁ v fault p q k = tt
keep_byte-Keeps m m₁ v (copied m' buf) p q (a, b) = (a ∙ p, b ∙ q)

user_step_total :
    (n : ℕ) (m m₁ : Machine) (x : Access) (rest : Option Copied)
    → m₁.main_memory ≡ m.main_memory
    → m₁.registers ≡ m.registers
    → ((r : Copied) × (rest ≡ some r) × Keeps m₁ r)
    → (r : Copied) × (user_step n m₁ x rest ≡ some r) × Keeps m r
unfolding user_step
user_step_total n m m₁ (trap e) rest p q ih = (fault, refl, tt)
user_step_total n m m₁ (value v) rest p q (r, e, k) = elim (Bool-cases (v == 0)) [
  | inl t ↦ (copied m₁ (replicate (suc (suc n)) 0), rw t refl, (p, q))
  | inr t ↦ (keep_byte (v % 256) r, rw (t, e) refl, keep_byte-Keeps m m₁ (v % 256) r p q k)
]

loop_total :
    (n : ℕ) (m : Machine) (addr : ℕ)
    → HasTable m
    → (r : Copied) × (user_loop n m addr ≡ some r) × Keeps m r
unfolding user_loop
loop_total zero m addr t = (copied m (0 ∷ []), refl, (refl, refl))
loop_total (suc n) m addr t =
    let (m₁, x, e, t', p, q) = read_mem_byte m addr t in
    let next = (addr + 1) % 2 ^ 32 in
    let (r, s, k) = user_step_total n m m₁ x (user_loop n m₁ next) p q (loop_total n m₁ next t') in
    (r, rw e s, k)

-- With exactly one table in place, User2System always returns: it stops at a fault, which halts the
-- machine, or its buffer has one byte more than the limit and a terminator, and the memory and the
-- registers are as they were.
pub user_to_system_total :
    (n : ℕ) (m : Machine) (addr : ℕ)
    → HasTable m
    → (r : Copied) × (user_to_system m addr n ≡ some r) × IsString n r × Keeps m r
unfolding user_to_system
user_to_system_total n m addr t =
    let (r, e, k) = loop_total n m addr t in (r, e, user_to_system-IsString n m addr r e, k)
