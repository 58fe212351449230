-- ===== src/Thread/Registers.antt =====
-- The loops over the registers in SaveUserState and RestoreUserState of code/threads/thread.cc.
use nachos_system_calls.Prelude.{
  ℕ, zero, suc, ◌+◌, ◌<◌, ◌≤◌, ◌≡◌, refl, sym, ap, ap₂, subst, ◌∙◌, some, List, [], ◌∷◌, length,
  length-set, get_elem?, get_elem?_total, get_elem?-eq-none, get_elem?-set_self, get_elem?-set_ne,
  set, ℕ_discrete, arith,
}
use nachos_system_calls.Machine.{Machine, read_register, write_register}
use nachos_system_calls.Thread.{
  Thread, save_loop, save_user_state, restore_loop, restore_user_state,
}

-- Elements from `i` on are those of `from`, the others those of `old`.
abbrev Copied : ℕ → List ℕ → List ℕ → List ℕ → Type 0
Copied i from old to =
    (length to ≡ length old)
    × ((j : ℕ) → i ≤ j → get_elem? to j ≡ get_elem? from j)
    × ((j : ℕ) → j < i → get_elem? to j ≡ get_elem? old j)

Copied-step :
    (i x : ℕ) (from old to : List ℕ)
    → i < length old
    → get_elem? from i ≡ some x
    → Copied (i + 1) from (set old i x) to
    → Copied i from old to
Copied-step i x from old to l e (n, f, g) = (
  n ∙ length-set old i x,
  λ j p. elim (ℕ_discrete i j) [
    | yes z ↦
        subst (λ j. get_elem? to j ≡ get_elem? from j) z
          (g i (omega arith) ∙ get_elem?-set_self old i x l ∙ sym e)
    | no z ↦ f j (omega (arith, p, z))
  ],
  λ j p. g j (omega (arith, p)) ∙ get_elem?-set_ne old x (λ z. absurd (omega (arith, p, z))),
)

list_ext : (xs ys : List ℕ) → ((j : ℕ) → get_elem? xs j ≡ get_elem? ys j) → xs ≡ ys
list_ext [] [] h = refl
list_ext [] (y ∷ ys) h = absurd (ground (arith, h 0))
list_ext (x ∷ xs) [] h = absurd (ground (arith, h 0))
list_ext (x ∷ xs) (y ∷ ys) h = ap₂ ◌∷◌ (ground (arith, h 0)) (list_ext xs ys (λ j. h (suc j)))

save_loop_lem :
    (k i : ℕ) (m : Machine) (regs : List ℕ)
    → i + k ≡ length regs
    → length regs ≡ length m.registers
    → (to : List ℕ) × (save_loop k i m regs ≡ some to) × Copied i m.registers regs to
unfolding save_loop read_register
save_loop_lem zero i m regs n l =
    (regs, refl, (refl, (λ j p. beyond regs m.registers j (omega (arith, n, p)) l), λ j p. refl))
  where
    beyond :
        (xs ys : List ℕ) (j : ℕ)
        → length xs ≤ j
        → length xs ≡ length ys
        → get_elem? xs j ≡ get_elem? ys j
    beyond xs ys j p l =
        get_elem?-eq-none xs j p ∙ sym (get_elem?-eq-none ys j (omega (arith, p, l)))
save_loop_lem (suc k) i m regs n l =
    let (x, e) = get_elem?_total m.registers i (omega (arith, n, l)) in
    let (old, o) = get_elem?_total regs i (omega (arith, n)) in
    let (to, q, c) =
      save_loop_lem k (i + 1) m (set regs i x) (omega (arith, n, length-set regs i x))
        (length-set regs i x ∙ l) in
    (to, rw (e, o) q, Copied-step i x m.registers regs to (omega (arith, n)) e c)

restore_loop_lem :
    (k i : ℕ) (regs : List ℕ) (m : Machine)
    → i + k ≡ length regs
    → length regs ≡ length m.registers
    → (to : List ℕ) × (restore_loop k i regs m ≡ some (record m { registers = to }))
      × Copied i regs m.registers to
unfolding restore_loop write_register
restore_loop_lem zero i regs m n l = (
  m.registers,
  refl,
  (refl, (λ j p. beyond m.registers regs j (omega (arith, n, l, p)) (sym l)), λ j p. refl),
)
  where
    beyond :
        (xs ys : List ℕ) (j : ℕ)
        → length xs ≤ j
        → length xs ≡ length ys
        → get_elem? xs j ≡ get_elem? ys j
    beyond xs ys j p l =
        get_elem?-eq-none xs j p ∙ sym (get_elem?-eq-none ys j (omega (arith, p, l)))
restore_loop_lem (suc k) i regs m n l =
    let (x, e) = get_elem?_total regs i (omega (arith, n)) in
    let (old, o) = get_elem?_total m.registers i (omega (arith, n, l)) in
    let (to, q, c) =
      restore_loop_lem k (i + 1) regs (record m { registers = set m.registers i x })
        (omega (arith, n)) (l ∙ sym (length-set m.registers i x)) in
    (to, rw (e, o) q, Copied-step i x regs m.registers to (omega (arith, n, l)) e c)

pub save_user_state_lem :
    (m : Machine) (t : Thread)
    → length m.registers ≡ 40
    → length t.user_registers ≡ 40
    → save_user_state m t ≡ some (record t { user_registers = m.registers })
unfolding save_user_state
save_user_state_lem m t l n =
    let (to, e, (c, f, g)) = save_loop_lem 40 0 m t.user_registers (omega (arith, n)) (n ∙ sym l) in
    rw e (
      ap (λ x. some (record t { user_registers = x }))
        (list_ext to m.registers (λ j. f j (omega arith))))

pub restore_user_state_lem :
    (m : Machine) (t : Thread)
    → length m.registers ≡ 40
    → length t.user_registers ≡ 40
    → restore_user_state t m ≡ some (record m { registers = t.user_registers })
unfolding restore_user_state
restore_user_state_lem m t l n =
    let (to, e, (c, f, g)) =
      restore_loop_lem 40 0 t.user_registers m (omega (arith, n)) (n ∙ sym l) in
    e
    ∙ ap (λ x. some (record m { registers = x }))
        (list_ext to t.user_registers (λ j. f j (omega arith)))
