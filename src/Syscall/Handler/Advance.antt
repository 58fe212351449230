-- ===== src/Syscall/Handler/Advance.antt =====
-- What the handler does to the program counter.
use nachos_system_calls.Prelude.{
  ℕ, ◌+◌, ◌%◌, ◌^◌, ◌≡◌, ◌≢◌, refl, some, length, get_elem?, set, get_elem?-set_self,
  get_elem?-set_ne, length-set, get_elem?_total, ◌∙◌, sym, arith,
}
use nachos_system_calls.Machine.{Machine, read_register, write_register}
use nachos_system_calls.Syscall.Handler.{pc_reg, next_pc_reg, prev_pc_reg, advance_pc}

pub record Advances (m m' : Machine) (pc next : ℕ) : Type 0 where
  pub previous : get_elem? m'.registers prev_pc_reg ≡ some pc
  pub current : get_elem? m'.registers pc_reg ≡ some next
  pub following : get_elem? m'.registers next_pc_reg ≡ some ((next + 4) % 2 ^ 32)
  pub others :
      (i : ℕ)
      → i ≢ pc_reg
      → i ≢ next_pc_reg
      → i ≢ prev_pc_reg
      → get_elem? m'.registers i ≡ get_elem? m.registers i
  pub memory : m'.main_memory ≡ m.main_memory

-- On a machine with its forty registers the end of a system call succeeds: it moves the program
-- counter on by one instruction, through the branch delay slot, and changes no other register and no
-- memory.
pub advance_pc-Advances :
    (m : Machine) (pc next : ℕ)
    → length m.registers ≡ 40
    → get_elem? m.registers pc_reg ≡ some pc
    → get_elem? m.registers next_pc_reg ≡ some next
    → (m' : Machine) × (advance_pc m ≡ some m') × Advances m m' pc next
unfolding advance_pc read_register write_register
advance_pc-Advances m pc next l p n =
    let r₁ = set m.registers 36 pc in
    let r₂ = set r₁ 34 next in
    let r₃ = set r₂ 35 ((next + 4) % 2 ^ 32) in
    let (x, a) = get_elem?_total m.registers 36 (omega (arith, l)) in
    let l₁ : length r₁ ≡ 40 = length-set m.registers 36 pc ∙ l in
    let l₂ : length r₂ ≡ 40 = length-set r₁ 34 next ∙ l₁ in
    let b : get_elem? r₁ 35 ≡ some next =
      get_elem?-set_ne m.registers {i = 36} {j = 35} pc (λ e. omega (arith, e)) ∙ n in
    let c : get_elem? r₁ 34 ≡ some pc =
      get_elem?-set_ne m.registers {i = 36} {j = 34} pc (λ e. omega (arith, e)) ∙ p in
    let d : get_elem? r₂ 35 ≡ some next =
      get_elem?-set_ne r₁ {i = 34} {j = 35} next (λ e. omega (arith, e)) ∙ b in
    (
      record m { registers = r₃ },
      rw (p, a, b, c, d) refl,
      record {
        previous =
            get_elem?-set_ne r₂ {i = 35} {j = 36} ((next + 4) % 2 ^ 32) (λ e. omega (arith, e))
            ∙ get_elem?-set_ne r₁ {i = 34} {j = 36} next (λ e. omega (arith, e))
            ∙ get_elem?-set_self m.registers 36 pc (omega (arith, l));
        current =
            get_elem?-set_ne r₂ {i = 35} {j = 34} ((next + 4) % 2 ^ 32) (λ e. omega (arith, e))
            ∙ get_elem?-set_self r₁ 34 next (omega (arith, l₁));
        following = get_elem?-set_self r₂ 35 ((next + 4) % 2 ^ 32) (omega (arith, l₂));
        others = λ i u v w.
            get_elem?-set_ne r₂ {i = 35} {j = i} ((next + 4) % 2 ^ 32) (λ e. v (sym e))
            ∙ get_elem?-set_ne r₁ {i = 34} {j = i} next (λ e. u (sym e))
            ∙ get_elem?-set_ne m.registers {i = 36} {j = i} pc (λ e. w (sym e));
        memory = refl;
      },
    )
