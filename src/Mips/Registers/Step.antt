-- ===== src/Mips/Registers/Step.antt =====
-- What one instruction does to the registers: the discipline of LoadReg, the register 0, and the
-- program counters.
use mathlib.Core.Option.{some-injective}
use nachos_system_calls.Prelude.{
  ℕ, ◌<◌, ◌≤◌, ◌≡◌, ◌≢◌, sym, subst, ◌∙◌, Option, none, some, length, >>=-eq-some, arith,
}
use nachos_system_calls.Machine.{ExceptionType, Machine, Access, trap, value, read_mem}
use nachos_system_calls.Machine.Registers.{read_mem-registers}
use nachos_system_calls.Mips.{decode}
use nachos_system_calls.Mips.Words.{add}
use nachos_system_calls.Mips.Cases.{
  reg, put, load_reg, bad_v_addr_reg, Switched, falls, raises, delayed_load,
}
use nachos_system_calls.Mips.Execute.{
  switch_op, Executed, retired, trapped, raise, finish, fetched, one_instruction,
}
use nachos_system_calls.Mips.Registers.{
  Keeps, KeptBy, Kept, Fits, Keeps-trans, Keeps-registers, decode-Fits,
}
use nachos_system_calls.Mips.Registers.Switch.{switch_op-Kept}
use nachos_system_calls.Mips.Registers.Delayed.{
  IsReady, reg-put_self, reg-put_ne, length-put, length-delayed_load, delayed_load-zero,
  delayed_load-load_reg, delayed_load-keeps,
}

-- How the program counters move: on at an instruction that ends, not at all at a trap.
pub data Stepped (m : Machine) : Executed → Type 0 where
  moved_on :
      (m' : Machine)
      → IsReady m'
      → reg m' 34 ≡ reg m 35
      → reg m' 36 ≡ reg m 34
      → Stepped m (retired m')
  stayed :
      (m' : Machine) (e : ExceptionType)
      → IsReady m'
      → reg m' load_reg ≡ 0
      → reg m' 34 ≡ reg m 34
      → reg m' 35 ≡ reg m 35
      → reg m' 36 ≡ reg m 36
      → Stepped m (trapped e m')

module _ (m m' : Machine) (ready : IsReady m) (keeps : Keeps m m') where
  kept-forty : length m'.registers ≡ 40
  unfolding Keeps
  kept-forty = keeps.0 ∙ ready.forty

  kept-reg : (j : ℕ) → 34 ≤ j → reg m' j ≡ reg m j
  unfolding Keeps
  kept-reg = keeps.1

  raise-Stepped : (e : ExceptionType) (a : ℕ) → Stepped m (raise e a m')
  unfolding raise
  raise-Stepped e a =
      let m₁ = put m' bad_v_addr_reg a in
      let forty = length-put m' bad_v_addr_reg a kept-forty in
      let other : (j : ℕ) → 34 ≤ j → j < 39 → reg m₁ j ≡ reg m j =
        λ j h k. reg-put_ne m' bad_v_addr_reg j a (λ q. absurd (omega (arith, q))) ∙ kept-reg j h in
      let lt : reg m₁ load_reg < 32 =
        omega (arith, other load_reg (omega arith) (omega arith), ready.load_lt) in
      let load = delayed_load-load_reg m₁ 0 0 forty lt in
      let pc : (j : ℕ) → 34 ≤ j → j < 37 → reg (delayed_load m₁ 0 0) j ≡ reg m j =
        λ j h k. delayed_load-keeps m₁ 0 0 forty lt j h k ∙ other j h (omega arith) in
      stayed (delayed_load m₁ 0 0) e
        record {
          forty = length-delayed_load m₁ 0 0 forty lt;
          load_lt = omega (arith, load);
          reg_zero = delayed_load-zero m₁ 0 0 forty lt;
        }
        load (pc 34 (omega arith) (omega arith)) (pc 35 (omega arith) (omega arith))
        (pc 36 (omega arith) (omega arith))

  retired-Stepped : (r v pc : ℕ) → r < 32 → Stepped m (finish (falls m' r v pc))
  unfolding finish
  retired-Stepped r v pc h =
      let lt : reg m' load_reg < 32 =
        omega (arith, kept-reg load_reg (omega arith), ready.load_lt) in
      let m₁ = delayed_load m' r v in
      let m₂ = put m₁ 36 (reg m₁ 34) in
      let m₃ = put m₂ 34 (reg m₂ 35) in
      let f₁ = length-delayed_load m' r v kept-forty lt in
      let f₂ = length-put m₁ 36 (reg m₁ 34) f₁ in
      let f₃ = length-put m₂ 34 (reg m₂ 35) f₂ in
      let same : (j : ℕ) → j ≢ 34 → j ≢ 35 → j ≢ 36 → reg (put m₃ 35 pc) j ≡ reg m₁ j = λ j a b c.
        reg-put_ne m₃ 35 j pc (λ e. b (sym e))
        ∙ reg-put_ne m₂ 34 j (reg m₂ 35) (λ e. a (sym e))
        ∙ reg-put_ne m₁ 36 j (reg m₁ 34) (λ e. c (sym e)) in
      let keeps_pc = delayed_load-keeps m' r v kept-forty lt in
      moved_on (put m₃ 35 pc)
        record {
          forty = length-put m₃ 35 pc f₃;
          load_lt = omega (
            arith,
            same load_reg (λ e. absurd (omega (arith, e))) (λ e. absurd (omega (arith, e)))
                (λ e. absurd (omega (arith, e))),
            delayed_load-load_reg m' r v kept-forty lt,
            h,
          );
          reg_zero =
              same 0 (λ e. absurd (omega (arith, e))) (λ e. absurd (omega (arith, e)))
                (λ e. absurd (omega (arith, e)))
              ∙ delayed_load-zero m' r v kept-forty lt;
        }
        (reg-put_ne m₃ 35 34 pc (λ e. absurd (omega (arith, e)))
          ∙ reg-put_self m₂ 34 (reg m₂ 35) f₂ (omega arith)
          ∙ reg-put_ne m₁ 36 35 (reg m₁ 34) (λ e. absurd (omega (arith, e)))
          ∙ keeps_pc 35 (omega arith) (omega arith)
          ∙ kept-reg 35 (omega arith))
        (reg-put_ne m₃ 35 36 pc (λ e. absurd (omega (arith, e)))
          ∙ reg-put_ne m₂ 34 36 (reg m₂ 35) (λ e. absurd (omega (arith, e)))
          ∙ reg-put_self m₁ 36 (reg m₁ 34) f₁ (omega arith)
          ∙ keeps_pc 34 (omega arith) (omega arith)
          ∙ kept-reg 34 (omega arith))

finish-Stepped : (m : Machine) (s : Switched) → IsReady m → KeptBy m s → Stepped m (finish s)
unfolding KeptBy finish
finish-Stepped m (raises e a m') ready k = raise-Stepped m m' ready k e a
finish-Stepped m (falls m' r v pc) ready (k, h) = retired-Stepped m m' ready k r v pc h

-- What a case keeps of a machine, it keeps of one that has the same registers.
KeptBy-registers :
    (m m' : Machine) (s : Switched) → m'.registers ≡ m.registers → KeptBy m' s → KeptBy m s
unfolding KeptBy
KeptBy-registers m m' (raises e a m'') q k = Keeps-trans m m' m'' (Keeps-registers m m' q) k
KeptBy-registers m m' (falls m'' r v pc) q (k, h) =
    (Keeps-trans m m' m'' (Keeps-registers m m' q) k, h)

Kept-some : (m : Machine) (o : Option Switched) (s : Switched) → o ≡ some s → Kept m o → KeptBy m s
unfolding Kept
Kept-some m none s q k = cc
Kept-some m (some s') s q k = subst (KeptBy m) (some-injective _ _ q) k

fetched-Stepped :
    (m m' : Machine) (x : Access) (r : Executed)
    → IsReady m
    → m'.registers ≡ m.registers
    → fetched (m', x) ≡ some r
    → Stepped m r
unfolding fetched Fits
fetched-Stepped m m' (trap e) r ready q h =
    subst (Stepped m) (some-injective _ _ h)
      (raise-Stepped m m' ready (Keeps-registers m m' q) e (reg m' 34))
fetched-Stepped m m' (value raw) r ready q h =
    let i = decode raw in
    let pc = add (reg m' 35) 4 in
    let (s, e, f) = >>=-eq-some (switch_op i.op_code i m' pc) _ h in
    let fits = decode-Fits raw in
    let kept = Kept-some m' _ s e (switch_op-Kept i m' pc fits.1 fits.2 i.op_code) in
    subst (Stepped m) (some-injective _ _ f)
      (finish-Stepped m s ready (KeptBy-registers m m' s q kept))

-- One instruction, from a machine with forty registers, a general register or none in LoadReg and
-- 0 in the register 0, leaves such a machine. If the instruction ends, the PC is the old NextPC and
-- the previous PC the old PC; if it traps, the three program counters are as before, and no load is
-- in flight.
pub one_instruction-Stepped :
    (m : Machine) (r : Executed) → IsReady m → one_instruction m ≡ some r → Stepped m r
unfolding one_instruction
one_instruction-Stepped m r ready h =
    let ((m', x), e, f) = >>=-eq-some (read_mem m (reg m 34) 4) _ h in
    fetched-Stepped m m' x r ready (read_mem-registers m m' (reg m 34) 4 x e) f
