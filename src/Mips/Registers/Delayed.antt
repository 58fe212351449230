-- ===== src/Mips/Registers/Delayed.antt =====
-- The registers after DelayedLoad.
use nachos_system_calls.Prelude.{
  ℕ, ◌<◌, ◌≤◌, ◌≡◌, ◌≢◌, ◌∙◌, length, length-set, get_or-set_self, get_or-set_ne, arith,
}
use nachos_system_calls.Machine.{Machine}
use nachos_system_calls.Mips.Cases.{reg, put, load_reg, load_value_reg, delayed_load}

-- What holds between two instructions: forty registers, a general one in LoadReg, 0 in the first.
pub record IsReady (m : Machine) : Type 0 where
  pub forty : length m.registers ≡ 40
  pub load_lt : reg m load_reg < 32
  pub reg_zero : reg m 0 ≡ 0

pub reg-put_self :
    (m : Machine) (i v : ℕ) → length m.registers ≡ 40 → i < 40 → reg (put m i v) i ≡ v
reg-put_self m i v h k = get_or-set_self m.registers i v 0 (omega arith)

pub reg-put_ne : (m : Machine) (i j v : ℕ) → i ≢ j → reg (put m i v) j ≡ reg m j
reg-put_ne m i j v h = get_or-set_ne m.registers i j v 0 h

pub length-put :
    (m : Machine) (i v : ℕ) → length m.registers ≡ 40 → length (put m i v).registers ≡ 40
length-put m i v h = length-set m.registers i v ∙ h

module _ (m : Machine) (r v : ℕ) (forty : length m.registers ≡ 40) (lt : reg m load_reg < 32) where
  -- The registers with the arrived value, with LoadReg, and with both written.
  abbrev arrived : Machine
  arrived = put m (reg m load_reg) (reg m load_value_reg)

  abbrev marked : Machine
  marked = put (put arrived load_reg r) load_value_reg v

  length-marked : length marked.registers ≡ 40
  length-marked =
      length-put (put arrived load_reg r) load_value_reg v
        (length-put arrived load_reg r (length-put m (reg m load_reg) (reg m load_value_reg) forty))

  pub length-delayed_load : length (delayed_load m r v).registers ≡ 40
  unfolding delayed_load
  length-delayed_load = length-put marked 0 0 length-marked

  pub delayed_load-zero : reg (delayed_load m r v) 0 ≡ 0
  unfolding delayed_load
  delayed_load-zero = reg-put_self marked 0 0 length-marked (omega arith)

  pub delayed_load-load_reg : reg (delayed_load m r v) load_reg ≡ r
  unfolding delayed_load
  delayed_load-load_reg =
      reg-put_ne marked 0 load_reg 0 (λ e. absurd (omega (arith, e)))
      ∙ reg-put_ne (put arrived load_reg r) load_value_reg load_reg v
          (λ e. absurd (omega (arith, e)))
      ∙ reg-put_self arrived load_reg r (length-put m (reg m load_reg) (reg m load_value_reg) forty)
          (omega arith)

  -- The program counters.
  pub delayed_load-keeps : (j : ℕ) → 34 ≤ j → j < 37 → reg (delayed_load m r v) j ≡ reg m j
  unfolding delayed_load
  delayed_load-keeps j h k =
      reg-put_ne marked 0 j 0 (λ e. absurd (omega (arith, e)))
      ∙ reg-put_ne (put arrived load_reg r) load_value_reg j v (λ e. absurd (omega (arith, e)))
      ∙ reg-put_ne arrived load_reg j r (λ e. absurd (omega (arith, e)))
      ∙ reg-put_ne m (reg m load_reg) j (reg m load_value_reg) (λ e. absurd (omega (arith, e)))
