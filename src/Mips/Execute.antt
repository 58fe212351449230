-- ===== src/Mips/Execute.antt =====
-- code/machine/mipssim.cc: OneInstruction, and RaiseException of code/machine/machine.cc up to its
-- call of the handler.
pub mod Overflow
use Prim.Native.Nat.{bit_and, bit_or, bit_xor}
use nachos_system_calls.Prelude.{
  ℕ, ◌+◌, ◌*◌, ◌/◌, ◌%◌, ◌^◌, Bool, true, false, not, ◌&&◌, Option, none, some, ◌>>=◌, ◌>>◌,
  assert_that, ◌==◌, ltb, if◌then◌else◌, pos,
}
use nachos_system_calls.Machine.{
  ExceptionType, syscall_exception, illegal_instr_exception, Machine, Access, trap, value, read_mem,
  signed,
}
use nachos_system_calls.Mips.{
  OpCode, op_add, op_addi, op_addiu, op_addu, op_and, op_andi, op_beq, op_bgez, op_bgezal, op_bgtz,
  op_blez, op_bltz, op_bltzal, op_bne, op_div, op_divu, op_j, op_jal, op_jalr, op_jr, op_lb, op_lbu,
  op_lh, op_lhu, op_lui, op_lw, op_lwl, op_lwr, op_mfhi, op_mflo, op_mthi, op_mtlo, op_mult,
  op_multu, op_nor, op_or, op_ori, op_rfe, op_sb, op_sh, op_sll, op_sllv, op_slt, op_slti, op_sltiu,
  op_sltu, op_sra, op_srav, op_srl, op_srlv, op_sub, op_subu, op_sw, op_swl, op_swr, op_syscall,
  op_unimp, op_res, op_xor, op_xori, Instruction, decode,
}
use nachos_system_calls.Mips.Words.{
  add, sub, complement, shift_left, shift_right, sign_bit, signs_differ, lt_signed,
}
use nachos_system_calls.Mips.Mult.{mult}
use nachos_system_calls.Mips.Cases.{
  reg, put, hi_reg, lo_reg, bad_v_addr_reg, delayed_load, Switched, falls, raises, ends, branch,
  checked, set_if, load_from, load_aligned, store_to, keep_byte, keep_half, in_flight, merge_left,
  merge_right, store_left, store_right, store_word, put_double, divide, divide_unsigned,
}

-- `registers[R31] = registers[NextPCReg] + 4`.
unfoldable pub link : Machine → ℕ → Machine
link m i = put m i (add (reg m 35) 4)

-- `(pcAfter & 0xf0000000) | IndexToAddr(extra)`.
jump_target : ℕ → ℕ → ℕ
jump_target pc extra = bit_or (bit_and pc 0xf0000000) (shift_left extra 2)

-- The switch over `opCode`; `pc` is pcAfter.
unfoldable pub switch_op : OpCode → Instruction → Machine → ℕ → Option Switched
unfolding link jump_target
switch_op op_add i m pc =
    let sum = add (reg m i.rs) (reg m i.rt) in
    checked (not (signs_differ (reg m i.rs) (reg m i.rt)) && signs_differ (reg m i.rs) sum) m i.rd
      sum pc
switch_op op_addi i m pc =
    let sum = add (reg m i.rs) i.extra in
    checked (not (signs_differ (reg m i.rs) i.extra) && signs_differ i.extra sum) m i.rt sum pc
switch_op op_addiu i m pc = ends (put m i.rt (add (reg m i.rs) i.extra)) pc
switch_op op_addu i m pc = ends (put m i.rd (add (reg m i.rs) (reg m i.rt))) pc
switch_op op_and i m pc = ends (put m i.rd (bit_and (reg m i.rs) (reg m i.rt))) pc
switch_op op_andi i m pc = ends (put m i.rt (bit_and (reg m i.rs) (bit_and i.extra 0xffff))) pc
switch_op op_beq i m pc = branch i m (reg m i.rs == reg m i.rt) pc
switch_op op_bgezal i m pc = let m' = link m 31 in branch i m' (not (sign_bit (reg m' i.rs))) pc
switch_op op_bgez i m pc = branch i m (not (sign_bit (reg m i.rs))) pc
switch_op op_bgtz i m pc = branch i m (lt_signed 0 (reg m i.rs)) pc
switch_op op_blez i m pc = branch i m (not (lt_signed 0 (reg m i.rs))) pc
switch_op op_bltzal i m pc = let m' = link m 31 in branch i m' (sign_bit (reg m' i.rs)) pc
switch_op op_bltz i m pc = branch i m (sign_bit (reg m i.rs)) pc
switch_op op_bne i m pc = branch i m (not (reg m i.rs == reg m i.rt)) pc
switch_op op_div i m pc = divide m (reg m i.rs) (reg m i.rt) pc
switch_op op_divu i m pc = ends (divide_unsigned m (reg m i.rs) (reg m i.rt)) pc
switch_op op_jal i m pc = ends (link m 31) (jump_target pc i.extra)
switch_op op_j i m pc = ends m (jump_target pc i.extra)
switch_op op_jalr i m pc = let m' = link m i.rd in ends m' (reg m' i.rs)
switch_op op_jr i m pc = ends m (reg m i.rs)
switch_op op_lb i m pc = load_from m i (add (reg m i.rs) i.extra) 1 (keep_byte true) pc
switch_op op_lbu i m pc = load_from m i (add (reg m i.rs) i.extra) 1 (keep_byte false) pc
switch_op op_lh i m pc = load_aligned m i (add (reg m i.rs) i.extra) 2 (keep_half true) pc
switch_op op_lhu i m pc = load_aligned m i (add (reg m i.rs) i.extra) 2 (keep_half false) pc
switch_op op_lui i m pc = ends (put m i.rt (shift_left i.extra 16)) pc
switch_op op_lw i m pc = load_aligned m i (add (reg m i.rs) i.extra) 4 (λ v. v) pc
switch_op op_lwl i m pc =
    let addr = add (reg m i.rs) i.extra in
    assert_that (addr % 4 == 0)
    >> load_from m i addr 4 (merge_left (addr % 4) (in_flight m i.rt)) pc
switch_op op_lwr i m pc =
    let addr = add (reg m i.rs) i.extra in
    assert_that (addr % 4 == 0)
    >> load_from m i addr 4 (merge_right (addr % 4) (in_flight m i.rt)) pc
switch_op op_mfhi i m pc = ends (put m i.rd (reg m hi_reg)) pc
switch_op op_mflo i m pc = ends (put m i.rd (reg m lo_reg)) pc
switch_op op_mthi i m pc = ends (put m hi_reg (reg m i.rs)) pc
switch_op op_mtlo i m pc = ends (put m lo_reg (reg m i.rs)) pc
switch_op op_mult i m pc = ends (put_double m (mult (reg m i.rs) (reg m i.rt) true)) pc
switch_op op_multu i m pc = ends (put_double m (mult (reg m i.rs) (reg m i.rt) false)) pc
switch_op op_nor i m pc = ends (put m i.rd (complement (bit_or (reg m i.rs) (reg m i.rt)))) pc
switch_op op_or i m pc = ends (put m i.rd (bit_or (reg m i.rs) (reg m i.rs))) pc
switch_op op_ori i m pc = ends (put m i.rt (bit_or (reg m i.rs) (bit_and i.extra 0xffff))) pc
switch_op op_sb i m pc = store_to m (add (reg m i.rs) i.extra) 1 (reg m i.rt) pc
switch_op op_sh i m pc = store_to m (add (reg m i.rs) i.extra) 2 (reg m i.rt) pc
switch_op op_sll i m pc = ends (put m i.rd (shift_left (reg m i.rt) i.extra)) pc
switch_op op_sllv i m pc =
    ends (put m i.rd (shift_left (reg m i.rt) (bit_and (reg m i.rs) 0x1f))) pc
switch_op op_slt i m pc = set_if (lt_signed (reg m i.rs) (reg m i.rt)) m i.rd pc
switch_op op_slti i m pc = set_if (lt_signed (reg m i.rs) i.extra) m i.rt pc
switch_op op_sltiu i m pc = set_if (ltb (reg m i.rs) i.extra) m i.rt pc
switch_op op_sltu i m pc = set_if (ltb (reg m i.rs) (reg m i.rt)) m i.rd pc
switch_op op_sra i m pc = ends (put m i.rd (shift_right (reg m i.rt) i.extra)) pc
switch_op op_srav i m pc =
    ends (put m i.rd (shift_right (reg m i.rt) (bit_and (reg m i.rs) 0x1f))) pc
switch_op op_srl i m pc = ends (put m i.rd (shift_right (reg m i.rt) i.extra)) pc
switch_op op_srlv i m pc =
    ends (put m i.rd (shift_right (reg m i.rt) (bit_and (reg m i.rs) 0x1f))) pc
switch_op op_sub i m pc =
    let diff = sub (reg m i.rs) (reg m i.rt) in
    checked (signs_differ (reg m i.rs) (reg m i.rt) && signs_differ (reg m i.rs) diff) m i.rd diff
      pc
switch_op op_subu i m pc = ends (put m i.rd (sub (reg m i.rs) (reg m i.rt))) pc
switch_op op_sw i m pc = store_to m (add (reg m i.rs) i.extra) 4 (reg m i.rt) pc
switch_op op_swl i m pc =
    let addr = add (reg m i.rs) i.extra in
    assert_that (addr % 4 == 0) >> store_word m addr (store_left (addr % 4) (reg m i.rt)) pc
switch_op op_swr i m pc =
    let addr = add (reg m i.rs) i.extra in
    assert_that (addr % 4 == 0) >> store_word m addr (store_right (addr % 4) (reg m i.rt)) pc
switch_op op_syscall i m pc = some (raises syscall_exception 0 m)
switch_op op_xor i m pc = ends (put m i.rd (bit_xor (reg m i.rs) (reg m i.rt))) pc
switch_op op_xori i m pc = ends (put m i.rt (bit_xor (reg m i.rs) (bit_and i.extra 0xffff))) pc
switch_op op_res i m pc = some (raises illegal_instr_exception 0 m)
switch_op op_unimp i m pc = some (raises illegal_instr_exception 0 m)
switch_op op_rfe i m pc = none

-- How an instruction ends: at the next one, or in the kernel.
pub data Executed : Type 0 where
  retired : Machine → Executed
  trapped : ExceptionType → Machine → Executed

-- RaiseException, before the handler runs.
unfoldable pub raise : ExceptionType → ℕ → Machine → Executed
raise which bad_v_addr m = trapped which (delayed_load (put m bad_v_addr_reg bad_v_addr) 0 0)

-- The lines behind the switch: the delayed load, and the program counters.
unfoldable pub finish : Switched → Executed
unfolding raise
finish (raises which bad_v_addr m) = raise which bad_v_addr m
finish (falls m next_reg next_value pc) =
    let m₁ = delayed_load m next_reg next_value in
    let m₂ = put m₁ 36 (reg m₁ 34) in let m₃ = put m₂ 34 (reg m₂ 35) in retired (put m₃ 35 pc)

unfoldable pub fetched : Machine × Access → Option Executed
unfolding switch_op raise finish
fetched (m, trap e) = some (raise e (reg m 34) m)
fetched (m, value raw) =
    let i = decode raw in switch_op i.op_code i m (add (reg m 35) 4) >>= λ r. some (finish r)

-- OneInstruction.
unfoldable pub one_instruction : Machine → Option Executed
unfolding fetched
one_instruction m = read_mem m (reg m 34) 4 >>= fetched
