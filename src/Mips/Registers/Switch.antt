-- ===== src/Mips/Registers/Switch.antt =====
-- Each case of the switch keeps the special registers.
use nachos_system_calls.Prelude.{ℕ, ◌<◌, ◌%◌, true, false, assert_that, ◌==◌, arith}
use nachos_system_calls.Machine.{Machine}
use nachos_system_calls.Mips.{
  Instruction, OpCode, op_add, op_addi, op_addiu, op_addu, op_and, op_andi, op_beq, op_bgezal,
  op_bgez, op_bgtz, op_blez, op_bltzal, op_bltz, op_bne, op_div, op_divu, op_jal, op_j, op_jalr,
  op_jr, op_lb, op_lbu, op_lh, op_lhu, op_lui, op_lw, op_lwl, op_lwr, op_mfhi, op_mflo, op_mthi,
  op_mtlo, op_mult, op_multu, op_nor, op_or, op_ori, op_sb, op_sh, op_sll, op_sllv, op_slt, op_slti,
  op_sltiu, op_sltu, op_sra, op_srav, op_srl, op_srlv, op_sub, op_subu, op_sw, op_swl, op_swr,
  op_syscall, op_xor, op_xori, op_res, op_unimp, op_rfe,
}
use nachos_system_calls.Mips.Words.{add}
use nachos_system_calls.Mips.Mult.{mult}
use nachos_system_calls.Mips.Cases.{reg, put, hi_reg, lo_reg, branch, set_if}
use nachos_system_calls.Mips.Execute.{link, switch_op}
use nachos_system_calls.Mips.Registers.{
  Keeps, Kept, Keeps-refl, put-Keeps, none-Kept, >>=-Kept, ends-Kept, raises-Kept, put-Kept,
  checked-Kept, loaded-Kept, load_aligned-Kept, store_to-Kept, store_word-Kept, put_double-Keeps,
  divide_unsigned-Keeps, divide-Kept,
}

module _ (i : Instruction) (m : Machine) (pc : ℕ) (rt : i.rt < 32) (rd : i.rd < 32) where
  link-Keeps : (j : ℕ) → j < 32 → Keeps m (link m j)
  unfolding link
  link-Keeps j h = put-Keeps m m j (add (reg m 35) 4) (omega arith) (Keeps-refl m)

  pub switch_op-Kept : (op : OpCode) → Kept m (switch_op op i m pc)
  unfolding switch_op branch set_if
  switch_op-Kept op_add = checked-Kept m _ i.rd _ pc rd
  switch_op-Kept op_addi = checked-Kept m _ i.rt _ pc rt
  switch_op-Kept op_addiu = put-Kept m i.rt _ pc rt
  switch_op-Kept op_addu = put-Kept m i.rd _ pc rd
  switch_op-Kept op_and = put-Kept m i.rd _ pc rd
  switch_op-Kept op_andi = put-Kept m i.rt _ pc rt
  switch_op-Kept op_beq = ends-Kept m m _ (Keeps-refl m)
  switch_op-Kept op_bgezal = ends-Kept m (link m 31) _ (link-Keeps 31 (ground arith))
  switch_op-Kept op_bgez = ends-Kept m m _ (Keeps-refl m)
  switch_op-Kept op_bgtz = ends-Kept m m _ (Keeps-refl m)
  switch_op-Kept op_blez = ends-Kept m m _ (Keeps-refl m)
  switch_op-Kept op_bltzal = ends-Kept m (link m 31) _ (link-Keeps 31 (ground arith))
  switch_op-Kept op_bltz = ends-Kept m m _ (Keeps-refl m)
  switch_op-Kept op_bne = ends-Kept m m _ (Keeps-refl m)
  switch_op-Kept op_div = divide-Kept m _ _ pc
  switch_op-Kept op_divu = ends-Kept m _ pc (divide_unsigned-Keeps m (reg m i.rs) (reg m i.rt))
  switch_op-Kept op_jal = ends-Kept m (link m 31) _ (link-Keeps 31 (ground arith))
  switch_op-Kept op_j = ends-Kept m m _ (Keeps-refl m)
  switch_op-Kept op_jalr = ends-Kept m (link m i.rd) _ (link-Keeps i.rd rd)
  switch_op-Kept op_jr = ends-Kept m m _ (Keeps-refl m)
  switch_op-Kept op_lb = loaded-Kept m i _ pc _ 1 rt
  switch_op-Kept op_lbu = loaded-Kept m i _ pc _ 1 rt
  switch_op-Kept op_lh = load_aligned-Kept m i _ pc _ 2 rt
  switch_op-Kept op_lhu = load_aligned-Kept m i _ pc _ 2 rt
  switch_op-Kept op_lui = put-Kept m i.rt _ pc rt
  switch_op-Kept op_lw = load_aligned-Kept m i _ pc _ 4 rt
  switch_op-Kept op_lwl =
      >>=-Kept m (assert_that (add (reg m i.rs) i.extra % 4 == 0)) _
        (λ u e. loaded-Kept m i _ pc _ 4 rt)
  switch_op-Kept op_lwr =
      >>=-Kept m (assert_that (add (reg m i.rs) i.extra % 4 == 0)) _
        (λ u e. loaded-Kept m i _ pc _ 4 rt)
  switch_op-Kept op_mfhi = put-Kept m i.rd _ pc rd
  switch_op-Kept op_mflo = put-Kept m i.rd _ pc rd
  switch_op-Kept op_mthi =
      ends-Kept m (put m hi_reg (reg m i.rs)) pc
        (put-Keeps m m hi_reg (reg m i.rs) (ground arith) (Keeps-refl m))
  switch_op-Kept op_mtlo =
      ends-Kept m (put m lo_reg (reg m i.rs)) pc
        (put-Keeps m m lo_reg (reg m i.rs) (ground arith) (Keeps-refl m))
  switch_op-Kept op_mult =
      ends-Kept m _ pc (put_double-Keeps m (mult (reg m i.rs) (reg m i.rt) true))
  switch_op-Kept op_multu =
      ends-Kept m _ pc (put_double-Keeps m (mult (reg m i.rs) (reg m i.rt) false))
  switch_op-Kept op_nor = put-Kept m i.rd _ pc rd
  switch_op-Kept op_or = put-Kept m i.rd _ pc rd
  switch_op-Kept op_ori = put-Kept m i.rt _ pc rt
  switch_op-Kept op_sb = store_to-Kept m m _ _ _ pc (Keeps-refl m)
  switch_op-Kept op_sh = store_to-Kept m m _ _ _ pc (Keeps-refl m)
  switch_op-Kept op_sll = put-Kept m i.rd _ pc rd
  switch_op-Kept op_sllv = put-Kept m i.rd _ pc rd
  switch_op-Kept op_slt = put-Kept m i.rd _ pc rd
  switch_op-Kept op_slti = put-Kept m i.rt _ pc rt
  switch_op-Kept op_sltiu = put-Kept m i.rt _ pc rt
  switch_op-Kept op_sltu = put-Kept m i.rd _ pc rd
  switch_op-Kept op_sra = put-Kept m i.rd _ pc rd
  switch_op-Kept op_srav = put-Kept m i.rd _ pc rd
  switch_op-Kept op_srl = put-Kept m i.rd _ pc rd
  switch_op-Kept op_srlv = put-Kept m i.rd _ pc rd
  switch_op-Kept op_sub = checked-Kept m _ i.rd _ pc rd
  switch_op-Kept op_subu = put-Kept m i.rd _ pc rd
  switch_op-Kept op_sw = store_to-Kept m m _ _ _ pc (Keeps-refl m)
  switch_op-Kept op_swl =
      >>=-Kept m (assert_that (add (reg m i.rs) i.extra % 4 == 0)) _
        (λ u e. store_word-Kept m _ _ pc)
  switch_op-Kept op_swr =
      >>=-Kept m (assert_that (add (reg m i.rs) i.extra % 4 == 0)) _
        (λ u e. store_word-Kept m _ _ pc)
  switch_op-Kept op_syscall = raises-Kept m _ 0
  switch_op-Kept op_xor = put-Kept m i.rd _ pc rd
  switch_op-Kept op_xori = put-Kept m i.rt _ pc rt
  switch_op-Kept op_res = raises-Kept m _ 0
  switch_op-Kept op_unimp = raises-Kept m _ 0
  switch_op-Kept op_rfe = none-Kept m
