-- ===== src/Mips.antt =====
-- code/machine/mipssim.h and the decoding in code/machine/mipssim.cc: the instructions of the MIPS
-- R2000. A word is its bit pattern, a number below 2 ^ 32.
pub mod Words
pub mod Mult
pub mod Cases
pub mod Execute
pub mod Registers
mod Tests
use Prim.Native.Nat.{bit_and, bit_or}
use nachos_system_calls.Prelude.{
  ℕ, ◌*◌, ◌/◌, ◌%◌, ◌^◌, ◌-◌, ◌+◌, Bool, true, false, List, [], ◌∷◌, get_or, ◌==◌, if◌then◌else◌,
}

-- The values of `opCode`. The source numbers them; here they are names.
pub data OpCode : Type 0 where
  op_add op_addi op_addiu op_addu op_and op_andi op_beq op_bgez op_bgezal op_bgtz op_blez : OpCode
  op_bltz op_bltzal op_bne op_div op_divu op_j op_jal op_jalr op_jr op_lb op_lbu op_lh : OpCode
  op_lhu op_lui op_lw op_lwl op_lwr op_mfhi op_mflo op_mthi op_mtlo op_mult op_multu : OpCode
  op_nor op_or op_ori op_rfe op_sb op_sh op_sll op_sllv op_slt op_slti op_sltiu op_sltu : OpCode
  op_sra op_srav op_srl op_srlv op_sub op_subu op_sw op_swl op_swr op_xor op_xori : OpCode
  op_syscall op_unimp op_res : OpCode

pub data Format : Type 0 where
  i_format j_format r_format : Format

-- The entries of opTable: an operation, or what is decoded further.
pub data OpInfo : Type 0 where
  special bcond : OpInfo
  code : OpCode → OpInfo

abbrev pub op_table : List (OpInfo × Format)
op_table =
    (special, r_format)
    ∷ (bcond, i_format)
    ∷ (code op_j, j_format)
    ∷ (code op_jal, j_format)
    ∷ (code op_beq, i_format)
    ∷ (code op_bne, i_format)
    ∷ (code op_blez, i_format)
    ∷ (code op_bgtz, i_format)
    ∷ (code op_addi, i_format)
    ∷ (code op_addiu, i_format)
    ∷ (code op_slti, i_format)
    ∷ (code op_sltiu, i_format)
    ∷ (code op_andi, i_format)
    ∷ (code op_ori, i_format)
    ∷ (code op_xori, i_format)
    ∷ (code op_lui, i_format)
    ∷ (code op_unimp, i_format)
    ∷ (code op_unimp, i_format)
    ∷ (code op_unimp, i_format)
    ∷ (code op_unimp, i_format)
    ∷ (code op_res, i_format)
    ∷ (code op_res, i_format)
    ∷ (code op_res, i_format)
    ∷ (code op_res, i_format)
    ∷ (code op_res, i_format)
    ∷ (code op_res, i_format)
    ∷ (code op_res, i_format)
    ∷ (code op_res, i_format)
    ∷ (code op_res, i_format)
    ∷ (code op_res, i_format)
    ∷ (code op_res, i_format)
    ∷ (code op_res, i_format)
    ∷ (code op_lb, i_format)
    ∷ (code op_lh, i_format)
    ∷ (code op_lwl, i_format)
    ∷ (code op_lw, i_format)
    ∷ (code op_lbu, i_format)
    ∷ (code op_lhu, i_format)
    ∷ (code op_lwr, i_format)
    ∷ (code op_res, i_format)
    ∷ (code op_sb, i_format)
    ∷ (code op_sh, i_format)
    ∷ (code op_swl, i_format)
    ∷ (code op_sw, i_format)
    ∷ (code op_res, i_format)
    ∷ (code op_res, i_format)
    ∷ (code op_swr, i_format)
    ∷ (code op_res, i_format)
    ∷ (code op_unimp, i_format)
    ∷ (code op_unimp, i_format)
    ∷ (code op_unimp, i_format)
    ∷ (code op_unimp, i_format)
    ∷ (code op_res, i_format)
    ∷ (code op_res, i_format)
    ∷ (code op_res, i_format)
    ∷ (code op_res, i_format)
    ∷ (code op_unimp, i_format)
    ∷ (code op_unimp, i_format)
    ∷ (code op_unimp, i_format)
    ∷ (code op_unimp, i_format)
    ∷ (code op_res, i_format)
    ∷ (code op_res, i_format)
    ∷ (code op_res, i_format)
    ∷ (code op_res, i_format)
    ∷ []

abbrev pub special_table : List OpCode
special_table =
    op_sll ∷ op_res ∷ op_srl ∷ op_sra ∷ op_sllv ∷ op_res ∷ op_srlv ∷ op_srav ∷ op_jr ∷ op_jalr
    ∷ op_res ∷ op_res ∷ op_syscall ∷ op_unimp ∷ op_res ∷ op_res ∷ op_mfhi ∷ op_mthi ∷ op_mflo
    ∷ op_mtlo ∷ op_res ∷ op_res ∷ op_res ∷ op_res ∷ op_mult ∷ op_multu ∷ op_div ∷ op_divu ∷ op_res
    ∷ op_res ∷ op_res ∷ op_res ∷ op_add ∷ op_addu ∷ op_sub ∷ op_subu ∷ op_and ∷ op_or ∷ op_xor
    ∷ op_nor ∷ op_res ∷ op_res ∷ op_slt ∷ op_sltu ∷ op_res ∷ op_res ∷ op_res ∷ op_res ∷ op_res
    ∷ op_res ∷ op_res ∷ op_res ∷ op_res ∷ op_res ∷ op_res ∷ op_res ∷ op_res ∷ op_res ∷ op_res
    ∷ op_res ∷ op_res ∷ op_res ∷ op_res ∷ op_res ∷ []

-- class Instruction. `extra` is a word.
pub record Instruction : Type 0 where
  pub value : ℕ
  pub op_code : OpCode
  pub rs : ℕ
  pub rt : ℕ
  pub rd : ℕ
  pub extra : ℕ

-- The immediate operand, by the format.
pub extra_of : Format → ℕ → ℕ
extra_of i_format value =
    let extra = bit_and value 0xffff in
    if bit_and extra 0x8000 == 0 then extra else bit_or extra 0xffff0000
extra_of r_format value = bit_and (value / 2 ^ 6) 0x1f
extra_of j_format value = bit_and value 0x3ffffff

bcond_code : ℕ → OpCode
bcond_code i =
    if i == 0
    then op_bltz
    else (if i == 0x10000
        then op_bgez
        else (if i == 0x100000 then op_bltzal else (if i == 0x110000 then op_bgezal else op_unimp)))

pub op_code_of : OpInfo → ℕ → OpCode
unfolding bcond_code
op_code_of (code c) value = c
op_code_of special value = get_or special_table (bit_and value 0x3f) op_res
op_code_of bcond value = bcond_code (bit_and value 0x1f0000)

-- Decode. The two indices are below 64, the length of the tables, so the default is never read.
unfoldable pub decode : ℕ → Instruction
unfolding extra_of op_code_of
decode value =
    let info = get_or op_table (bit_and (value / 2 ^ 26) 0x3f) (code op_res, i_format) in
    record {
      value = value;
      op_code = op_code_of info.0 value;
      rs = bit_and (value / 2 ^ 21) 0x1f;
      rt = bit_and (value / 2 ^ 16) 0x1f;
      rd = bit_and (value / 2 ^ 11) 0x1f;
      extra = extra_of info.1 value;
    }
