-- ===== src/Mips/Tests.antt =====
-- Runs of code/machine/mipssim.cc, and the witnesses.
use nachos_system_calls.Prelude.{
  ℕ, ◌≡◌, refl, true, false, none, some, [], ◌∷◌, replicate, set, pos, arith, ◌+ℤ◌, ◌*ℤ◌, neg,
}
use nachos_system_calls.Machine.{
  overflow_exception, TranslationEntry, Machine, signed, read_mem, translate,
}
use nachos_system_calls.Machine
use nachos_system_calls.Mips.{op_add, op_addi, op_sub, op_addiu, Instruction, decode}
use nachos_system_calls.Mips.Words.{signs_differ}
use nachos_system_calls.Mips.Cases.{delayed_load, checked}
use nachos_system_calls.Mips.Mult.{mult}
use nachos_system_calls.Mips.Mult.Product.{double, product, mult-product}
use nachos_system_calls.Mips.Execute.{switch_op, retired, trapped, one_instruction}
use nachos_system_calls.Mips.Execute.Overflow.{int_result, overflow_lem}
use nachos_system_calls.Mips.Registers.Step.{Stepped, one_instruction-Stepped}

-- `addiu $2, $1, -3` and `add $3, $1, $2`.
decode_run :
    decode 0x2422fffd
    ≡ record { value = 0x2422fffd; op_code = op_addiu; rs = 1; rt = 2; rd = 31; extra = 0xfffffffd }
unfolding decode
decode_run = refl

mult-product_example :
    (double (mult 0xffffffff 7 true) ≡ product (signed 0xffffffff *ℤ signed 7))
    × (double (mult 0xffffffff 7 false) ≡ product (pos 30064771065))
mult-product_example = mult-product 0xffffffff 7 (ground arith) (ground arith)

abbrev entry : TranslationEntry
entry = record {
  virtual_page = pos 0;
  physical_page = pos 0;
  valid = true;
  read_only = false;
  use_bit = false;
  dirty = false;
}

-- `add $3, $1, $2` at the program counter 8, with a load into the register 4 in flight.
abbrev code : ℕ → ℕ
code a = Machine.update (Machine.update (Machine.update (λ b. 0) 8 0x20) 9 0x18) 10 0x22 a

abbrev at_add : ℕ → Machine
at_add b = record {
  registers =
      set (set (set (set (set (set (replicate 40 0) 1 0x7fffffff) 2 b) 34 8) 35 12) 37 4) 38 9;
  main_memory = code;
  tlb = none;
  page_table = some (entry ∷ []);
  page_table_size = 1;
}

abbrev add_instruction : Instruction
add_instruction = record { value = 0x221820; op_code = op_add; rs = 1; rt = 2; rd = 3; extra = 0 }

overflow_lem_example :
    (switch_op op_add add_instruction (at_add 1) 16
      ≡ int_result (at_add 1) 3 (signed 0x7fffffff +ℤ signed 1) 16)
    × (switch_op op_addi add_instruction (at_add 1) 16
        ≡ int_result (at_add 1) 2 (signed 0x7fffffff +ℤ signed 0) 16)
    × (switch_op op_sub add_instruction (at_add 1) 16
        ≡ int_result (at_add 1) 3 (signed 0x7fffffff +ℤ neg (signed 1)) 16)
overflow_lem_example =
    overflow_lem add_instruction (at_add 1) 16 (ground arith) (ground arith) (ground arith)

abbrev fetched_add : ℕ → Machine
fetched_add b = record (at_add b) { page_table = some (record entry { use_bit = true } ∷ []) }

-- The sum is in the register 3, the load in the register 4.
abbrev after_add : Machine
after_add = record (fetched_add 0) {
  registers =
      set (set (set (set (set (set (replicate 40 0) 1 0x7fffffff) 3 0x7fffffff) 4 9) 34 12) 35 16)
        36 8;
}

add_run : one_instruction (at_add 0) ≡ some (retired after_add)
unfolding one_instruction read_mem translate decode checked signs_differ delayed_load
add_run = refl

-- The overflow.
abbrev after_trap : Machine
after_trap = record (fetched_add 1) {
  registers = set (set (set (set (set (replicate 40 0) 1 0x7fffffff) 2 1) 4 9) 34 8) 35 12;
}

trap_run : one_instruction (at_add 1) ≡ some (trapped overflow_exception after_trap)
unfolding one_instruction read_mem translate decode checked signs_differ delayed_load
trap_run = refl

one_instruction-Stepped_example : Stepped (at_add 0) (retired after_add)
one_instruction-Stepped_example =
    one_instruction-Stepped (at_add 0) (retired after_add)
      record { forty = refl; load_lt = ground arith; reg_zero = refl } add_run
