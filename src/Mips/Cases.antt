-- ===== src/Mips/Cases.antt =====
-- code/machine/mipssim.cc: DelayedLoad, and what the cases of OneInstruction share.
use Prim.Native.Nat.{bit_and, bit_or}
use nachos_system_calls.Prelude.{
  ℕ, ◌*◌, ◌/◌, ◌%◌, Bool, not, ◌&&◌, Option, none, some, get_or, set, ◌>>=◌, ◌==◌, if◌then◌else◌,
}
use nachos_system_calls.Machine.{
  ExceptionType, overflow_exception, address_error_exception, Machine, Access, trap, value,
  read_mem, write_mem,
}
use nachos_system_calls.Mips.{Instruction}
use nachos_system_calls.Mips.Words.{add, shift_left, shift_right, quotient, remainder}

-- `registers[i]` and `registers[i] = v`. The indices are five bits of an instruction, one of the
-- constants below, or LoadReg, which holds one of those: all are below 40.
abbrev pub reg : Machine → ℕ → ℕ
reg m i = get_or m.registers i 0

abbrev pub put : Machine → ℕ → ℕ → Machine
put m i v = record m { registers = set m.registers i v }

abbrev pub hi_reg : ℕ
hi_reg = 32

abbrev pub lo_reg : ℕ
lo_reg = 33

abbrev pub load_reg : ℕ
load_reg = 37

abbrev pub load_value_reg : ℕ
load_value_reg = 38

abbrev pub bad_v_addr_reg : ℕ
bad_v_addr_reg = 39

-- DelayedLoad.
unfoldable pub delayed_load : Machine → ℕ → ℕ → Machine
delayed_load m next_reg next_value =
    let m₁ = put m (reg m load_reg) (reg m load_value_reg) in
    let m₂ = put m₁ load_reg next_reg in let m₃ = put m₂ load_value_reg next_value in put m₃ 0 0

-- How the switch leaves an instruction: at its end, with the delayed load and the next program
-- counter, or by a `return` from an exception. `none` as a whole is a failed assertion, or the
-- division that has no result.
pub data Switched : Type 0 where
  falls : Machine → ℕ → ℕ → ℕ → Switched
  raises : ExceptionType → ℕ → Machine → Switched

-- The cases that load nothing.
unfoldable pub ends : Machine → ℕ → Option Switched
ends m pc = some (falls m 0 0 pc)

-- The target of a branch.
unfoldable pub branch : Instruction → Machine → Bool → ℕ → Option Switched
unfolding ends
branch i m taken pc = ends m (if taken then add (reg m 35) (shift_left i.extra 2) else pc)

-- A sum or a difference behind its test for overflow.
unfoldable pub checked : Bool → Machine → ℕ → ℕ → ℕ → Option Switched
unfolding ends
checked overflow m i v pc =
    if overflow then some (raises overflow_exception 0 m) else ends (put m i v) pc

-- `registers[i] = test`.
unfoldable pub set_if : Bool → Machine → ℕ → ℕ → Option Switched
unfolding ends
set_if test m i pc = ends (put m i (if test then 1 else 0)) pc

-- A load of `size` bytes at `addr`: what is kept of the value is `keep`.
unfoldable pub loaded : Instruction → (ℕ → ℕ) → ℕ → ℕ → Machine × Access → Switched
loaded i keep pc addr (m, trap e) = raises e addr m
loaded i keep pc addr (m, value v) = falls m i.rt (keep v) pc

unfoldable pub load_from : Machine → Instruction → ℕ → ℕ → (ℕ → ℕ) → ℕ → Option Switched
unfolding loaded
load_from m i addr size keep pc = read_mem m addr size >>= λ r. some (loaded i keep pc addr r)

-- A load behind the test of its alignment.
unfoldable pub load_aligned : Machine → Instruction → ℕ → ℕ → (ℕ → ℕ) → ℕ → Option Switched
unfolding load_from
load_aligned m i addr size keep pc =
    if addr % size == 0
    then load_from m i addr size keep pc
    else some (raises address_error_exception addr m)

unfoldable pub stored : ℕ → ℕ → Machine × Access → Switched
stored pc addr (m, trap e) = raises e addr m
stored pc addr (m, value v) = falls m 0 0 pc

unfoldable pub store_to : Machine → ℕ → ℕ → ℕ → ℕ → Option Switched
unfolding stored
store_to m addr size v pc = write_mem m addr size v >>= λ r. some (stored pc addr r)

-- LB and LBU, LH and LHU.
unfoldable pub keep_byte : Bool → ℕ → ℕ
keep_byte signed v =
    if not (bit_and v 0x80 == 0) && signed then bit_or v 0xffffff00 else bit_and v 0xff

unfoldable pub keep_half : Bool → ℕ → ℕ
keep_half signed v =
    if not (bit_and v 0x8000 == 0) && signed then bit_or v 0xffff0000 else bit_and v 0xffff

-- What LWL and LWR change: the register as the load in flight will leave it.
unfoldable pub in_flight : Machine → ℕ → ℕ
in_flight m rt = if reg m load_reg == rt then reg m load_value_reg else reg m rt

unfoldable pub merge_left : ℕ → ℕ → ℕ → ℕ
merge_left k old v =
    if k == 0
    then v
    else (if k == 1
        then bit_or (bit_and old 0xff) (shift_left v 8)
        else (if k == 2
            then bit_or (bit_and old 0xffff) (shift_left v 16)
            else bit_or (bit_and old 0xffffff) (shift_left v 24)))

unfoldable pub merge_right : ℕ → ℕ → ℕ → ℕ
merge_right k old v =
    if k == 0
    then bit_or (bit_and old 0xffffff00) (bit_and (shift_right v 24) 0xff)
    else (if k == 1
        then bit_or (bit_and old 0xffff0000) (bit_and (shift_right v 16) 0xffff)
        else (if k == 2
            then bit_or (bit_and old 0xff000000) (bit_and (shift_right v 8) 0xffffff)
            else v))

-- SWL and SWR put these words in place of the one in memory.
unfoldable pub store_left : ℕ → ℕ → ℕ → ℕ
store_left k r v =
    if k == 0
    then r
    else (if k == 1
        then bit_or (bit_and v 0xff000000) (bit_and (shift_right r 8) 0xffffff)
        else (if k == 2
            then bit_or (bit_and v 0xffff0000) (bit_and (shift_right r 16) 0xffff)
            else bit_or (bit_and v 0xffffff00) (bit_and (shift_right r 24) 0xff)))

unfoldable pub store_right : ℕ → ℕ → ℕ → ℕ
store_right k r v =
    if k == 0
    then bit_or (bit_and v 0xffffff) (shift_left r 24)
    else (if k == 1
        then bit_or (bit_and v 0xffff) (shift_left r 16)
        else (if k == 2 then bit_or (bit_and v 0xff) (shift_left r 8) else r))

-- `tmp & ~0x3`, the word that is changed, and the write of the new one.
unfoldable pub store_merged : ℕ → ℕ → (ℕ → ℕ) → Machine × Access → Option Switched
unfolding store_to
store_merged pc addr merge (m, trap e) = some (raises e addr m)
store_merged pc addr merge (m, value v) = store_to m addr 4 (merge v) pc

unfoldable pub store_word : Machine → ℕ → (ℕ → ℕ) → ℕ → Option Switched
unfolding store_merged
store_word m addr merge pc = read_mem m (addr / 4 * 4) 4 >>= store_merged pc (addr / 4 * 4) merge

-- HI and LO.
unfoldable pub put_double : Machine → ℕ × ℕ → Machine
put_double m (hi, lo) = put (put m hi_reg hi) lo_reg lo

-- The division of the least int by -1 has no result.
unfoldable pub divide : Machine → ℕ → ℕ → ℕ → Option Switched
unfolding ends
divide m a b pc =
    if b == 0
    then ends (put (put m lo_reg 0) hi_reg 0) pc
    else (if (a == 0x80000000) && (b == 0xffffffff)
        then none
        else ends (put (put m lo_reg (quotient a b)) hi_reg (remainder a b)) pc)

unfoldable pub divide_unsigned : Machine → ℕ → ℕ → Machine
divide_unsigned m a b =
    if b == 0 then put (put m lo_reg 0) hi_reg 0 else put (put m lo_reg (a / b)) hi_reg (a % b)
