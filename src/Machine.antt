-- ===== src/Machine.antt =====
-- code/machine/translate.cc and machine.cc: the memory and the registers of the simulated machine.
-- The host is little-endian with a signed char, as HOST_i386 is, so WordToHost and its kin are the
-- identity. A word is its bit pattern, a number below 2 ^ 32.
pub mod Pages
pub mod Translate
pub mod Memory
pub mod Registers
mod Tests
use nachos_system_calls.Prelude.{
  ℕ, zero, suc, ◌+◌, ◌-◌, ◌*◌, ◌/◌, ◌%◌, ◌^◌, Bool, true, false, not, ◌&&◌, ◌||◌, Option, none,
  some, List, [], ◌∷◌, get_elem?, set, ℤ, pos, negsuc, ◌>>=◌, ◌>>◌, assert_that, ◌==◌, ltb, leb,
  if◌then◌else◌,
}

-- PageSize, NumPhysPages and MemorySize.
abbrev pub page_size : ℕ
page_size = 128

abbrev pub num_phys_pages : ℕ
num_phys_pages = 128

abbrev pub memory_size : ℕ
memory_size = num_phys_pages * page_size

pub data ExceptionType : Type 0 where
  no_exception syscall_exception page_fault_exception read_only_exception : ExceptionType
  bus_error_exception address_error_exception overflow_exception : ExceptionType
  illegal_instr_exception num_exception_types : ExceptionType

pub record TranslationEntry : Type 0 where
  pub virtual_page : ℤ
  pub physical_page : ℤ
  pub valid : Bool
  pub read_only : Bool
  pub use_bit : Bool
  pub dirty : Bool

-- The conversion of an int to unsigned.
abbrev pub to_unsigned : ℤ → ℕ
to_unsigned (pos n) = n % 2 ^ 32
to_unsigned (negsuc n) = 2 ^ 32 - 1 - n % 2 ^ 32

-- The int that a word stands for.
abbrev pub signed : ℕ → ℤ
signed n = if ltb n (2 ^ 31) then pos n else negsuc (2 ^ 32 - 1 - n)

-- A pointer that is NULL is `none`. `main_memory` gives the byte at each address; only addresses
-- below MemorySize are used.
pub record Machine : Type 0 where
  pub registers : List ℕ
  pub main_memory : ℕ → ℕ
  pub tlb : Option (List TranslationEntry)
  pub page_table : Option (List TranslationEntry)
  pub page_table_size : ℕ

-- ReadRegister and WriteRegister, behind their assertions.
unfoldable pub read_register : Machine → ℕ → Option ℕ
read_register m num = get_elem? m.registers num

unfoldable pub write_register : Machine → ℕ → ℕ → Option Machine
write_register m num value =
    get_elem? m.registers num >>= λ _. some (record m { registers = set m.registers num value })

-- Where an entry was found: its table, and its index there.
pub data Place : Type 0 where
  in_tlb in_page_table : Place

pub data Lookup : Type 0 where
  miss : ExceptionType → Lookup
  hit : Place → List TranslationEntry → ℕ → TranslationEntry → Lookup

-- The loop over the TLB.
pub find_tlb : List TranslationEntry → ℕ → Option (ℕ × TranslationEntry)
find_tlb [] vpn = none
find_tlb (e ∷ es) vpn =
    let rest = find_tlb es vpn >>= λ (i, f). some (suc i, f) in
    if e.valid && (to_unsigned e.virtual_page == vpn) then some (0, e) else rest

pub lookup_tlb : List TranslationEntry → ℕ → Lookup
lookup_tlb es vpn = elim (find_tlb es vpn) [
  | none ↦ miss page_fault_exception
  | some (i, e) ↦ hit in_tlb es i e
]

lookup_page_table : List TranslationEntry → ℕ → ℕ → Option Lookup
lookup_page_table es size vpn =
    if leb size vpn
    then some (miss address_error_exception)
    else (get_elem? es vpn >>= λ e.
        some (if e.valid then hit in_page_table es vpn e else miss page_fault_exception))

-- Exactly one of the two tables is there, by the assertions.
pub lookup_entry :
    Option (List TranslationEntry) → Option (List TranslationEntry) → ℕ → ℕ → Option Lookup
unfolding lookup_tlb lookup_page_table
lookup_entry none none size vpn = none
lookup_entry (some t) (some es) size vpn = none
lookup_entry (some t) none size vpn = some (lookup_tlb t vpn)
lookup_entry none (some es) size vpn = lookup_page_table es size vpn

-- `entry->use = TRUE; if (writing) entry->dirty = TRUE;`
pub touch : Bool → TranslationEntry → TranslationEntry
touch writing e = record e { use_bit = true; dirty = if writing then true else e.dirty }

pub store_entry : Machine → Place → List TranslationEntry → ℕ → TranslationEntry → Machine
store_entry m in_tlb es i e = record m { tlb = some (set es i e) }
store_entry m in_page_table es i e = record m { page_table = some (set es i e) }

-- What a translation yields: the exception to raise, or the physical address.
pub data Translated : Type 0 where
  raised : ExceptionType → Translated
  address : ℕ → Translated

use_entry : Machine → ℕ → ℕ → Bool → Lookup → Option (Machine × Translated)
unfolding touch store_entry
use_entry m offset size writing (miss e) = some (m, raised e)
use_entry m offset size writing (hit place es i e) =
    if e.read_only && writing
    then some (m, raised read_only_exception)
    else (let frame = to_unsigned e.physical_page in
        if leb num_phys_pages frame
        then some (m, raised bus_error_exception)
        else (assert_that (leb (frame * page_size + offset + size) memory_size)
            >> some
                (store_entry m place es i (touch writing e), address (frame * page_size + offset))))

-- Translate.
unfoldable pub translate : Machine → ℕ → ℕ → Bool → Option (Machine × Translated)
unfolding use_entry lookup_entry
translate m virt_addr size writing =
    if ((size == 4) && not (virt_addr % 4 == 0)) || ((size == 2) && not (virt_addr % 2 == 0))
    then some (m, raised address_error_exception)
    else (lookup_entry m.tlb m.page_table m.page_table_size (virt_addr / page_size)
        >>= use_entry m (virt_addr % page_size) size writing)

-- The value of a signed char as a word.
abbrev pub sign_extend : ℕ → ℕ
sign_extend b = if ltb b 128 then b else b + (2 ^ 32 - 256)

pub load : (ℕ → ℕ) → ℕ → ℕ → Option ℕ
load mem a size =
    if size == 1
    then some (sign_extend (mem a))
    else (if size == 2
        then some (mem a + 256 * mem (a + 1))
        else (if size == 4
            then some (mem a + 256 * mem (a + 1) + 65536 * mem (a + 2) + 16777216 * mem (a + 3))
            else none))

abbrev pub update : (ℕ → ℕ) → ℕ → ℕ → ℕ → ℕ
update mem a v b = if a == b then v else mem b

pub store : (ℕ → ℕ) → ℕ → ℕ → ℕ → Option (ℕ → ℕ)
store mem a size value =
    if size == 1
    then some (update mem a (value % 256))
    else (if size == 2
        then some (update (update mem a (value % 256)) (a + 1) (value / 256 % 256))
        else (if size == 4
            then some (
                update
                  (update (update (update mem a (value % 256)) (a + 1) (value / 256 % 256)) (a + 2)
                    (value / 65536 % 256))
                  (a + 3) (value / 16777216 % 256))
            else none))

-- What ReadMem and WriteMem come to: the exception that they raise, or the value.
pub data Access : Type 0 where
  trap : ExceptionType → Access
  value : ℕ → Access

pub finish_read : ℕ → Machine × Translated → Option (Machine × Access)
unfolding load
finish_read size (m, raised e) = some (m, trap e)
finish_read size (m, address a) = load m.main_memory a size >>= λ v. some (m, value v)

-- ReadMem. The handler of an exception, which the source calls before it returns FALSE, is
-- modelled with the system calls.
unfoldable pub read_mem : Machine → ℕ → ℕ → Option (Machine × Access)
unfolding finish_read
read_mem m addr size = translate m addr size false >>= finish_read size

pub finish_write : ℕ → ℕ → Machine × Translated → Option (Machine × Access)
unfolding store
finish_write size v (m, raised e) = some (m, trap e)
finish_write size v (m, address a) =
    store m.main_memory a size v >>= λ mem. some (record m { main_memory = mem }, value v)

pub write_mem : Machine → ℕ → ℕ → ℕ → Option (Machine × Access)
unfolding finish_write
write_mem m addr size v = translate m addr size true >>= finish_write size v
