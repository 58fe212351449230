-- ===== src/AddrSpace.antt =====
-- code/userprog/addrspace.cc: the address space of a program. The executable is the list of its
-- bytes, and its header is given as a record; the sizes and addresses in it are not negative.
-- `none` is a failed assertion or an access outside the page table or the memory. `addrLock`, which
-- the constructor holds from its first line to its last, is left out.
mod Tests
pub mod Frames
use nachos_system_calls.Prelude.{
  ℕ, zero, suc, ◌+◌, ◌-◌, ◌*◌, ◌/◌, ◌%◌, Bool, true, false, ◌&&◌, Option, none, some, List, [], ◌∷◌,
  get_elem?, replicate, ℤ, pos, negsuc, ◌>>=◌, ◌>>◌, assert_that, ◌==◌, ltb, leb, if◌then◌else◌,
}
use nachos_system_calls.Bitmap.{BitMap, div_round_up, find, clear, num_clear}
use nachos_system_calls.Machine.{
  page_size, memory_size, TranslationEntry, to_unsigned, Machine, write_register,
}

-- NOFFMAGIC and UserStackSize.
abbrev noff_magic_number : ℕ
noff_magic_number = 12246957

abbrev user_stack_size : ℕ
user_stack_size = 1024

pub record Segment : Type 0 where
  pub virtual_addr : ℕ
  pub in_file_addr : ℕ
  pub size : ℕ

pub record NoffHeader : Type 0 where
  pub noff_magic : ℕ
  pub code : Segment
  pub init_data : Segment
  pub uninit_data : Segment

pub record AddrSpace : Type 0 where
  pub page_table : List TranslationEntry
  pub num_pages : ℕ

-- `bzero` of a frame.
zero_frame : (ℕ → ℕ) → ℕ → ℕ → ℕ
zero_frame mem frame b = if b / page_size == frame then 0 else mem b

pub new_entry : ℕ → ℕ → TranslationEntry
new_entry i frame = record {
  virtual_page = pos i;
  physical_page = pos frame;
  valid = true;
  read_only = false;
  use_bit = false;
  dirty = false;
}

-- The loop over the pages, `k` pages from page `i` on.
pub record Pages : Type 0 where
  pub table : List TranslationEntry
  pub frames : BitMap
  pub memory : ℕ → ℕ

pub alloc_pages : ℕ → ℕ → BitMap → (ℕ → ℕ) → Option Pages
unfolding new_entry zero_frame
alloc_pages zero i bm mem = some (record { table = []; frames = bm; memory = mem })
alloc_pages (suc k) i bm mem = find bm >>= λ (bm', frame). elim frame [
  | pos f ↦ alloc_pages k (i + 1) bm' (zero_frame mem f) >>= λ r.
      some (record r { table = new_entry i f ∷ r.table })
  | negsuc n ↦ none
]

-- The frame that a page of the program is in.
frame_of : List TranslationEntry → ℕ → Option ℕ
frame_of table page = get_elem? table page >>= λ e. some (to_unsigned e.physical_page)

-- `executable->ReadAt(&mainMemory[a], n, at)`: the bytes that the file has.
read_into : List ℕ → (ℕ → ℕ) → ℕ → ℕ → ℕ → Option (ℕ → ℕ)
read_into file mem a n at =
    assert_that (leb (a + n) memory_size)
    >> some (λ b.
      if leb a b && ltb b (a + n)
      then (elim (get_elem? file (at + (b - a))) [ none ↦ mem b | some c ↦ c ])
      else mem b)

-- The pages in the middle of a segment: `k` of them from `page` on.
load_middle : List TranslationEntry → List ℕ → ℕ → ℕ → ℕ → (ℕ → ℕ) → Option (ℕ → ℕ)
unfolding frame_of read_into
load_middle table file zero page at mem = some mem
load_middle table file (suc k) page at mem = do
  frame ← frame_of table page
  mem' ← read_into file mem (frame * page_size) page_size at
  load_middle table file k (page + 1) (at + page_size) mem'

load_last : List TranslationEntry → List ℕ → ℕ → ℕ → ℕ → (ℕ → ℕ) → Option (ℕ → ℕ)
unfolding frame_of read_into
load_last table file zero page at mem = some mem
load_last table file (suc n) page at mem = do
  frame ← frame_of table page
  read_into file mem (frame * page_size) (suc n) at

-- A segment, its first page, its last and those between being read in this order.
load_parts : List TranslationEntry → List ℕ → Segment → ℕ → ℕ → ℕ → (ℕ → ℕ) → Option (ℕ → ℕ)
unfolding frame_of read_into load_middle load_last
load_parts table file s first_size last_page last_size mem = do
  let first_page = s.virtual_addr / page_size
  let rest = s.in_file_addr + first_size
  frame ← frame_of table first_page
  m₁ ← read_into file mem (frame * page_size + s.virtual_addr % page_size) first_size s.in_file_addr
  m₂ ← load_last table file last_size last_page (rest + (last_page - first_page - 1) * page_size) m₁
  load_middle table file (last_page - (first_page + 1)) (first_page + 1) rest m₂

pub load_segment : List TranslationEntry → List ℕ → Segment → (ℕ → ℕ) → Option (ℕ → ℕ)
unfolding load_parts
load_segment table file s mem =
    let end = s.virtual_addr + s.size in
    let room = page_size - s.virtual_addr % page_size in
    if s.size == 0
    then some mem
    else (if ltb room s.size
        then load_parts table file s room (end / page_size) (end % page_size) mem
        else load_parts table file s s.size (s.virtual_addr / page_size + 1) 0 mem)

-- The constructor: the address space, the map of the frames that are left, and the memory.
pub new_addr_space : NoffHeader → List ℕ → BitMap → (ℕ → ℕ) → Option (AddrSpace × BitMap × (ℕ → ℕ))
unfolding alloc_pages load_segment
new_addr_space h file bm mem = do
  assert_that (h.noff_magic == noff_magic_number)
  let size = h.code.size + h.init_data.size + h.uninit_data.size + user_stack_size
  let pages = div_round_up size page_size
  free ← num_clear bm
  assert_that (leb pages free)
  r ← alloc_pages pages 0 bm mem
  m₁ ← load_segment r.table file h.code r.memory
  m₂ ← load_segment r.table file h.init_data m₁
  some (record { page_table = r.table; num_pages = pages }, r.frames, m₂)

-- The destructor: the loop over the page table.
pub free_pages : List TranslationEntry → BitMap → Option BitMap
free_pages [] bm = some bm
free_pages (e ∷ es) bm = clear bm e.physical_page >>= free_pages es

-- InitRegisters: all registers are cleared, then the counters and the stack are set.
clear_registers : ℕ → Machine → Option Machine
clear_registers zero m = some m
clear_registers (suc i) m = clear_registers i m >>= λ m'. write_register m' i 0

pub init_registers : AddrSpace → Machine → Option Machine
unfolding clear_registers
init_registers s m = do
  m₁ ← clear_registers 40 m
  m₂ ← write_register m₁ 34 0
  m₃ ← write_register m₂ 35 4
  write_register m₃ 29 (s.num_pages * page_size - 16)
