-- ===== src/AddrSpace/Tests.antt =====
-- Runs of code/userprog/addrspace.cc, and the witness.
use nachos_system_calls.Prelude.{
  ℕ, ◌+◌, ◌*◌, ◌≡◌, refl, true, false, Option, none, some, [], ◌∷◌, pos,
}
use nachos_system_calls.Machine.{TranslationEntry}
use nachos_system_calls.Prelude.{length, All, arith}
use nachos_system_calls.Bitmap.{BitMap}
use nachos_system_calls.Bitmap.View.{IsValid, bits}
use nachos_system_calls.AddrSpace.Frames.{Allocates, Fresh, alloc_pages-Fresh}
use nachos_system_calls.AddrSpace.{Pages, alloc_pages, Segment, load_segment}

abbrev in_frame : ℕ → ℕ → TranslationEntry
in_frame v f = record {
  virtual_page = pos v;
  physical_page = pos f;
  valid = true;
  read_only = false;
  use_bit = false;
  dirty = false;
}

-- Four bytes that straddle two pages, in the frames 7 and 3.
abbrev straddling : Segment
straddling = record { virtual_addr = 126; in_file_addr = 1; size = 4 }

byte_at : Option (ℕ → ℕ) → ℕ → ℕ
byte_at none b = 256
byte_at (some mem) b = mem b

loaded : Option (ℕ → ℕ)
loaded =
    load_segment (in_frame 0 7 ∷ in_frame 1 3 ∷ []) (9 ∷ 21 ∷ 22 ∷ 23 ∷ 24 ∷ 25 ∷ []) straddling
      (λ b. 0)

first_page_run : byte_at loaded (7 * 128 + 127) ≡ 22
unfolding byte_at loaded load_segment
first_page_run = refl

last_page_run : byte_at loaded (3 * 128 + 1) ≡ 24
unfolding byte_at loaded load_segment
last_page_run = refl

-- Four frames, of which the second is taken.
abbrev one_taken : BitMap
one_taken = record { num_bits = 4; num_words = 1; map = 2 ∷ [] }

alloc_pages-Fresh_example :
    (r : Pages) × (alloc_pages 2 0 one_taken (λ b. 5) ≡ some r)
    × IsValid r.frames
    × (length r.table ≡ 2)
    × Allocates (bits one_taken) 0 r.table (bits r.frames)
    × All (Fresh (bits one_taken) (bits r.frames)) r.table
alloc_pages-Fresh_example =
    alloc_pages-Fresh 2 0 one_taken (λ b. 5)
      (record { words = refl; storage = refl; small = (omega arith, tt) }) (omega arith)
