-- ===== src/FileHeader/Tests.antt =====
-- Runs of code/filesys/filehdr.cc, and the witness.
use nachos_system_calls.Prelude.{◌≡◌, refl, true, none, some, [], ◌∷◌, replicate, pos, arith}
use nachos_system_calls.Bitmap.{BitMap, find, num_clear, test, mark}
use nachos_system_calls.Bitmap.View.{IsValid}
use nachos_system_calls.FileHeader.{FileHeader, allocate, byte_to_sector}
use nachos_system_calls.FileHeader.Allocate.{Allocates, allocate-Allocates}

-- The sectors 0 and 1, which the file system keeps for itself, are marked.
abbrev free_map : BitMap
free_map = record { num_bits = 64; num_words = 2; map = 3 ∷ 0 ∷ [] }

free_map-IsValid : IsValid free_map
free_map-IsValid = record { words = refl; storage = refl; small = omega arith }

abbrev fresh : FileHeader
fresh = record { num_bytes = 0; num_sectors = 0; data_sectors = replicate 30 (pos 0) }

abbrev small_file : FileHeader
small_file = record {
  num_bytes = 300;
  num_sectors = 3;
  data_sectors = pos 2 ∷ pos 3 ∷ pos 4 ∷ replicate 27 (pos 0);
}

allocate_run :
    allocate free_map 300 fresh ≡ some (true, small_file, record free_map { map = 31 ∷ 0 ∷ [] })
unfolding allocate num_clear find test mark
allocate_run = refl

byte_to_sector_run : byte_to_sector small_file 299 ≡ some (pos 4)
unfolding byte_to_sector
byte_to_sector_run = refl

-- A file of 31 sectors: Allocate writes behind the array.
overrun_run : allocate free_map 3841 fresh ≡ none
unfolding allocate num_clear find test mark
overrun_run = refl

allocate-Allocates_example : Allocates free_map 300 3 fresh
allocate-Allocates_example =
    allocate-Allocates free_map 300 fresh free_map-IsValid refl (ground arith)
