-- ===== src/FileHeader.antt =====
-- code/filesys/filehdr.cc: the header of a file on the simulated disk.
pub mod Marks
pub mod Swap
pub mod Allocate
mod Tests
use nachos_system_calls.Prelude.{
  ℕ, zero, suc, ◌+◌, ◌/◌, Bool, true, false, Option, none, some, List, get_elem?, set, ℤ, ◌>>=◌,
  ◌>>◌, assert_that, ltb, if◌then◌else◌,
}
use nachos_system_calls.Bitmap.{BitMap, div_round_up, find, num_clear, test, clear}
use nachos_system_calls.Disk.{sector_size}

-- NumDirect, for an int of four bytes.
abbrev pub num_direct : ℕ
num_direct = 30

-- `data_sectors` has NumDirect elements.
pub record FileHeader : Type 0 where
  pub num_bytes : ℕ
  pub num_sectors : ℕ
  pub data_sectors : List ℤ

-- The loop of Allocate, `k` sectors from sector `i` on. None is a write outside the array.
pub allocate_loop : ℕ → ℕ → List ℤ → BitMap → Option (List ℤ × BitMap)
allocate_loop zero i sectors free_map = some (sectors, free_map)
allocate_loop (suc k) i sectors free_map = do
  (free_map', sector) ← find free_map
  old ← get_elem? sectors i
  allocate_loop k (i + 1) (set sectors i sector) free_map'

unfoldable pub allocate : BitMap → ℕ → FileHeader → Option (Bool × FileHeader × BitMap)
unfolding allocate_loop
allocate free_map file_size h =
    let n = div_round_up file_size sector_size in
    let h₁ = record h { num_bytes = file_size; num_sectors = n } in
    num_clear free_map >>= λ free.
    if ltb free n
    then some (false, h₁, free_map)
    else (allocate_loop n 0 h₁.data_sectors free_map >>= λ (sectors, free_map').
        some (true, record h₁ { data_sectors = sectors }, free_map'))

-- The loop of Deallocate.
pub deallocate_loop : ℕ → ℕ → List ℤ → BitMap → Option BitMap
deallocate_loop zero i sectors free_map = some free_map
deallocate_loop (suc k) i sectors free_map = do
  sector ← get_elem? sectors i
  marked ← test free_map sector
  assert_that marked
  free_map' ← clear free_map sector
  deallocate_loop k (i + 1) sectors free_map'

unfoldable pub deallocate : FileHeader → BitMap → Option BitMap
unfolding deallocate_loop
deallocate h free_map = deallocate_loop h.num_sectors 0 h.data_sectors free_map

-- ByteToSector, and FileLength.
unfoldable pub byte_to_sector : FileHeader → ℕ → Option ℤ
byte_to_sector h offset = get_elem? h.data_sectors (offset / sector_size)

abbrev pub file_length : FileHeader → ℕ
file_length h = h.num_bytes
