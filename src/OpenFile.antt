-- ===== src/OpenFile.antt =====
-- code/filesys/openfile.cc: an open file over the sectors of its header. A buffer gives the byte at
-- each offset; what a new one holds is an argument.
pub mod ReadAt
pub mod WriteAt
pub mod Overwrite
pub mod Frame
mod Tests
use nachos_system_calls.Prelude.{
  ℕ, zero, suc, ◌+◌, ◌-◌, ◌*◌, ◌/◌, Bool, true, false, not, ◌&&◌, ◌||◌, Option, none, some, ℤ, pos,
  negsuc, ◌>>=◌, ◌>>◌, assert_that, ◌==◌, ltb, leb, if◌then◌else◌,
}
use nachos_system_calls.Disk.{sector_size, num_sectors, sector_start}
use nachos_system_calls.FileHeader.{FileHeader, byte_to_sector, file_length}

abbrev pub Buffer : Type 0
Buffer = ℕ → ℕ

-- The sector of the disk that a byte of the file is in, as the requests to the disk accept it.
pub sector_of : FileHeader → ℕ → Option ℕ
sector_of h offset = byte_to_sector h offset >>= λ z. elim z [
  | pos s ↦ assert_that (ltb s num_sectors) >> some s
  | negsuc n ↦ none
]

-- `size` bytes of `from`, from `start` on, copied to the offset `at`.
abbrev pub copy : Buffer → ℕ → ℕ → Buffer → ℕ → Buffer
copy into at size from start j =
    if leb at j && ltb j (at + size) then from (start + (j - at)) else into j

-- The loop over `k` sectors from `i` on that reads them into the buffer. `file` holds the bytes of
-- the disk.
pub read_sectors : ℕ → ℕ → ℕ → FileHeader → Buffer → Buffer → Option Buffer
unfolding sector_of
read_sectors zero i first h file buf = some buf
read_sectors (suc k) i first h file buf = sector_of h (i * sector_size) >>= λ s.
    read_sectors k (i + 1) first h file
      (copy buf ((i - first) * sector_size) sector_size file (sector_start s))

-- ReadAt, for a number of bytes and a position that are not negative: the result and `into`.
unfoldable pub read_at : FileHeader → Buffer → Buffer → Buffer → ℕ → ℕ → Option (ℕ × Buffer)
unfolding read_sectors
read_at h file new into num_bytes position =
    let n =
      if ltb (file_length h) (position + num_bytes) then file_length h - position else num_bytes in
    let first = position / sector_size in
    let last = (position + n - 1) / sector_size in
    if (num_bytes == 0) || leb (file_length h) position
    then some (0, into)
    else (read_sectors (1 + last - first) first first h file new >>= λ buf.
        some (n, copy into 0 n buf (position - first * sector_size)))

-- The loop of WriteAt that writes the sectors back to the disk.
pub write_sectors : ℕ → ℕ → ℕ → FileHeader → Buffer → Buffer → Option Buffer
unfolding sector_of
write_sectors zero i first h buf file = some file
write_sectors (suc k) i first h buf file = sector_of h (i * sector_size) >>= λ s.
    write_sectors k (i + 1) first h buf
      (copy file (sector_start s) sector_size buf ((i - first) * sector_size))

-- ReadAt into the buffer at an offset, where WriteAt keeps a part of a sector.
keep_sector : FileHeader → Buffer → Buffer → Buffer → ℕ → ℕ → Option Buffer
unfolding read_at
keep_sector h file new buf at position =
    read_at h file new (λ j. buf (at + j)) sector_size position >>= λ (n, into).
    some (copy buf at n into 0)

-- WriteAt: the result, and the bytes of the disk.
unfoldable pub write_at : FileHeader → Buffer → Buffer → Buffer → ℕ → ℕ → Option (ℕ × Buffer)
unfolding write_sectors keep_sector
write_at h file new from num_bytes position =
    let n =
      if ltb (file_length h) (position + num_bytes) then file_length h - position else num_bytes in
    let first = position / sector_size in
    let last = (position + n - 1) / sector_size in
    let first_aligned = position == first * sector_size in
    let last_aligned = (position + n) == ((last + 1) * sector_size) in
    if (num_bytes == 0) || leb (file_length h) position then some (0, file) else do
      buf₁ ← if first_aligned then some new else keep_sector h file new new 0 (first * sector_size)
      buf₂ ←
          if not last_aligned && (not (first == last) || first_aligned)
          then keep_sector h file new buf₁ ((last - first) * sector_size) (last * sector_size)
          else some buf₁
      file' ←
          write_sectors (1 + last - first) first first h
            (copy buf₂ (position - first * sector_size) n from 0) file
      some (n, file')

-- class OpenFile, and its operations at the seek position.
pub record OpenFile : Type 0 where
  pub hdr : FileHeader
  pub seek_position : ℕ
  pub type : ℕ

abbrev pub new_open_file : FileHeader → ℕ → OpenFile
new_open_file hdr type = record { hdr = hdr; seek_position = 0; type = type }

abbrev pub seek : OpenFile → ℕ → OpenFile
seek f position = record f { seek_position = position }

pub read : OpenFile → Buffer → Buffer → Buffer → ℕ → Option (OpenFile × ℕ × Buffer)
unfolding read_at
read f file new into num_bytes =
    read_at f.hdr file new into num_bytes f.seek_position >>= λ (n, into').
    some (record f { seek_position = f.seek_position + n }, n, into')

pub write : OpenFile → Buffer → Buffer → Buffer → ℕ → Option (OpenFile × ℕ × Buffer)
unfolding write_at
write f file new from num_bytes =
    write_at f.hdr file new from num_bytes f.seek_position >>= λ (n, file').
    some (record f { seek_position = f.seek_position + n }, n, file')

abbrev pub length : OpenFile → ℕ
length f = file_length f.hdr
