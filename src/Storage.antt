-- ===== src/Storage.antt =====
-- The bytes that the file system keeps on the disk: FetchFrom and WriteBack of
-- code/filesys/filehdr.cc, of code/filesys/directory.cc and of code/userprog/bitmap.cc, with the
-- layout of their objects on the host: an int has four bytes, the least significant first, and a
-- bool has one.
pub mod Words
pub mod Header
pub mod Contents
mod Tests
use nachos_system_calls.Prelude.{
  ℕ, ◌+◌, ◌-◌, ◌*◌, ◌/◌, ◌%◌, ◌^◌, Bool, true, false, not, Option, none, some, List, [], ◌∷◌, map,
  length, tabulate, get_or, get_elem?, ◌>>=◌, ◌>>◌, assert_that, ◌==◌, ltb, if◌then◌else◌, pos,
}
use nachos_system_calls.Machine.{signed, to_unsigned}
use nachos_system_calls.Bitmap.{BitMap}
use nachos_system_calls.Directory.{DirectoryEntry, file_name_max_len}
use nachos_system_calls.Disk.{sector_size, num_sectors, sector_start}
use nachos_system_calls.FileHeader.{num_direct, FileHeader}
use nachos_system_calls.OpenFile.{Buffer, copy, read_at, write_at, OpenFile}

-- Byte `i` of a word.
abbrev pub word_byte : ℕ → ℕ → ℕ
word_byte w i =
    if i == 0
    then w % 256
    else if i == 1
    then w / 256 % 256
    else if i == 2
    then w / 65536 % 256
    else w / 16777216 % 256

-- The word at an address.
abbrev pub word_at : Buffer → ℕ → ℕ
word_at m p = m p + 256 * m (p + 1) + 65536 * m (p + 2) + 16777216 * m (p + 3)

-- The bytes of an array of words, and the array back from them.
unfoldable pub words_buffer : List ℕ → Buffer
words_buffer ws j = word_byte (get_or ws (j / 4) 0) (j % 4)

unfoldable pub read_words : ℕ → ℕ → Buffer → List ℕ
read_words k p m = tabulate k 0 (λ i. word_at m (p + 4 * i))

-- The object of class FileHeader as words.
abbrev pub header_words : FileHeader → List ℕ
header_words h =
    to_unsigned (pos h.num_bytes) ∷ to_unsigned (pos h.num_sectors) ∷ map to_unsigned h.data_sectors

-- FileHeader::FetchFrom. A header with a negative number of bytes or of sectors is left out.
abbrev pub header_from : ℕ → ℕ → List ℕ → Option FileHeader
header_from bytes sectors words =
    assert_that (ltb bytes (2 ^ 31))
    >> assert_that (ltb sectors (2 ^ 31))
    >> some (record { num_bytes = bytes; num_sectors = sectors; data_sectors = map signed words })

unfoldable pub fetch_header : Buffer → ℕ → Option FileHeader
fetch_header disk sector =
    let m : Buffer = λ j. disk (sector_start sector + j) in
    assert_that (ltb sector num_sectors)
    >> header_from (word_at m 0) (word_at m 4) (read_words num_direct 8 m)

-- FileHeader::WriteBack.
unfoldable pub write_header : Buffer → ℕ → FileHeader → Option Buffer
write_header disk sector h =
    assert_that (ltb sector num_sectors)
    >> some (copy disk (sector_start sector) sector_size (words_buffer (header_words h)) 0)

-- sizeof(DirectoryEntry): inUse at 0, sector at 4, the 51 bytes of the name at 8, and one more.
abbrev pub entry_size : ℕ
entry_size = 60

-- Byte `o` of an entry. `pad` is what the bytes between the fields hold.
abbrev pub entry_byte : DirectoryEntry → ℕ → ℕ → ℕ
entry_byte e pad o =
    if o == 0
    then (if e.in_use then 1 else 0)
    else if ltb o 4
    then pad
    else if ltb o 8
    then word_byte e.sector (o - 4)
    else if ltb o 59
    then get_or e.name (o - 8) 0
    else pad

abbrev pub stored_byte : Option DirectoryEntry → ℕ → ℕ → ℕ
stored_byte none pad o = pad
stored_byte (some e) pad o = entry_byte e pad o

unfoldable pub table_buffer : Buffer → List DirectoryEntry → Buffer
table_buffer pad es j = stored_byte (get_elem? es (j / entry_size)) (pad j) (j % entry_size)

abbrev pub read_entry : Buffer → ℕ → DirectoryEntry
read_entry m p = record {
  in_use = not (m p == 0);
  sector = word_at m (p + 4);
  name = tabulate (file_name_max_len + 1) (p + 8) m;
}

unfoldable pub read_table : ℕ → Buffer → List DirectoryEntry
read_table k m = tabulate k 0 (λ i. read_entry m (entry_size * i))

-- The files of the directory and of the map. `new` is what the new buffers of ReadAt and WriteAt
-- hold, `pad` what is between the fields.
module _ (new pad : Buffer) where
  -- Directory::FetchFrom and Directory::WriteBack.
  unfoldable pub fetch_directory :
      OpenFile → Buffer → List DirectoryEntry → Option (List DirectoryEntry)
  fetch_directory f disk table =
      read_at f.hdr disk new (table_buffer pad table) (length table * entry_size) 0 >>= λ (n, m).
      some (read_table (length table) m)

  unfoldable pub write_directory : OpenFile → Buffer → List DirectoryEntry → Option Buffer
  write_directory f disk table =
      write_at f.hdr disk new (table_buffer pad table) (length table * entry_size) 0
      >>= λ (n, disk'). some disk'

module _ (new : Buffer) where
  -- BitMap::FetchFrom and BitMap::WriteBack.
  unfoldable pub fetch_map : OpenFile → Buffer → BitMap → Option BitMap
  fetch_map f disk b = read_at f.hdr disk new (words_buffer b.map) (b.num_words * 4) 0 >>= λ (n, m).
      some (record b { map = read_words b.num_words 0 m })

  unfoldable pub write_map : OpenFile → Buffer → BitMap → Option Buffer
  write_map f disk b =
      write_at f.hdr disk new (words_buffer b.map) (b.num_words * 4) 0 >>= λ (n, disk'). some disk'
