-- ===== src/FileSystem/Places.antt =====
-- What a formatted disk holds for the file system of code/filesys/filesys.cc: the files of the map
-- and of the directory, the table and the map that are in them, and when a write leaves these
-- alone.
use nachos_system_calls.Prelude.{
  ℕ, ◌+◌, ◌*◌, ◌/◌, ◌%◌, ◌<◌, ◌≡◌, ◌≢◌, refl, sym, subst, ◌∙◌, Bool, true, false, some, none, List,
  length, All, get_elem?, pos, negsuc, length-tabulate, arith,
}
use nachos_system_calls.Bitmap.{BitMap}
use nachos_system_calls.Bitmap.View.{IsValid, IsWord, bits, is_set}
use nachos_system_calls.Bitmap.Search.{create_lem}
use nachos_system_calls.Directory.{DirectoryEntry, new_directory}
use nachos_system_calls.Directory.Entries.{IsEntry, length-new_directory, lookup-IsEntry}
use nachos_system_calls.Directory.Map.{lookup, Unique, find_file-lookup}
use nachos_system_calls.Disk.{sector_start}
use nachos_system_calls.FileHeader.Marks.{Marks, Marks-length}
use nachos_system_calls.OpenFile.{Buffer}
use nachos_system_calls.OpenFile.ReadAt.{content}
use nachos_system_calls.OpenFile.Frame.{Outside}
use nachos_system_calls.Storage.{read_words, read_table}
use nachos_system_calls.Storage.Contents.{FileAt, Untouched, fetch_map_lem, fetch_directory_lem}
use nachos_system_calls.FileSystem.{FileSystem, NewMemory, find_sector, load_directory, load_map}

-- New memory of the sizes that the source asks for.
pub record IsNew (new : NewMemory) : Type 0 where
  pub words : length new.words ≡ 32
  pub small : All IsWord new.words
  pub entries : length new.entries ≡ 10
  pub header : length new.header.data_sectors ≡ 30

-- The sectors of the two files.
pub record Places (fs : FileSystem) : Type 0 where
  pub map_at : ℕ
  pub dir_at : ℕ → ℕ
  pub map_file : FileAt fs.free_map_file (λ i. map_at) 128
  pub dir_file : FileAt fs.directory_file dir_at 600
  pub apart : (i : ℕ) → i < 5 → dir_at i ≢ map_at

-- A table of distinct names and a map of the sectors in use, which counts the sectors of the two
-- files.
pub record Consistent (fs : FileSystem) (at : Places fs) (table : List DirectoryEntry) (b : BitMap)
    : Type 0 where
  pub valid : IsValid b
  pub size : b.num_bits ≡ 1024
  pub map_used : get_elem? (bits b) at.map_at ≡ some true
  pub dir_used : (i : ℕ) → i < 5 → get_elem? (bits b) (at.dir_at i) ≡ some true
  pub table_size : length table ≡ 10
  pub names : Unique table
  pub entries : All IsEntry table

-- The disk holds this table and this map.
pub record Represents (fs : FileSystem) (at : Places fs) (disk : Buffer)
    (table : List DirectoryEntry) (b : BitMap) : Type 0 where
  pub consistent : Consistent fs at table b
  pub map_bytes : read_words b.num_words 0 (content disk (λ i. at.map_at)) ≡ b.map
  pub table_bytes : read_table (length table) (content disk at.dir_at) ≡ table

-- The sectors of other files are as they were.
abbrev pub OthersKept : (fs : FileSystem) → Places fs → Buffer → Buffer → Type 0
OthersKept fs at disk disk' =
    (s o : ℕ)
    → s ≢ at.map_at
    → ((i : ℕ) → i < 5 → s ≢ at.dir_at i)
    → o < 128
    → disk' (sector_start s + o) ≡ disk (sector_start s + o)

pub num_words_lem : {b : BitMap} → IsValid b → b.num_bits ≡ 1024 → b.num_words ≡ 32
num_words_lem {b} v s = ground (arith, v.words, s)

pub clear_apart :
    (bs : List Bool) (s t : ℕ) → get_elem? bs s ≡ some false → get_elem? bs t ≡ some true → t ≢ s
clear_apart bs s t h k e = absurd (ground (arith, h, subst (λ x. get_elem? bs x ≡ some true) e k))

-- The sizes that a marked map keeps.
pub marked_size :
    (b b' : BitMap) (fs : List ℕ)
    → b.num_bits ≡ 1024
    → Marks (bits b) fs (bits b')
    → b'.num_bits ≡ 1024
marked_size b b' fs s m = omega (
  arith,
  Marks-length (bits b) (bits b') fs m,
  length-tabulate b.num_bits 0 (is_set b),
  length-tabulate b'.num_bits 0 (is_set b'),
  s,
)

-- A sector is outside the others.
pub other-Outside : (s t o : ℕ) → s ≢ t → o < 128 → Outside t (sector_start s + o)
other-Outside s t o h l = ground (arith, h, l)

module _ (sec : ℕ → ℕ) (n : ℕ) (disk disk' : Buffer) (u : Untouched sec n disk disk') where
  pub kept :
      (s o : ℕ)
      → ((i : ℕ) → i < n → s ≢ sec i)
      → o < 128
      → disk' (sector_start s + o) ≡ disk (sector_start s + o)
  kept s o h l = u (sector_start s + o) (λ i q. other-Outside s (sec i) o (h i q) l)

  pub content_kept :
      (other : ℕ → ℕ) (k p : ℕ)
      → ((i j : ℕ) → i < k → j < n → other i ≢ sec j)
      → p < k * 128
      → content disk' other p ≡ content disk other p
  content_kept other k p h l =
      kept (other (p / 128)) (p % 128) (λ j q. h (p / 128) j (omega (arith, l)) q) (omega arith)

module _ {fs : FileSystem} {at : Places fs} {table : List DirectoryEntry} {b : BitMap}
    (c : Consistent fs at table b) where
  pub map_file_lem : FileAt fs.free_map_file (λ i. at.map_at) (b.num_words * 4)
  map_file_lem =
      subst (FileAt fs.free_map_file (λ i. at.map_at)) (omega (arith, num_words_lem c.valid c.size))
        at.map_file

  pub dir_file_lem : FileAt fs.directory_file at.dir_at (length table * 60)
  dir_file_lem =
      subst (FileAt fs.directory_file at.dir_at) (omega (arith, c.table_size)) at.dir_file

module _ {new : NewMemory} (is_new : IsNew new) {fs : FileSystem} {at : Places fs} {disk : Buffer}
    {table : List DirectoryEntry} {b : BitMap} (r : Represents fs at disk table b) where
  pub load_directory_lem : load_directory new fs disk ≡ some table
  unfolding load_directory
  load_directory_lem =
      fetch_directory_lem fs.directory_file at.dir_at table (dir_file_lem r.consistent) disk
        new.buffer new.pad (new_directory new.entries)
        (length-new_directory new.entries ∙ is_new.entries ∙ sym r.consistent.table_size)
        r.table_bytes

  pub load_map_lem : load_map new fs disk ≡ some b
  unfolding load_map
  load_map_lem =
      let (old, e, v, n, z) = create_lem new.words 1024 is_new.words is_new.small in
      rw e (
        fetch_map_lem fs.free_map_file (λ i. at.map_at) b (map_file_lem r.consistent) disk
          new.buffer old (n ∙ sym r.consistent.size)
          (num_words_lem v n ∙ sym (num_words_lem r.consistent.valid r.consistent.size))
          r.map_bytes)

-- Find, as the operations meet it.
pub find_sector-found :
    (es : List DirectoryEntry) (m : List ℕ) (x : ℕ)
    → All IsEntry es
    → lookup es m ≡ some x
    → (find_sector es m ≡ pos x) × (x < 1024)
unfolding find_sector
find_sector-found es m x a h =
    let l = lookup-IsEntry es m x a h in (rw (find_file-lookup es m, h) (ground (arith, l)), l)

pub find_sector-absent :
    (es : List DirectoryEntry) (m : List ℕ) → lookup es m ≡ none → find_sector es m ≡ negsuc 0
unfolding find_sector
find_sector-absent es m h = rw (find_file-lookup es m, h) refl
