-- ===== src/FileSystem.antt =====
-- code/filesys/filesys.cc, and the constructors of code/filesys/openfile.cc: files of the simulated
-- disk by name. List and Print only print. `disk` gives the byte at each offset of the disk; the
-- synchronous requests to it are complete when they return.
pub mod Places
pub mod Flush
pub mod Create
pub mod Open
pub mod Remove
pub mod Keep
pub mod Layout
pub mod Format
mod Tests
use nachos_system_calls.Prelude.{
  ℕ, zero, suc, ◌+◌, ◌*◌, ◌/◌, Bool, true, false, Option, none, some, List, [], ◌∷◌, get_elem?, set,
  ℤ, pos, negsuc, ◌>>=◌, ◌>>◌, assert_that, ltb, if◌then◌else◌,
}
use nachos_system_calls.Machine.{signed}
use nachos_system_calls.Bitmap.{BitMap, find, mark, clear}
use nachos_system_calls.Bitmap
use nachos_system_calls.Directory.{DirectoryEntry, new_directory, find_file, add_file, remove_file}
use nachos_system_calls.Disk.{num_sectors}
use nachos_system_calls.FileHeader.{FileHeader, allocate, deallocate}
use nachos_system_calls.OpenFile.{Buffer, OpenFile, new_open_file}
use nachos_system_calls.Storage.{
  entry_size, fetch_header, write_header, fetch_directory, write_directory, fetch_map, write_map,
}

-- FreeMapSector, DirectorySector, FreeMapFileSize, NumDirEntries and DirectoryFileSize.
abbrev pub free_map_sector : ℕ
free_map_sector = 0

abbrev pub directory_sector : ℕ
directory_sector = 1

abbrev pub free_map_file_size : ℕ
free_map_file_size = num_sectors / 8

abbrev pub num_dir_entries : ℕ
num_dir_entries = 10

abbrev pub directory_file_size : ℕ
directory_file_size = entry_size * num_dir_entries

-- class FileSystem. A pointer that is NULL is `none`.
pub record FileSystem : Type 0 where
  pub free_map_file : OpenFile
  pub directory_file : OpenFile
  pub openf : List (Option OpenFile)

-- What new memory holds: the words of a new map, the ten entries of a new directory, a new header,
-- the bytes between the fields of the entries, the buffers of ReadAt and WriteAt; and what the
-- member openf, which no constructor here sets, points to.
pub record NewMemory : Type 0 where
  pub words : List ℕ
  pub entries : List DirectoryEntry
  pub header : FileHeader
  pub pad : Buffer
  pub buffer : Buffer
  pub table : List (Option OpenFile)

-- The result of Directory::Find as an int.
abbrev pub int_of : Option ℕ → ℤ
int_of none = negsuc 0
int_of (some w) = signed w

unfoldable pub find_sector : List DirectoryEntry → List ℕ → ℤ
find_sector directory name = int_of (find_file directory name)

-- `sector != -1`.
abbrev pub is_found : ℤ → Bool
is_found (negsuc zero) = false
is_found (negsuc (suc n)) = true
is_found (pos n) = true

-- OpenFile::OpenFile(sector, type); the other constructor has the type 0. A negative sector fails
-- the assertion of the disk.
unfoldable pub open_header : Buffer → ℤ → ℕ → Option OpenFile
open_header disk (negsuc n) type = none
open_header disk (pos s) type = fetch_header disk s >>= λ h. some (new_open_file h type)

-- findFreeSlot, from a slot on; none is a read outside the array.
pub free_slot_from : ℕ → ℕ → List (Option OpenFile) → Option ℕ
free_slot_from zero slot openf = some slot
free_slot_from (suc k) slot openf = get_elem? openf slot >>= λ f. elim f [
  | none ↦ some slot
  | some g ↦ free_slot_from k (slot + 1) openf
]

module _ (new : NewMemory) where
  -- The constructor with format TRUE.
  unfoldable pub format : Buffer → Option (FileSystem × Buffer)
  format disk = do
    b₀ ← Bitmap.create new.words num_sectors
    b₁ ← mark b₀ (pos free_map_sector)
    b₂ ← mark b₁ (pos directory_sector)
    (ok, map_header, b₃) ← allocate b₂ free_map_file_size new.header
    assert_that ok
    (ok', dir_header, b₄) ← allocate b₃ directory_file_size new.header
    assert_that ok'
    disk₁ ← write_header disk free_map_sector map_header
    disk₂ ← write_header disk₁ directory_sector dir_header
    map_file ← open_header disk₂ (pos free_map_sector) 0
    dir_file ← open_header disk₂ (pos directory_sector) 0
    disk₃ ← write_map new.buffer map_file disk₂ b₄
    disk₄ ← write_directory new.buffer new.pad dir_file disk₃ (new_directory new.entries)
    some (record { free_map_file = map_file; directory_file = dir_file; openf = new.table }, disk₄)

  -- The constructor with format FALSE.
  unfoldable pub mount : Buffer → Option FileSystem
  mount disk = do
    map_file ← open_header disk (pos free_map_sector) 0
    dir_file ← open_header disk (pos directory_sector) 0
    some (record { free_map_file = map_file; directory_file = dir_file; openf = new.table })

  module _ (fs : FileSystem) where
    -- `new Directory(NumDirEntries)` and FetchFrom, and the same for the map.
    unfoldable pub load_directory : Buffer → Option (List DirectoryEntry)
    load_directory disk =
        fetch_directory new.buffer new.pad fs.directory_file disk (new_directory new.entries)

    unfoldable pub load_map : Buffer → Option BitMap
    load_map disk =
        Bitmap.create new.words num_sectors >>= λ b. fetch_map new.buffer fs.free_map_file disk b

    -- The last step of Create: the data blocks, and the changes flushed.
    unfoldable pub create_blocks :
        Buffer → List DirectoryEntry → BitMap → ℕ → ℕ → Option (Bool × Buffer)
    create_blocks disk directory free_map sector size =
        allocate free_map size new.header >>= λ (ok, header, free_map').
        if ok
        then (do
          disk₁ ← write_header disk sector header
          disk₂ ← write_directory new.buffer new.pad fs.directory_file disk₁ directory
          disk₃ ← write_map new.buffer fs.free_map_file disk₂ free_map'
          some (true, disk₃))
        else some (false, disk)

    -- Create for a name that is not there; Find of the map returns no negative number but -1.
    unfoldable pub create_entry :
        Buffer → List DirectoryEntry → List ℕ → ℕ → BitMap → ℤ → Option (Bool × Buffer)
    unfolding create_blocks
    create_entry disk directory name size free_map (negsuc n) = some (false, disk)
    create_entry disk directory name size free_map (pos sector) =
        let added = add_file directory name sector in
        let blocks = create_blocks disk added.1 free_map sector size in
        if added.0 then blocks else some (false, disk)

    -- FileSystem::Create, with the disk that it leaves.
    unfoldable pub create : Buffer → List ℕ → ℕ → Option (Bool × Buffer)
    unfolding create_entry load_directory load_map
    create disk name size = load_directory disk >>= λ directory.
        if is_found (find_sector directory name) then some (false, disk) else (do
          b ← load_map disk
          (free_map, sector) ← find b
          create_entry disk directory name size free_map sector)

    -- The two FileSystem::Open; the one without a type opens with the type 0. Where the slot found
    -- is behind the array, both the write and the read of it are outside.
    unfoldable pub open_file : Buffer → List ℕ → ℕ → Option (FileSystem × Option OpenFile)
    unfolding load_directory free_slot_from
    open_file disk name type = do
      directory ← load_directory disk
      slot ← free_slot_from 8 2 fs.openf
      old ← get_elem? fs.openf slot
      elim (find_sector directory name) [
        | negsuc n ↦ some (fs, old)
        | pos s ↦ open_header disk (pos s) type >>= λ f.
            some (record fs { openf = set fs.openf slot (some f) }, some f)
      ]

    -- FileSystem::Remove after the name was found.
    unfoldable pub remove_entry : Buffer → List DirectoryEntry → List ℕ → ℤ → Option (Bool × Buffer)
    unfolding load_map
    remove_entry disk directory name (negsuc n) = none
    remove_entry disk directory name (pos sector) = do
      header ← fetch_header disk sector
      b ← load_map disk
      b₁ ← deallocate header b
      b₂ ← clear b₁ (pos sector)
      disk₁ ← write_map new.buffer fs.free_map_file disk b₂
      disk₂ ←
          write_directory new.buffer new.pad fs.directory_file disk₁ (remove_file directory name).1
      some (true, disk₂)

    unfoldable pub remove : Buffer → List ℕ → Option (Bool × Buffer)
    unfolding load_directory remove_entry
    remove disk name = load_directory disk >>= λ directory.
        if is_found (find_sector directory name)
        then remove_entry disk directory name (find_sector directory name)
        else some (false, disk)
