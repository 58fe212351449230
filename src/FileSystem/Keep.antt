-- ===== src/FileSystem/Keep.antt =====
-- The other files, when FileSystem::Create of code/filesys/filesys.cc makes one.
use nachos_system_calls.Prelude.{
  if◌then◌else◌, Bool-cases, inl, inr, ap, subst, ℕ, suc, ◌+◌, ◌<◌, ◌≤◌, ◌≡◌, refl, sym, ◌∙◌, Bool,
  true, Option, some, none, List, ◌∷◌, length, get_elem?, get_or, arith,
}
use nachos_system_calls.Bitmap.{BitMap, div_round_up}
use nachos_system_calls.Bitmap.View.{bits}
use nachos_system_calls.Bitmap.Search.{num_false}
use nachos_system_calls.Directory.{DirectoryEntry, file_name_max_len}
use nachos_system_calls.Directory.Map.{lookup, Full, lookup_same}
use nachos_system_calls.CString.{strncmp_eq}
use nachos_system_calls.Disk.{sector_start}
use nachos_system_calls.FileHeader.{FileHeader}
use nachos_system_calls.FileHeader.Marks.{Marks-used, Marks-was_clear, Marks-marked}
use nachos_system_calls.FileHeader.Swap.{Marks-swap}
use nachos_system_calls.OpenFile.{Buffer}
use nachos_system_calls.Storage.Header.{fetch_header_congr}
use nachos_system_calls.FileSystem.{FileSystem, NewMemory, create}
use nachos_system_calls.FileSystem.Places.{IsNew, Places, Represents, clear_apart}
use nachos_system_calls.FileSystem.Create.{
  MakesFile, there, full, no_space, created, Created, create-MakesFile,
}
use nachos_system_calls.FileSystem.Remove.{IsFile}

-- A file that Create has made is one.
pub Created-IsFile :
    {fs : FileSystem} {at : Places fs} {disk disk' : Buffer} {table table' : List DirectoryEntry}
    {b b' : BitMap} {name : List ℕ} {size sector : ℕ} {sectors : List ℕ} {h : FileHeader}
    → get_elem? (bits b) at.map_at ≡ some true
    → ((i : ℕ) → i < 5 → get_elem? (bits b) (at.dir_at i) ≡ some true)
    → Created fs at disk table b name size disk' table' b' sector sectors h
    → IsFile fs at disk' b' sector size sectors h (bits b)
Created-IsFile m d c = record { header = c.header; marks = c.marks; map_used = m; dir_used = d }

module _ (fs : FileSystem) (at : Places fs) (disk disk' : Buffer)
    (table table' : List DirectoryEntry) (b b' : BitMap) (name : List ℕ) (size sector : ℕ)
    (sectors : List ℕ) (h : FileHeader)
    (c : Created fs at disk table b name size disk' table' b' sector sectors h)
    (length_of other : ℕ) (others : List ℕ) (g : FileHeader) (bs : List Bool)
    (f : IsFile fs at disk b other length_of others g bs) where
  -- Every sector of the file, that of the header too.
  bytes_kept :
      (i o : ℕ)
      → i < suc (length others)
      → o < 128
      → disk' (sector_start (get_or (other ∷ others) i 0) + o)
        ≡ disk (sector_start (get_or (other ∷ others) i 0) + o)
  bytes_kept i o l q =
      let free = Marks-was_clear bs (bits b) (other ∷ others) i f.marks l in
      let s = get_or (other ∷ others) i 0 in
      c.others s o (Marks-marked bs (bits b) (other ∷ others) i f.marks l)
        (λ e. clear_apart bs s at.map_at free f.map_used (sym e))
        (λ j p e. clear_apart bs s (at.dir_at j) free (f.dir_used j p) (sym e)) q

  -- Any other file after what Create leaves.
  Created-keeps :
      (bs' : List Bool) × IsFile fs at disk' b' other length_of others g bs'
      × ((i o : ℕ)
          → i < length others
          → o < 128
          → disk' (sector_start (get_or others i 0) + o)
            ≡ disk (sector_start (get_or others i 0) + o))
  Created-keeps =
      let (ws, p, q) =
        Marks-swap bs (bits b) (bits b') (other ∷ others) (sector ∷ sectors) f.marks c.marks in
      (
        ws,
        record {
          header = record {
            fetched =
                fetch_header_congr disk disk' other (λ j l. bytes_kept 0 j (omega arith) l)
                ∙ f.header.fetched;
            num_bytes = f.header.num_bytes;
            num_sectors = f.header.num_sectors;
            holds = f.header.holds;
          };
          marks = q;
          map_used = Marks-used bs ws (sector ∷ sectors) at.map_at p f.map_used;
          dir_used = λ i l. Marks-used bs ws (sector ∷ sectors) (at.dir_at i) p (f.dir_used i l);
        },
        λ i o l u. bytes_kept (suc i) o (omega (arith, l)) u,
      )

-- When Create returns TRUE, any other file is still there: the names it had lead to it, its header
-- is read as before, the map counts its sectors apart from all others, and every byte of its blocks
-- is as it was.
pub create_keeps :
    (new : NewMemory) (fs : FileSystem) (at : Places fs) (disk disk' : Buffer)
    (table : List DirectoryEntry) (b : BitMap) (name : List ℕ) (size length_of other : ℕ)
    (others : List ℕ) (g : FileHeader) (bs : List Bool)
    → IsNew new
    → Represents fs at disk table b
    → div_round_up size 128 ≤ 30
    → IsFile fs at disk b other length_of others g bs
    → create new fs disk name size ≡ some (true, disk')
    → (table' : List DirectoryEntry) × (b' : BitMap) × (bs' : List Bool) × Represents fs at disk'
        table' b'
      × ((m : List ℕ) → lookup table m ≡ some other → lookup table' m ≡ some other)
      × IsFile fs at disk' b' other length_of others g bs'
      × ((i o : ℕ)
          → i < length others
          → o < 128
          → disk' (sector_start (get_or others i 0) + o)
            ≡ disk (sector_start (get_or others i 0) + o))
create_keeps new fs at disk disk' table b name size length_of other others g bs is_new r small f e =
    go (some (true, disk'))
      (subst (MakesFile fs at disk table b name size) e
        (create-MakesFile new fs at disk table b name size is_new r small))
      refl
  where
    Kept : Buffer → Type 0
    Kept d =
        (table' : List DirectoryEntry) × (b' : BitMap) × (bs' : List Bool) × Represents fs at d
          table' b'
        × ((m : List ℕ) → lookup table m ≡ some other → lookup table' m ≡ some other)
        × IsFile fs at d b' other length_of others g bs'
        × ((i o : ℕ)
            → i < length others
            → o < 128
            → d (sector_start (get_or others i 0) + o)
              ≡ disk (sector_start (get_or others i 0) + o))

    got : Option (Bool × Buffer) → Buffer
    got none = disk
    got (some (ok, x)) = x

    -- The new name is not one of those that lead to the file.
    still :
        (m : List ℕ) (sector : ℕ)
        → lookup table name ≡ none
        → lookup table m ≡ some other
        → (if strncmp_eq file_name_max_len name m then some sector else lookup table m) ≡ some other
    still m sector absent l = elim (Bool-cases (strncmp_eq file_name_max_len name m)) [
      | inl t ↦ absurd (ground (arith, lookup_same table name m t, absent, l))
      | inr t ↦ rw t l
    ]

    go :
        (o : Option (Bool × Buffer))
        → MakesFile fs at disk table b name size o
        → o ≡ some (true, disk')
        → Kept disk'
    go o (there x l) q = absurd (ground (arith, q))
    go o (full l u) q = absurd (ground (arith, q))
    go o (no_space l n) q = absurd (ground (arith, q))
    go o (created d table' b' sector sectors h c) q =
        let (bs', k, same) =
          Created-keeps fs at disk d table table' b b' name size sector sectors h c length_of other
            others g bs f in
        subst Kept (ap got q)
          (table', b', bs', c.represents, (λ m l. c.named m ∙ still m sector c.absent l), k, same)

-- Create succeeds where the name is new, an entry of the directory is free and there are sectors
-- enough.
pub create_succeeds :
    (new : NewMemory) (fs : FileSystem) (at : Places fs) (disk : Buffer)
    (table : List DirectoryEntry) (b : BitMap) (name : List ℕ) (size : ℕ)
    → IsNew new
    → Represents fs at disk table b
    → div_round_up size 128 ≤ 30
    → lookup table name ≡ none
    → ¬ Full table
    → div_round_up size 128 < num_false (bits b)
    → (disk' : Buffer) × (table' : List DirectoryEntry) × (b' : BitMap) × (sector : ℕ)
      × (sectors : List ℕ) × (h : FileHeader) × (create new fs disk name size ≡ some (true, disk'))
      × Created fs at disk table b name size disk' table' b' sector sectors h
create_succeeds new fs at disk table b name size is_new r small absent room space =
    go (create new fs disk name size)
      (create-MakesFile new fs at disk table b name size is_new r small)
  where
    go :
        (o : Option (Bool × Buffer))
        → MakesFile fs at disk table b name size o
        → (disk' : Buffer) × (table' : List DirectoryEntry) × (b' : BitMap) × (sector : ℕ)
          × (sectors : List ℕ) × (h : FileHeader) × (o ≡ some (true, disk'))
          × Created fs at disk table b name size disk' table' b' sector sectors h
    go o (there x l) = absurd (ground (arith, l, absent))
    go o (full l f) = absurd (room f)
    go o (no_space l n) = absurd (omega (arith, n, space))
    go o (created disk' table' b' sector sectors h c) =
        (disk', table', b', sector, sectors, h, refl, c)
