-- ===== src/FileSystem/Remove.antt =====
-- FileSystem::Remove of code/filesys/filesys.cc as a whole, and after FileSystem::Create.
use nachos_system_calls.Prelude.{
  ℕ, ◌+◌, ◌<◌, ◌≤◌, ◌≡◌, ◌≢◌, refl, sym, ap, subst, ◌∙◌, Bool, true, false, Option, some, none,
  List, ◌∷◌, length, length-set, All, get_elem?, set, pos, if◌then◌else◌, length-tabulate,
  Bool-cases, inl, inr, arith,
}
use nachos_system_calls.CString.{strncmp_eq, strncmp_eq_refl}
use nachos_system_calls.Bitmap.{BitMap, div_round_up, clear}
use nachos_system_calls.Bitmap.View.{IsValid, bits, is_set}
use nachos_system_calls.Bitmap.Update.{clear_lem}
use nachos_system_calls.Bitmap.Clear.{in_range}
use nachos_system_calls.Disk.{sector_start}
use nachos_system_calls.Directory.{file_name_max_len, DirectoryEntry, remove_file}
use nachos_system_calls.Directory.Entries.{IsEntry, remove_file-IsEntry}
use nachos_system_calls.Directory.Map.{lookup, lookup_same}
use nachos_system_calls.Directory.Remove.{Removes, absent, removed, remove_file-Removes}
use nachos_system_calls.FileHeader.{FileHeader, deallocate}
use nachos_system_calls.FileHeader.Allocate.{deallocate_loop_lem}
use nachos_system_calls.FileHeader.Marks.{Marks, Marks-length, set-set_self}
use nachos_system_calls.OpenFile.{Buffer}
use nachos_system_calls.Storage.Header.{Stored}
use nachos_system_calls.FileSystem.{FileSystem, NewMemory, create, remove_entry, remove}
use nachos_system_calls.FileSystem.Places.{
  IsNew, Places, Consistent, Represents, OthersKept, load_directory_lem, load_map_lem,
  find_sector-found, find_sector-absent,
}
use nachos_system_calls.FileSystem.Flush.{map_then_directory}
use nachos_system_calls.FileSystem.Create.{
  MakesFile, there, full, no_space, created, create-MakesFile,
}

-- A file on the disk: its header, and the sectors that the map counts for it beside those of `bs`,
-- which has the sectors of the directory and the map.
pub record IsFile (fs : FileSystem) (at : Places fs) (disk : Buffer) (b : BitMap) (sector size : ℕ)
    (sectors : List ℕ) (h : FileHeader) (bs : List Bool) : Type 0 where
  pub header : Stored disk sector size sectors h
  pub marks : Marks bs (sector ∷ sectors) (bits b)
  pub map_used : get_elem? bs at.map_at ≡ some true
  pub dir_used : (i : ℕ) → i < 5 → get_elem? bs (at.dir_at i) ≡ some true

-- What Remove of a file leaves.
pub record Removed (fs : FileSystem) (at : Places fs) (disk : Buffer) (table : List DirectoryEntry)
    (name : List ℕ) (bs : List Bool) (disk' : Buffer) (table' : List DirectoryEntry) (b' : BitMap)
    : Type 0 where
  pub named :
      (m : List ℕ)
      → lookup table' m ≡ (if strncmp_eq file_name_max_len name m then none else lookup table m)
  pub freed : bits b' ≡ bs
  pub others : OthersKept fs at disk disk'
  pub represents : Represents fs at disk' table' b'

module _ (new : NewMemory) (fs : FileSystem) (at : Places fs) (disk : Buffer)
    (table : List DirectoryEntry) (b : BitMap) (name : List ℕ) (is_new : IsNew new)
    (r : Represents fs at disk table b) where
  abbrev RemovedBy : List Bool → Option (Bool × Buffer) → Type 0
  RemovedBy bs o =
      (disk' : Buffer) × (table' : List DirectoryEntry) × (b' : BitMap) × (o ≡ some (true, disk'))
      × Removed fs at disk table name bs disk' table' b'

  -- The blocks and the header given back to the map.
  freed :
      (sector size : ℕ) (sectors : List ℕ) (h : FileHeader) (bs : List Bool)
      → IsFile fs at disk b sector size sectors h bs
      → (b₁ b₂ : BitMap) × (deallocate h b ≡ some b₁)
        × (clear b₁ (pos sector) ≡ some b₂)
        × IsValid b₂
        × (b₂.num_bits ≡ 1024)
        × (bits b₂ ≡ bs)
  unfolding deallocate
  freed sector size sectors h bs f =
      let (b₁, e, v, z) =
        deallocate_loop_lem sectors 0 h.data_sectors b (set bs sector true) r.consistent.valid
          f.marks.1 f.header.holds in
      let free = in_range bs sector f.marks.0 in
      let size₁ : b₁.num_bits ≡ length bs =
        sym (length-tabulate b₁.num_bits 0 (is_set b₁)) ∙ ap length z ∙ length-set bs sector true in
      let (b₂, q, w, n, y) = clear_lem sector v (omega (arith, free, size₁)) in
      (
        b₁,
        b₂,
        rw (f.header.num_sectors) e,
        q,
        w,
        omega (
          arith,
          n,
          size₁,
          Marks-length (set bs sector true) (bits b) sectors f.marks.1,
          length-set bs sector true,
          length-tabulate b.num_bits 0 (is_set b),
          r.consistent.size,
        ),
        y ∙ ap (λ x. set x sector false) z ∙ set-set_self bs sector true f.marks.0,
      )

  removed_entry :
      (sector size : ℕ) (sectors : List ℕ) (h : FileHeader) (bs : List Bool)
      → IsFile fs at disk b sector size sectors h bs
      → lookup table name ≡ some sector
      → RemovedBy bs (remove_entry new fs disk table name (pos sector))
  unfolding remove_entry
  removed_entry sector size sectors h bs f l =
      let (b₁, b₂, e, q, v, n, z) = freed sector size sectors h bs f in
      go (remove_file table name) refl (remove_file-Removes table name r.consistent.names) b₁ b₂ e q
        v n z
    where
      go :
          (x : Bool × List DirectoryEntry)
          → remove_file table name ≡ x
          → Removes table name x
          → (b₁ b₂ : BitMap) → deallocate h b ≡ some b₁
          → clear b₁ (pos sector) ≡ some b₂
          → IsValid b₂
          → b₂.num_bits ≡ 1024
          → bits b₂ ≡ bs
          → RemovedBy bs (remove_entry new fs disk table name (pos sector))
      go x k (absent a) b₁ b₂ e q v n z = absurd (ground (arith, a, l))
      go x k (removed x' l' table' named names) b₁ b₂ e q v n z =
          let (entries, size') = remove_file-IsEntry table name r.consistent.entries in
          let c : Consistent fs at table' b₂ = record {
            valid = v;
            size = n;
            map_used = subst (λ y. get_elem? y at.map_at ≡ some true) (sym z) f.map_used;
            dir_used =
                λ i p. subst (λ y. get_elem? y (at.dir_at i) ≡ some true) (sym z) (f.dir_used i p);
            table_size = subst (λ y. length y.1 ≡ length table) k size' ∙ r.consistent.table_size;
            names = names;
            entries = subst (λ y. All IsEntry y.1) k entries;
          } in
          let (disk₁, disk₂, g, i, represents, others) =
            map_then_directory c disk new.buffer new.pad in
          (
            disk₂,
            table',
            b₂,
            rw (f.header.fetched, load_map_lem is_new r, e, q, g, ap (λ y. y.1) k, i) refl,
            record { named = named; freed = z; others = others; represents = represents },
          )

  -- Remove of a file, whose sectors the map counts: it returns TRUE, and the disk again holds a
  -- directory of distinct names and a valid map: that name alone is gone, exactly the sectors of
  -- the file are given back, and no sector but those of the directory and the map changes.
  pub remove-Removed :
      (sector size : ℕ) (sectors : List ℕ) (h : FileHeader) (bs : List Bool)
      → IsFile fs at disk b sector size sectors h bs
      → lookup table name ≡ some sector
      → RemovedBy bs (remove new fs disk name)
  unfolding remove
  remove-Removed sector size sectors h bs f l =
      let (e, q) = find_sector-found table name sector r.consistent.entries l in
      rw (load_directory_lem is_new r, e) (removed_entry sector size sectors h bs f l)

  pub remove_unknown : lookup table name ≡ none → remove new fs disk name ≡ some (false, disk)
  unfolding remove
  remove_unknown l = rw (load_directory_lem is_new r, find_sector-absent table name l) refl

-- A file created and removed: the names and the sectors in use are those of before.
pub record Undone (fs : FileSystem) (at : Places fs) (disk : Buffer) (table : List DirectoryEntry)
    (b : BitMap) (disk' : Buffer) (table' : List DirectoryEntry) (b' : BitMap) : Type 0 where
  pub named : (m : List ℕ) → lookup table' m ≡ lookup table m
  pub freed : bits b' ≡ bits b
  pub others :
      (s o : ℕ)
      → get_elem? (bits b) s ≡ some true
      → s ≢ at.map_at
      → ((i : ℕ) → i < 5 → s ≢ at.dir_at i)
      → o < 128
      → disk' (sector_start s + o) ≡ disk (sector_start s + o)
  pub represents : Represents fs at disk' table' b'

forgotten :
    (table : List DirectoryEntry) (name m : List ℕ) (sector : ℕ)
    → lookup table name ≡ none
    → (if strncmp_eq file_name_max_len name m
        then none
        else (if strncmp_eq file_name_max_len name m then some sector else lookup table m))
      ≡ lookup table m
forgotten table name m sector l = elim (Bool-cases (strncmp_eq file_name_max_len name m)) [
  | inl t ↦ rw t (sym (sym (lookup_same table name m t) ∙ l))
  | inr t ↦ rw t refl
]

-- After a Create that returned TRUE, Remove of the name returns TRUE too, and the names, the
-- sectors that the map counts as used and the bytes of the other files are those of before.
pub create-remove :
    (new : NewMemory) (fs : FileSystem) (at : Places fs) (disk disk₁ : Buffer)
    (table : List DirectoryEntry) (b : BitMap) (name : List ℕ) (size : ℕ)
    → IsNew new
    → Represents fs at disk table b
    → div_round_up size 128 ≤ 30
    → create new fs disk name size ≡ some (true, disk₁)
    → (disk₂ : Buffer) × (table₂ : List DirectoryEntry) × (b₂ : BitMap) × (remove new fs disk₁ name
        ≡ some (true, disk₂))
      × Undone fs at disk table b disk₂ table₂ b₂
create-remove new fs at disk disk₁ table b name size is_new r small e =
    go (some (true, disk₁))
      (subst (MakesFile fs at disk table b name size) e
        (create-MakesFile new fs at disk table b name size is_new r small))
      refl
  where
    go :
        (o : Option (Bool × Buffer))
        → MakesFile fs at disk table b name size o
        → o ≡ some (true, disk₁)
        → (disk₂ : Buffer) × (table₂ : List DirectoryEntry) × (b₂ : BitMap) × (remove new fs disk₁
              name
            ≡ some (true, disk₂))
          × Undone fs at disk table b disk₂ table₂ b₂
    go o (there x l) q = absurd (ground (arith, q))
    go o (full l f) q = absurd (ground (arith, q))
    go o (no_space l f) q = absurd (ground (arith, q))
    go o (created disk' table' b' sector sectors h c) q =
        let z : disk' ≡ disk₁ = same q in
        let (disk₂, table₂, b₂, f, d) =
          remove-Removed new fs at disk' table' b' name is_new c.represents sector size sectors h
            (bits b)
            (record {
              header = c.header;
              marks = c.marks;
              map_used = r.consistent.map_used;
              dir_used = r.consistent.dir_used;
            })
            (c.named name ∙ rw (strncmp_eq_refl file_name_max_len name) refl) in
        (
          disk₂,
          table₂,
          b₂,
          subst (λ x. remove new fs x name ≡ some (true, disk₂)) z f,
          record {
            named = λ m.
                d.named m
                ∙ ap (λ x. if strncmp_eq file_name_max_len name m then none else x) (c.named m)
                ∙ forgotten table name m sector c.absent;
            freed = d.freed;
            others = λ s o u p i l. d.others s o p i l ∙ c.others s o u p i l;
            represents = d.represents;
          },
        )
      where
        got : Option (Bool × Buffer) → Buffer
        got none = disk
        got (some (ok, x)) = x

        same :
            {x y : Buffer}
            → ◌≡◌ {A = Option (Bool × Buffer)} (some (true, x)) (some (true, y))
            → x ≡ y
        same k = ap got k
