-- ===== src/FileSystem/Create.antt =====
-- FileSystem::Create of code/filesys/filesys.cc as a whole: the directory, the map of the free
-- sectors and the new header, as the disk holds them afterwards.
use nachos_system_calls.Prelude.{
  ◌>>=◌, ℕ, ◌+◌, ◌^◌, ◌<◌, ◌≤◌, ◌≡◌, ◌≢◌, refl, sym, ap, subst, ◌∙◌, Bool, true, false, Option,
  some, none, List, [], ◌∷◌, length, All, get_elem?, set, pos, lt→ltb, if◌then◌else◌,
  length-tabulate, Option-cases, inl, inr, arith,
}
use nachos_system_calls.CString.{strncmp_eq}
use nachos_system_calls.Bitmap.{BitMap, div_round_up, find}
use nachos_system_calls.Bitmap.View.{IsValid, bits, is_set}
use nachos_system_calls.Bitmap.Search.{num_false, first_clear, find_full, find_free}
use nachos_system_calls.Bitmap.Clear.{num_false-set, first_clear-get_elem?, in_range}
use nachos_system_calls.Directory.{file_name_max_len, DirectoryEntry, add_file}
use nachos_system_calls.Directory.Entries.{IsEntry, add_file-IsEntry}
use nachos_system_calls.Directory.Map.{
  lookup, Unique, Full, Adds, added, present, no_room, add_file-Adds,
}
use nachos_system_calls.Disk.{sector_start}
use nachos_system_calls.FileHeader.{FileHeader}
use nachos_system_calls.FileHeader.Allocate.{Holds, Allocates, too_few, taken, allocate-Allocates}
use nachos_system_calls.FileHeader.Marks.{Marks, Marks-used, Marks-below}
use nachos_system_calls.OpenFile.{Buffer, copy}
use nachos_system_calls.OpenFile.Frame.{copy-Outside, copy-sector_start}
use nachos_system_calls.Storage.{
  words_buffer, header_words, write_header, write_directory, write_map,
}
use nachos_system_calls.Storage.Header.{Stored, fetch_header-Stored}
use nachos_system_calls.FileSystem.{FileSystem, NewMemory, create_blocks, create_entry, create}
use nachos_system_calls.FileSystem.Places.{
  IsNew, Places, Consistent, Represents, other-Outside, clear_apart, marked_size,
  load_directory_lem, load_map_lem, find_sector-found, find_sector-absent,
}
use nachos_system_calls.FileSystem.Flush.{directory_then_map}

-- What a new file leaves: its name stands for a sector that was clear and holds its header, the
-- header lists sectors that were clear, and of the sectors in use before only those of the
-- directory and the map have changed.
pub record Created (fs : FileSystem) (at : Places fs) (disk : Buffer) (table : List DirectoryEntry)
    (b : BitMap) (name : List ℕ) (size : ℕ) (disk' : Buffer) (table' : List DirectoryEntry)
    (b' : BitMap) (sector : ℕ) (sectors : List ℕ) (h : FileHeader) : Type 0 where
  pub absent : lookup table name ≡ none
  pub named :
      (m : List ℕ)
      → lookup table' m
        ≡ (if strncmp_eq file_name_max_len name m then some sector else lookup table m)
  pub number : length sectors ≡ div_round_up size 128
  pub marks : Marks (bits b) (sector ∷ sectors) (bits b')
  pub header : Stored disk' sector size sectors h
  pub others :
      (s o : ℕ)
      → get_elem? (bits b) s ≡ some true
      → s ≢ at.map_at
      → ((i : ℕ) → i < 5 → s ≢ at.dir_at i)
      → o < 128
      → disk' (sector_start s + o) ≡ disk (sector_start s + o)
  pub represents : Represents fs at disk' table' b'

-- What Create yields.
pub data MakesFile (fs : FileSystem) (at : Places fs) (disk : Buffer) (table : List DirectoryEntry)
    (b : BitMap) (name : List ℕ) (size : ℕ) : Option (Bool × Buffer) → Type 0 where
  there :
      (x : ℕ)
      → lookup table name ≡ some x
      → MakesFile fs at disk table b name size (some (false, disk))
  full :
      lookup table name ≡ none
      → Full table
      → MakesFile fs at disk table b name size (some (false, disk))
  no_space :
      lookup table name ≡ none
      → num_false (bits b) < 1 + div_round_up size 128
      → MakesFile fs at disk table b name size (some (false, disk))
  created :
      (disk' : Buffer) (table' : List DirectoryEntry) (b' : BitMap) (sector : ℕ) (sectors : List ℕ)
      (h : FileHeader)
      → Created fs at disk table b name size disk' table' b' sector sectors h
      → MakesFile fs at disk table b name size (some (true, disk'))

bits-below :
    (b : BitMap) (s : ℕ) {v : Bool} → b.num_bits ≡ 1024 → get_elem? (bits b) s ≡ some v → s < 1024
bits-below b s e h =
    omega (arith, in_range (bits b) s h, length-tabulate b.num_bits 0 (is_set b), e)

all_used : (bs : List Bool) → first_clear bs ≡ none → num_false bs ≡ 0
all_used [] h = refl
all_used (false ∷ bs) h = absurd (ground (arith, h))
all_used (true ∷ bs) h = elim (Option-cases (first_clear bs)) [
  | inl e ↦ omega (arith, all_used bs e)
  | inr (s, e) ↦ absurd (ground (arith, h, e))
]

small_file : (size : ℕ) → div_round_up size 128 ≤ 30 → size < 2 ^ 31
small_file size h = ground (arith, h)

module _ (new : NewMemory) (is_new : IsNew new) (fs : FileSystem) (at : Places fs) (disk : Buffer)
    (table : List DirectoryEntry) (b : BitMap) (r : Represents fs at disk table b) (name : List ℕ)
    (size : ℕ) (small : div_round_up size 128 ≤ 30) (absent : lookup table name ≡ none) where
  abbrev Result : Option (Bool × Buffer) → Type 0
  Result = MakesFile fs at disk table b name size

  module _ (sector : ℕ) (free : get_elem? (bits b) sector ≡ some false)
      (table' : List DirectoryEntry)
      (named : (m : List ℕ)
        → lookup table' m
          ≡ (if strncmp_eq file_name_max_len name m then some sector else lookup table m))
      (names : Unique table') (table_size : length table' ≡ length table)
      (entries : All IsEntry table') where
    -- The header, the directory and the map are written.
    flushed :
        (h : FileHeader) (b' : BitMap) (sectors : List ℕ)
        → h.num_bytes ≡ size
        → h.num_sectors ≡ div_round_up size 128
        → length sectors ≡ div_round_up size 128
        → Holds h.data_sectors 0 sectors
        → IsValid b'
        → Marks (bits b) (sector ∷ sectors) (bits b')
        → (disk₁ disk₂ disk₃ : Buffer) × (write_header disk sector h ≡ some disk₁)
          × (write_directory new.buffer new.pad fs.directory_file disk₁ table' ≡ some disk₂)
          × (write_map new.buffer fs.free_map_file disk₂ b' ≡ some disk₃)
          × ((h' : FileHeader) × Created fs at disk table b name size disk₃ table' b' sector sectors
                h')
    unfolding write_header
    flushed h b' sectors n k l holds v m =
        let disk₁ = copy disk (sector_start sector) 128 (words_buffer (header_words h)) 0 in
        let (disk₂, disk₃, e, f, represents, kept) =
          directory_then_map (consistent b' sectors v m) disk₁ new.buffer new.pad in
        let (h', stored) =
          fetch_header-Stored disk₃ sector h sectors below (omega (arith, n, small_file size small))
            (k ∙ sym l) (omega (arith, l, small))
            (Marks-below (bits b) (bits b') (sector ∷ sectors) (2 ^ 31) (omega (arith, bits_size))
              m).1
            holds
            (λ j q.
              kept sector j map_apart dir_apart q
              ∙ copy-sector_start disk (words_buffer (header_words h)) sector j q) in
        (
          disk₁,
          disk₂,
          disk₃,
          rw (lt→ltb sector 1024 below) refl,
          e,
          f,
          (
            h',
            record {
              absent = absent;
              named = named;
              number = l;
              marks = m;
              header = subst (λ x. Stored disk₃ sector x sectors h') n stored;
              others = λ s o u p q d.
                  kept s o p q d
                  ∙ copy-Outside disk (words_buffer (header_words h)) sector 0 (sector_start s + o)
                      (other-Outside s sector o (clear_apart (bits b) sector s free u) d);
              represents = represents;
            },
          ),
        )
      where
        bits_size : length (bits b) ≡ 1024
        bits_size = length-tabulate b.num_bits 0 (is_set b) ∙ r.consistent.size

        below : sector < 1024
        below = bits-below b sector r.consistent.size free

        map_apart : sector ≢ at.map_at
        map_apart e = clear_apart (bits b) sector at.map_at free r.consistent.map_used (sym e)

        dir_apart : (i : ℕ) → i < 5 → sector ≢ at.dir_at i
        dir_apart i q e =
            clear_apart (bits b) sector (at.dir_at i) free (r.consistent.dir_used i q) (sym e)

        consistent :
            (b' : BitMap) (sectors : List ℕ)
            → IsValid b'
            → Marks (bits b) (sector ∷ sectors) (bits b')
            → Consistent fs at table' b'
        consistent b' sectors v m = record {
          valid = v;
          size = marked_size b b' (sector ∷ sectors) r.consistent.size m;
          map_used =
              Marks-used (bits b) (bits b') (sector ∷ sectors) at.map_at m r.consistent.map_used;
          dir_used = λ i q.
              Marks-used (bits b) (bits b') (sector ∷ sectors) (at.dir_at i) m
                (r.consistent.dir_used i q);
          table_size = table_size ∙ r.consistent.table_size;
          names = names;
          entries = entries;
        }

    create_blocks_lem :
        (b₁ : BitMap)
        → IsValid b₁
        → bits b₁ ≡ set (bits b) sector true
        → num_false (bits b) ≡ 1 + num_false (bits b₁)
        → Result (create_blocks new fs disk table' b₁ sector size)
    unfolding create_blocks
    create_blocks_lem b₁ v e n = go (allocate-Allocates b₁ size new.header v is_new.header small)
      where
        go :
            Allocates b₁ size (div_round_up size 128) new.header
            → Result (create_blocks new fs disk table' b₁ sector size)
        go (too_few l q) = rw q (no_space absent (omega (arith, l, n)))
        go (taken l h b' b'' sectors q s k number holds v' m d v'' z) =
            let (disk₁, disk₂, disk₃, f, g, i, (h', c)) =
              flushed h b' sectors s k number holds v'
                (free, subst (λ x. Marks x sectors (bits b')) e m) in
            rw (q, f, g, i) (created disk₃ table' b' sector sectors h' c)

  create_entry_lem :
      (s : ℕ) (b₁ : BitMap)
      → get_elem? (bits b) s ≡ some false
      → IsValid b₁
      → bits b₁ ≡ set (bits b) s true
      → num_false (bits b) ≡ 1 + num_false (bits b₁)
      → Result (create_entry new fs disk table name size b₁ (pos s))
  unfolding create_entry
  create_entry_lem s b₁ free v e n =
      go (add_file table name s) refl (add_file-Adds table name s r.consistent.names)
    where
      go :
          (x : Bool × List DirectoryEntry)
          → add_file table name s ≡ x
          → Adds table name s x
          → Result (if x.0 then create_blocks new fs disk x.1 b₁ s size else some (false, disk))
      go x q (added table' named names l) =
          create_blocks_lem s free table' named names l
            (subst (λ x. All IsEntry x.1) q
              (add_file-IsEntry table name s (bits-below b s r.consistent.size free)
                r.consistent.entries))
            b₁ v e n
      go x q (present y h) = absurd (ground (arith, h, absent))
      go x q (no_room h f) = full absent f

-- Create of a file of at most thirty sectors, on a disk that holds a directory of distinct names
-- and the map of the sectors in use: it returns FALSE and leaves the disk if the name is there, if
-- no entry of the directory is free, or if too few sectors are free for the header and the blocks.
-- Otherwise it returns TRUE, and the disk again holds a directory of distinct names and a valid
-- map: the name stands for a sector that was free and now holds a header of this size, the header
-- lists as many sectors as the file needs, all of them free before, the map counts exactly these as
-- used in addition, other names stand for what they stood for, and no byte of another file changes.
pub create-MakesFile :
    (new : NewMemory) (fs : FileSystem) (at : Places fs) (disk : Buffer)
    (table : List DirectoryEntry) (b : BitMap) (name : List ℕ) (size : ℕ)
    → IsNew new
    → Represents fs at disk table b
    → div_round_up size 128 ≤ 30
    → MakesFile fs at disk table b name size (create new fs disk name size)
unfolding create create_entry
create-MakesFile new fs at disk table b name size is_new r small =
    rw (load_directory_lem is_new r) (elim (Option-cases (lookup table name)) [
      | inl absent ↦ rw (find_sector-absent table name absent, load_map_lem is_new r) (space absent)
      | inr (x, h) ↦ rw ((find_sector-found table name x r.consistent.entries h).0) (there x h)
    ])
  where
    space :
        lookup table name ≡ none
        → MakesFile fs at disk table b name size
            (find b >>= λ (m, sector). create_entry new fs disk table name size m sector)
    space absent = elim (Option-cases (first_clear (bits b))) [
      | inl none_clear ↦
          rw (find_full r.consistent.valid none_clear)
            (no_space absent (omega (arith, all_used (bits b) none_clear)))
      | inr (s, e) ↦
          let (b₁, q, v, k, z) = find_free s r.consistent.valid e in
          rw q (
            create_entry_lem new is_new fs at disk table b r name size small absent s b₁
              (first_clear-get_elem? (bits b) s e) v z
              (omega (arith, num_false-set (bits b) s e, ap num_false z)))
    ]
