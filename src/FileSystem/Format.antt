-- ===== src/FileSystem/Format.antt =====
-- The constructor of code/filesys/filesys.cc with format TRUE, and with format FALSE after it.
use nachos_system_calls.Prelude.{
  ℕ, ◌+◌, ◌^◌, ◌≡◌, refl, sym, ap, subst, ◌∙◌, true, some, none, List, length, length-tabulate, All,
  get_elem?, get_or, set, pos, >>=-some, arith,
}
use nachos_system_calls.Bitmap.{BitMap, div_round_up, mark}
use nachos_system_calls.Bitmap
use nachos_system_calls.Bitmap.View.{bits, is_set}
use nachos_system_calls.Bitmap.Update.{mark_lem}
use nachos_system_calls.Bitmap.Search.{num_false, create_lem}
use nachos_system_calls.Directory.{DirectoryEntry, new_directory}
use nachos_system_calls.Directory.Entries.{
  IsRaw, length-new_directory, lookup-new_directory, new_directory-Unique, new_directory-IsEntry,
}
use nachos_system_calls.Directory.Map.{lookup}
use nachos_system_calls.Disk.{sector_start}
use nachos_system_calls.FileHeader.{FileHeader, allocate}
use nachos_system_calls.FileHeader.Marks.{
  Marks-length, Marks-below, Marks-used, Marks-num_false, Marks-was_clear, Marks-marked,
}
use nachos_system_calls.OpenFile.{Buffer, new_open_file, copy}
use nachos_system_calls.OpenFile.Frame.{copy-Outside, copy-sector_start}
use nachos_system_calls.Storage.{
  words_buffer, header_words, fetch_header, write_header, write_map, write_directory,
}
use nachos_system_calls.Storage.Header.{Stored, fetch_header-Stored, fetch_header_congr}
use nachos_system_calls.FileSystem.{FileSystem, NewMemory, open_header, format, mount}
use nachos_system_calls.FileSystem.Places.{
  IsNew, Places, Consistent, Represents, OthersKept, other-Outside, clear_apart, marked_size,
}
use nachos_system_calls.FileSystem.Flush.{map_then_directory}
use nachos_system_calls.FileSystem.Layout.{Allocated, allocated, file_at, one_sector, two_marked}

-- A formatted disk: the directory has no file, 1016 sectors are free, and the constructor with
-- format FALSE opens the same two files.
pub record Formatted (new : NewMemory) (fs : FileSystem) (disk : Buffer) : Type 0 where
  pub at : Places fs
  pub table : List DirectoryEntry
  pub b : BitMap
  pub represents : Represents fs at disk table b
  pub empty : (m : List ℕ) → lookup table m ≡ none
  pub free : num_false (bits b) ≡ 1016
  pub mounted : mount new disk ≡ some fs
  pub openf : fs.openf ≡ new.table

-- The two headers on the disk.
headers :
    (disk : Buffer) (h h' : FileHeader) (ms ds : List ℕ) (b b' b'' : BitMap)
    → b.num_bits ≡ 1024
    → Allocated b 128 h b' ms
    → Allocated b' 600 h' b'' ds
    → let disk₁ = copy disk (sector_start 0) 128 (words_buffer (header_words h)) 0 in
      let disk₂ = copy disk₁ (sector_start 1) 128 (words_buffer (header_words h')) 0 in
      ((g : FileHeader) × Stored disk₂ 0 128 ms g) × ((g' : FileHeader) × Stored disk₂ 1 600 ds g')
headers disk h h' ms ds b b' b'' n a a' =
    let disk₁ = copy disk (sector_start 0) 128 (words_buffer (header_words h)) 0 in
    let disk₂ = copy disk₁ (sector_start 1) 128 (words_buffer (header_words h')) 0 in
    let bits_size : length (bits b) ≡ 1024 = length-tabulate b.num_bits 0 (is_set b) ∙ n in
    let bits_size' : length (bits b') ≡ 1024 =
      Marks-length (bits b) (bits b') ms a.marks ∙ bits_size in
    let (g, s) =
      fetch_header-Stored disk₂ 0 h ms (omega arith) (omega (arith, a.num_bytes)) a.num_sectors
        (omega (arith, a.number))
        (Marks-below (bits b) (bits b') ms (2 ^ 31) (omega (arith, bits_size)) a.marks) a.holds
        (λ j q.
          copy-Outside disk₁ (words_buffer (header_words h')) 1 0 (sector_start 0 + j)
            (other-Outside 0 1 j (λ e. absurd (omega (arith, e))) q)
          ∙ copy-sector_start disk (words_buffer (header_words h)) 0 j q) in
    let (g', s') =
      fetch_header-Stored disk₂ 1 h' ds (omega arith) (omega (arith, a'.num_bytes)) a'.num_sectors
        (omega (arith, a'.number))
        (Marks-below (bits b') (bits b'') ds (2 ^ 31) (omega (arith, bits_size')) a'.marks) a'.holds
        (λ j q. copy-sector_start disk₁ (words_buffer (header_words h')) 1 j q) in
    (
      (g, subst (λ x. Stored disk₂ 0 x ms g) a.num_bytes s),
      (g', subst (λ x. Stored disk₂ 1 x ds g') a'.num_bytes s'),
    )

-- The disk with the two headers.
abbrev flushed : Buffer → FileHeader → FileHeader → Buffer
flushed disk h h' =
    copy (copy disk (sector_start 0) 128 (words_buffer (header_words h)) 0) (sector_start 1) 128
      (words_buffer (header_words h')) 0

module _ (new : NewMemory) (is_new : IsNew new) (raw : All IsRaw new.entries) (disk : Buffer)
    (b₂ b₃ b₄ : BitMap) (h h' : FileHeader) (ms ds : List ℕ) (size : b₂.num_bits ≡ 1024)
    (zero_used : get_elem? (bits b₂) 0 ≡ some true) (one_used : get_elem? (bits b₂) 1 ≡ some true)
    (a : Allocated b₂ 128 h b₃ ms) (a' : Allocated b₃ 600 h' b₄ ds) where
  abbrev disk₂ : Buffer
  disk₂ = flushed disk h h'

  abbrev opened : FileHeader → FileHeader → FileSystem
  opened g g' = record {
    free_map_file = new_open_file g 0;
    directory_file = new_open_file g' 0;
    openf = new.table;
  }

  places :
      (g g' : FileHeader)
      → Stored disk₂ 0 128 ms g
      → Stored disk₂ 1 600 ds g'
      → Places (opened g g')
  places g g' s s' =
      let bits_size : length (bits b₂) ≡ 1024 = length-tabulate b₂.num_bits 0 (is_set b₂) ∙ size in
      record {
        map_at = get_or ms 0 0;
        dir_at = λ i. get_or ds i 0;
        map_file =
            one_sector (new_open_file g 0) (λ i. get_or ms i 0) 128 refl
              (file_at disk₂ 0 128 0 ms g (bits b₂) (bits b₃) s a.marks bits_size (sym a.number));
        dir_file =
            file_at disk₂ 1 600 0 ds g' (bits b₃) (bits b₄) s' a'.marks
              (Marks-length (bits b₂) (bits b₃) ms a.marks ∙ bits_size) (sym a'.number);
        apart = λ i q e.
            clear_apart (bits b₃) (get_or ds i 0) (get_or ms 0 0)
              (Marks-was_clear (bits b₃) (bits b₄) ds i a'.marks (omega (arith, q, a'.number)))
              (Marks-marked (bits b₂) (bits b₃) ms 0 a.marks (omega (arith, a.number))) (sym e);
      }

  consistent :
      (g g' : FileHeader) (s : Stored disk₂ 0 128 ms g) (s' : Stored disk₂ 1 600 ds g')
      → Consistent (opened g g') (places g g' s s') (new_directory new.entries) b₄
  unfolding places
  consistent g g' s s' = record {
    valid = a'.valid;
    size = marked_size b₃ b₄ ds (marked_size b₂ b₃ ms size a.marks) a'.marks;
    map_used =
        Marks-used (bits b₃) (bits b₄) ds (get_or ms 0 0) a'.marks
          (Marks-marked (bits b₂) (bits b₃) ms 0 a.marks (omega (arith, a.number)));
    dir_used = λ i q. Marks-marked (bits b₃) (bits b₄) ds i a'.marks (omega (arith, q, a'.number));
    table_size = length-new_directory new.entries ∙ is_new.entries;
    names = new_directory-Unique new.entries;
    entries = new_directory-IsEntry new.entries raw;
  }

  -- A header stays while the directory and the map are written.
  header_kept :
      (g g' : FileHeader) (s : Stored disk₂ 0 128 ms g) (s' : Stored disk₂ 1 600 ds g')
      (disk₄ : Buffer) (t : ℕ)
      → OthersKept (opened g g') (places g g' s s') disk₂ disk₄
      → get_elem? (bits b₂) t ≡ some true
      → fetch_header disk₄ t ≡ fetch_header disk₂ t
  unfolding places
  header_kept g g' s s' disk₄ t others u = fetch_header_congr disk₂ disk₄ t (λ j q.
      others t j
        (clear_apart (bits b₂) (get_or ms 0 0) t
          (Marks-was_clear (bits b₂) (bits b₃) ms 0 a.marks (omega (arith, a.number))) u)
        (λ i p.
          clear_apart (bits b₃) (get_or ds i 0) t
            (Marks-was_clear (bits b₃) (bits b₄) ds i a'.marks (omega (arith, p, a'.number)))
            (Marks-used (bits b₂) (bits b₃) ms t a.marks u))
        q)

  -- The two files opened, and the map and the new directory written to them.
  opened_files :
      num_false (bits b₂) ≡ 1022
      → (fs : FileSystem) × (disk₃ disk' : Buffer) × (open_header disk₂ (pos 0) 0
          ≡ some fs.free_map_file)
        × (open_header disk₂ (pos 1) 0 ≡ some fs.directory_file)
        × (write_map new.buffer fs.free_map_file disk₂ b₄ ≡ some disk₃)
        × (write_directory new.buffer new.pad fs.directory_file disk₃ (new_directory new.entries)
            ≡ some disk')
        × Formatted new fs disk'
  unfolding open_header mount
  opened_files n =
      let ((g, s), (g', s')) = headers disk h h' ms ds b₂ b₃ b₄ size a a' in
      let c = consistent g g' s s' in
      let (disk₃, disk₄, e, f, r, others) = map_then_directory c disk₂ new.buffer new.pad in
      (
        opened g g',
        disk₃,
        disk₄,
        rw (s.fetched) refl,
        rw (s'.fetched) refl,
        e,
        f,
        record {
          at = places g g' s s';
          table = new_directory new.entries;
          b = b₄;
          represents = r;
          empty = lookup-new_directory new.entries;
          free = omega (
            arith,
            n,
            Marks-num_false (bits b₂) (bits b₃) ms a.marks,
            Marks-num_false (bits b₃) (bits b₄) ds a'.marks,
            a.number,
            a'.number,
          );
          mounted =
              rw
                (
                  header_kept g g' s s' disk₄ 0 others zero_used,
                  header_kept g g' s s' disk₄ 1 others one_used,
                  s.fetched,
                  s'.fetched,
                )
                refl;
          openf = refl;
        },
      )

-- The steps of the constructor one after the other.
format_run :
    (new : NewMemory) (disk : Buffer) (b₀ b₁ b₂ b₃ b₄ : BitMap) (h h' : FileHeader)
    (fs : FileSystem) (disk₃ disk' : Buffer)
    → Bitmap.create new.words 1024 ≡ some b₀
    → mark b₀ (pos 0) ≡ some b₁
    → mark b₁ (pos 1) ≡ some b₂
    → allocate b₂ 128 new.header ≡ some (true, h, b₃)
    → allocate b₃ 600 new.header ≡ some (true, h', b₄)
    → open_header (flushed disk h h') (pos 0) 0 ≡ some fs.free_map_file
    → open_header (flushed disk h h') (pos 1) 0 ≡ some fs.directory_file
    → fs.openf ≡ new.table
    → write_map new.buffer fs.free_map_file (flushed disk h h') b₄ ≡ some disk₃
    → write_directory new.buffer new.pad fs.directory_file disk₃ (new_directory new.entries)
      ≡ some disk'
    → format new disk ≡ some (fs, disk')
unfolding format write_header
format_run new disk b₀ b₁ b₂ b₃ b₄ h h' fs disk₃ disk' e₀ e₁ e₂ q q' o o' t w w' =
    >>=-some _ e₀
    ∙ (>>=-some _ e₁
        ∙ (>>=-some _ e₂
            ∙ (>>=-some _ q
                ∙ (>>=-some _ q'
                    ∙ (>>=-some _ o
                        ∙ (>>=-some _ o'
                            ∙ (>>=-some _ w
                                ∙ (>>=-some _ w'
                                    ∙ ap (λ x. some (record fs { openf = x }, disk'))
                                        (sym t)))))))))

-- The constructor with format TRUE succeeds, whatever the disk and the new memory hold: afterwards
-- the disk holds a directory without any file and a valid map of which 1016 sectors are free, and
-- the constructor with format FALSE finds the same two open files there.
pub format-Formatted :
    (new : NewMemory) (disk : Buffer)
    → IsNew new
    → All IsRaw new.entries
    → (fs : FileSystem) × (disk' : Buffer) × (format new disk ≡ some (fs, disk'))
      × Formatted new fs disk'
format-Formatted new disk is_new raw =
    let (b₀, e₀, v₀, n₀, z₀) = create_lem new.words 1024 is_new.words is_new.small in
    let (b₁, e₁, v₁, n₁, z₁) = mark_lem 0 v₀ (omega (arith, n₀)) in
    let (b₂, e₂, v₂, n₂, z₂) = mark_lem 1 v₁ (omega (arith, n₀, n₁)) in
    let (n, zero_used, one_used) =
      two_marked 1022 (bits b₂) (z₂ ∙ ap (λ x. set x 1 true) (z₁ ∙ ap (λ x. set x 0 true) z₀)) in
    let (h, b₃, ms, q, a) =
      allocated b₂ 128 new.header v₂ is_new.header (omega arith) (omega (arith, n)) in
    let (h', b₄, ds, q', a') =
      allocated b₃ 600 new.header a.valid is_new.header (omega arith)
        (omega (arith, n, Marks-num_false (bits b₂) (bits b₃) ms a.marks, a.number)) in
    let (fs, disk₃, disk', o, o', w, w', formatted) =
      opened_files new is_new raw disk b₂ b₃ b₄ h h' ms ds (n₂ ∙ n₁ ∙ n₀) zero_used one_used a a'
        n in
    (
      fs,
      disk',
      format_run new disk b₀ b₁ b₂ b₃ b₄ h h' fs disk₃ disk' e₀ e₁ e₂ q q' o o' formatted.openf w
          w',
      formatted,
    )
