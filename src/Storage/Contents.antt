-- ===== src/Storage/Contents.antt =====
-- The table of the directory and the map of the free sectors, written to their files and fetched.
use nachos_system_calls.Prelude.{
  ℕ, ◌+◌, ◌-◌, ◌*◌, ◌/◌, ◌<◌, ◌≡◌, refl, sym, ap, ap₂, subst, ◌∙◌, some, List, length, All, ◌&&◌,
  ltb, leb, if◌then◌else◌, arith,
}
use nachos_system_calls.Bitmap.{BitMap}
use nachos_system_calls.Bitmap.View.{IsValid}
use nachos_system_calls.Directory.{DirectoryEntry}
use nachos_system_calls.Directory.Entries.{IsEntry}
use nachos_system_calls.FileHeader.{file_length}
use nachos_system_calls.OpenFile.{Buffer, read_at, write_at, OpenFile}
use nachos_system_calls.OpenFile.ReadAt.{
  HasSectors, content, read_count, read_at-content, sector_of_lem,
}
use nachos_system_calls.OpenFile.Overwrite.{write_at-content}
use nachos_system_calls.OpenFile.Frame.{Outside, write_at-Outside}
use nachos_system_calls.Storage.{
  words_buffer, read_words, table_buffer, read_table, fetch_directory, write_directory, fetch_map,
  write_map,
}
use nachos_system_calls.Storage.Words.{
  read_words_congr, read_words-words_buffer, read_table_congr, read_table-table_buffer,
}

abbrev pub sectors_for : ℕ → ℕ
sectors_for size = (size + 127) / 128

-- The open file has this size, in these sectors.
pub record FileAt (f : OpenFile) (sec : ℕ → ℕ) (size : ℕ) : Type 0 where
  pub size_is : file_length f.hdr ≡ size
  pub has : HasSectors f.hdr sec (sectors_for size)
  pub distinct : (i j : ℕ) → i < sectors_for size → j < sectors_for size → sec i ≡ sec j → i ≡ j

-- Only bytes of the first `n` sectors have changed.
abbrev pub Untouched : (ℕ → ℕ) → ℕ → Buffer → Buffer → Type 0
Untouched sec n disk disk' = (at : ℕ) → ((i : ℕ) → i < n → Outside (sec i) at) → disk' at ≡ disk at

module _ (f : OpenFile) (sec : ℕ → ℕ) (size : ℕ) (file : FileAt f sec size)
    (disk new : Buffer) where
  abbrev len : ℕ
  len = file_length f.hdr

  has_len : HasSectors f.hdr sec ((len + 127) / 128)
  has_len = subst (λ n. HasSectors f.hdr sec ((n + 127) / 128)) (sym file.size_is) file.has

  whole : (len size : ℕ) → len ≡ size → read_count len size 0 ≡ size
  whole len size e = ground (arith, e)

  -- The whole file, read and written.
  fetched :
      (into : Buffer)
      → (m : Buffer) × (read_at f.hdr disk new into size 0 ≡ some (size, m))
        × ((j : ℕ) → j < size → m j ≡ content disk sec j)
  fetched into =
      let (m, e, g) = read_at-content f.hdr disk new into sec size 0 has_len in
      let w = whole len size file.size_is in
      (
        m,
        e ∙ ap (λ n. some (n, m)) w,
        λ j l.
            g j
            ∙ inside (content disk sec (0 + j)) (into j) (read_count len size 0) j w l
            ∙ ap (content disk sec) (omega arith),
      )
    where
      inside : (x y n j : ℕ) → n ≡ size → j < size → (if ltb j n then x else y) ≡ x
      inside x y n j e l = ground (arith, e, l)

  stored :
      (from : Buffer)
      → (disk' : Buffer) × (write_at f.hdr disk new from size 0 ≡ some (size, disk'))
        × ((p : ℕ) → p < size → content disk' sec p ≡ from p)
        × Untouched sec (sectors_for size) disk disk'
  stored from =
      let (disk', e, g) = write_at-content f.hdr disk new from sec size 0 has_len distinct_len in
      let w = whole len size file.size_is in
      let z = e ∙ ap (λ n. some (n, disk')) w in
      (
        disk',
        z,
        λ p l.
            g p (omega (arith, l, file.size_is))
            ∙ inside (from (p - 0)) (content disk sec p) (read_count len size 0) p w l
            ∙ ap from (omega arith),
        λ at o.
            write_at-Outside f.hdr at disk new from disk' size 0 size
              (λ m s l q.
                let k : m < sectors_for size = omega (arith, l, file.size_is) in
                subst (λ t. Outside t at)
                  (found (sym (sector_of_lem f.hdr disk sec (sectors_for size) file.has m k) ∙ q))
                  (o m k))
              z,
      )
    where
      distinct_len : (i j : ℕ) → i < sectors_for len → j < sectors_for len → sec i ≡ sec j → i ≡ j
      distinct_len i j p q e =
          file.distinct i j (omega (arith, p, file.size_is)) (omega (arith, q, file.size_is)) e

      inside : (x y n j : ℕ) → n ≡ size → j < size → (if leb 0 j && ltb j (0 + n) then x else y) ≡ x
      inside x y n j e l = ground (arith, e, l)

      found : {s t : ℕ} → some s ≡ some t → s ≡ t
      found e = ground (arith, e)

abbrev make_map : ℕ → ℕ → List ℕ → BitMap
make_map n k ws = record { num_bits = n; num_words = k; map = ws }

same_map :
    (n k : ℕ) (b : BitMap) (ws : List ℕ)
    → n ≡ b.num_bits
    → k ≡ b.num_words
    → ws ≡ b.map
    → make_map n k ws ≡ b
same_map n k b ws p q r = ap₂ (λ n k. make_map n k ws) p q ∙ ap (make_map b.num_bits b.num_words) r

module _ (f : OpenFile) (sec : ℕ → ℕ) (b : BitMap) (file : FileAt f sec (b.num_words * 4))
    (disk new : Buffer) where
  pub fetch_map_lem :
      (old : BitMap)
      → old.num_bits ≡ b.num_bits
      → old.num_words ≡ b.num_words
      → read_words b.num_words 0 (content disk sec) ≡ b.map
      → fetch_map new f disk old ≡ some b
  unfolding fetch_map
  fetch_map_lem old p q r =
      let (m, e, g) = fetched f sec (b.num_words * 4) file disk new (words_buffer old.map) in
      rw (q, e)
        (ap some (
          same_map old.num_bits b.num_words b _ p refl (
            read_words_congr b.num_words m (content disk sec) (λ j l. g j (omega (arith, l))) ∙ r)))

  pub write_map_lem :
      IsValid b
      → (disk' : Buffer) × (write_map new f disk b ≡ some disk')
        × (read_words b.num_words 0 (content disk' sec) ≡ b.map)
        × Untouched sec (sectors_for (b.num_words * 4)) disk disk'
  unfolding write_map
  write_map_lem v =
      let (disk', e, g, u) = stored f sec (b.num_words * 4) file disk new (words_buffer b.map) in
      (
        disk',
        rw e refl,
        ap (λ k. read_words k 0 (content disk' sec)) (sym v.storage)
            ∙ read_words-words_buffer b.map (content disk' sec) v.small
                (λ j l. g j (omega (arith, l, v.storage))),
        u,
      )

module _ (f : OpenFile) (sec : ℕ → ℕ) (table : List DirectoryEntry)
    (file : FileAt f sec (length table * 60)) (disk new pad : Buffer) where
  pub fetch_directory_lem :
      (old : List DirectoryEntry)
      → length old ≡ length table
      → read_table (length table) (content disk sec) ≡ table
      → fetch_directory new pad f disk old ≡ some table
  unfolding fetch_directory
  fetch_directory_lem old p r =
      let (m, e, g) = fetched f sec (length table * 60) file disk new (table_buffer pad old) in
      rw (p, e)
        (ap some (
          read_table_congr (length table) m (content disk sec) (λ j l. g j (omega (arith, l))) ∙ r))

  pub write_directory_lem :
      All IsEntry table
      → (disk' : Buffer) × (write_directory new pad f disk table ≡ some disk')
        × (read_table (length table) (content disk' sec) ≡ table)
        × Untouched sec (sectors_for (length table * 60)) disk disk'
  unfolding write_directory
  write_directory_lem a =
      let (disk', e, g, u) =
        stored f sec (length table * 60) file disk new (table_buffer pad table) in
      (
        disk',
        rw e refl,
        read_table-table_buffer table (content disk' sec) pad a (λ j l. g j (omega (arith, l))),
        u,
      )
