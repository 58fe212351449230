-- ===== src/FileSystem/Flush.antt =====
-- The changes written back to the two files, in the order of FileSystem::Create and in that of
-- FileSystem::Remove of code/filesys/filesys.cc.
use nachos_system_calls.Prelude.{◌*◌, ◌≡◌, sym, ◌∙◌, some, List, length, arith}
use nachos_system_calls.Bitmap.{BitMap}
use nachos_system_calls.Directory.{DirectoryEntry}
use nachos_system_calls.OpenFile.{Buffer}
use nachos_system_calls.OpenFile.ReadAt.{content}
use nachos_system_calls.Storage.{read_words, read_table, write_directory, write_map}
use nachos_system_calls.Storage.Words.{read_words_congr, read_table_congr}
use nachos_system_calls.Storage.Contents.{
  sectors_for, Untouched, write_map_lem, write_directory_lem,
}
use nachos_system_calls.FileSystem.{FileSystem}
use nachos_system_calls.FileSystem.Places.{
  Places, Consistent, Represents, OthersKept, num_words_lem, map_file_lem, dir_file_lem, kept,
  content_kept,
}

module _ {fs : FileSystem} {at : Places fs} {table : List DirectoryEntry} {b : BitMap}
    (c : Consistent fs at table b) (disk new pad : Buffer) where
  words : b.num_words ≡ 32
  words = num_words_lem c.valid c.size

  -- A write of the one file leaves the other.
  map_kept :
      (disk disk' : Buffer)
      → Untouched at.dir_at (sectors_for (length table * 60)) disk disk'
      → read_words b.num_words 0 (content disk' (λ i. at.map_at))
        ≡ read_words b.num_words 0 (content disk (λ i. at.map_at))
  map_kept disk disk' u = read_words_congr b.num_words _ _ (λ p l.
      content_kept at.dir_at (sectors_for (length table * 60)) disk disk' u (λ i. at.map_at) 1 p
        (λ i j p q e. at.apart j (omega (arith, q, c.table_size)) (sym e))
        (omega (arith, l, words)))

  dir_kept :
      (disk disk' : Buffer)
      → Untouched (λ i. at.map_at) (sectors_for (b.num_words * 4)) disk disk'
      → read_table (length table) (content disk' at.dir_at)
        ≡ read_table (length table) (content disk at.dir_at)
  dir_kept disk disk' u = read_table_congr (length table) _ _ (λ p l.
      content_kept (λ i. at.map_at) (sectors_for (b.num_words * 4)) disk disk' u at.dir_at 5 p
        (λ i j p q e. at.apart i p e) (omega (arith, l, c.table_size)))

  map_others :
      (disk disk' : Buffer)
      → Untouched (λ i. at.map_at) (sectors_for (b.num_words * 4)) disk disk'
      → OthersKept fs at disk disk'
  map_others disk disk' u s o m d l =
      kept (λ i. at.map_at) (sectors_for (b.num_words * 4)) disk disk' u s o (λ i q. m) l

  dir_others :
      (disk disk' : Buffer)
      → Untouched at.dir_at (sectors_for (length table * 60)) disk disk'
      → OthersKept fs at disk disk'
  dir_others disk disk' u s o m d l =
      kept at.dir_at (sectors_for (length table * 60)) disk disk' u s o
        (λ i q. d i (omega (arith, q, c.table_size))) l

  pub directory_then_map :
      (disk₁ disk₂ : Buffer) × (write_directory new pad fs.directory_file disk table ≡ some disk₁)
      × (write_map new fs.free_map_file disk₁ b ≡ some disk₂)
      × Represents fs at disk₂ table b
      × OthersKept fs at disk disk₂
  directory_then_map =
      let (disk₁, e, f, u) =
        write_directory_lem fs.directory_file at.dir_at table (dir_file_lem c) disk new pad
          c.entries in
      let (disk₂, e', f', u') =
        write_map_lem fs.free_map_file (λ i. at.map_at) b (map_file_lem c) disk₁ new c.valid in
      (
        disk₁,
        disk₂,
        e,
        e',
        record { consistent = c; map_bytes = f'; table_bytes = dir_kept disk₁ disk₂ u' ∙ f },
        λ s o m d l. map_others disk₁ disk₂ u' s o m d l ∙ dir_others disk disk₁ u s o m d l,
      )

  pub map_then_directory :
      (disk₁ disk₂ : Buffer) × (write_map new fs.free_map_file disk b ≡ some disk₁)
      × (write_directory new pad fs.directory_file disk₁ table ≡ some disk₂)
      × Represents fs at disk₂ table b
      × OthersKept fs at disk disk₂
  map_then_directory =
      let (disk₁, e, f, u) =
        write_map_lem fs.free_map_file (λ i. at.map_at) b (map_file_lem c) disk new c.valid in
      let (disk₂, e', f', u') =
        write_directory_lem fs.directory_file at.dir_at table (dir_file_lem c) disk₁ new pad
          c.entries in
      (
        disk₁,
        disk₂,
        e,
        e',
        record { consistent = c; map_bytes = map_kept disk₁ disk₂ u' ∙ f; table_bytes = f' },
        λ s o m d l. dir_others disk₁ disk₂ u' s o m d l ∙ map_others disk disk₁ u s o m d l,
      )
