-- ===== src/FileSystem/Open.antt =====
-- FileSystem::Open and findFreeSlot of code/filesys/filesys.cc and filesys.h.
use nachos_system_calls.Prelude.{
  ℕ, zero, suc, ◌+◌, ◌<◌, ◌≤◌, ◌≡◌, refl, subst, Option, some, none, List, length, get_elem?,
  get_elem?_total, get_elem?-eq-none, set, Option-cases, inl, inr, ◌⊎◌, ℕ_discrete, arith,
}
use nachos_system_calls.Bitmap.{BitMap}
use nachos_system_calls.Directory.{DirectoryEntry}
use nachos_system_calls.Directory.Map.{lookup}
use nachos_system_calls.FileHeader.{FileHeader}
use nachos_system_calls.OpenFile.{Buffer, OpenFile, new_open_file}
use nachos_system_calls.Storage.{fetch_header}
use nachos_system_calls.FileSystem.{FileSystem, NewMemory, free_slot_from, open_header, open_file}
use nachos_system_calls.FileSystem.Places.{
  IsNew, Places, Represents, load_directory_lem, find_sector-found, find_sector-absent,
}

-- The slots from `i` on, up to `slot`, all hold an open file.
abbrev pub Taken : List (Option OpenFile) → ℕ → ℕ → Type 0
Taken openf i slot =
    (j : ℕ) → i ≤ j → j < slot → (f : OpenFile) × (get_elem? openf j ≡ some (some f))

-- The first slot from `i` on that is NULL, or `i + k` if there is none among `k` of them.
abbrev FindsSlot : ℕ → ℕ → List (Option OpenFile) → Option ℕ → Type 0
FindsSlot i k openf o =
    (slot : ℕ) × (o ≡ some slot)
    × (i ≤ slot)
    × Taken openf i slot
    × ((slot ≡ i + k) ⊎ ((slot < i + k) × (get_elem? openf slot ≡ some none)))

free_slot_from_lem :
    (k i : ℕ) (openf : List (Option OpenFile))
    → i + k ≤ length openf
    → FindsSlot i k openf (free_slot_from k i openf)
unfolding free_slot_from
free_slot_from_lem zero i openf l =
    (i, refl, omega arith, (λ j p q. absurd (omega (arith, p, q))), inl (omega arith))
free_slot_from_lem (suc k) i openf l =
    let (f, e) = get_elem?_total openf i (omega (arith, l)) in
    go f e (free_slot_from_lem k (i + 1) openf (omega (arith, l)))
  where
    go :
        (f : Option OpenFile)
        → get_elem? openf i ≡ some f
        → FindsSlot (i + 1) k openf (free_slot_from k (i + 1) openf)
        → FindsSlot i (suc k) openf (free_slot_from (suc k) i openf)
    go none e r =
        (i, rw e refl, omega arith, (λ j p q. absurd (omega (arith, p, q))), inr (omega arith, e))
    go (some g) e (slot, q, p, t, d) = (
      slot,
      rw e q,
      omega (arith, p),
      (λ j a c. elim (ℕ_discrete i j) [
        | yes z ↦ (g, subst (λ x. get_elem? openf x ≡ some (some g)) z e)
        | no z ↦ t j (ground (arith, a, z)) c
      ]),
      elim d [ inl z ↦ inl (omega (arith, z)) | inr z ↦ inr (omega (arith, z.0), z.1) ],
    )

-- What Open yields for a type.
pub data Opens (fs : FileSystem) (disk : Buffer) (table : List DirectoryEntry) (name : List ℕ)
    (type : ℕ) : Option (FileSystem × Option OpenFile) → Type 0 where
  no_slot : Taken fs.openf 2 10 → Opens fs disk table name type none
  not_there : lookup table name ≡ none → Opens fs disk table name type (some (fs, none))
  opened :
      (sector slot : ℕ) (h : FileHeader)
      → lookup table name ≡ some sector
      → fetch_header disk sector ≡ some h
      → 2 ≤ slot
      → slot < 10
      → Taken fs.openf 2 slot
      → get_elem? fs.openf slot ≡ some none
      → Opens fs disk table name type (
          some (
            record fs { openf = set fs.openf slot (some (new_open_file h type)) },
            some (new_open_file h type),
          ))

-- Open, on a disk whose files have headers that can be read, with a table of ten open files: with
-- no free slot from 2 on it reads and writes behind the table. Otherwise it returns NULL and
-- changes nothing for a name that is not in the directory; for one that is there it returns an open
-- file with the header from the disk, at position 0, which is now in the first free slot.
pub open_file-Opens :
    (new : NewMemory) (fs : FileSystem) (at : Places fs) (disk : Buffer)
    (table : List DirectoryEntry) (b : BitMap) (name : List ℕ) (type : ℕ)
    → IsNew new
    → Represents fs at disk table b
    → length fs.openf ≡ 10
    → ((x : ℕ) → lookup table name ≡ some x → (h : FileHeader) × (fetch_header disk x ≡ some h))
    → Opens fs disk table name type (open_file new fs disk name type)
unfolding open_file open_header
open_file-Opens new fs at disk table b name type is_new r ten headers =
    go (free_slot_from_lem 8 2 fs.openf (omega (arith, ten)))
  where
    go :
        FindsSlot 2 8 fs.openf (free_slot_from 8 2 fs.openf)
        → Opens fs disk table name type (open_file new fs disk name type)
    go (slot, e, p, t, inl z) =
        rw (load_directory_lem is_new r, e, get_elem?-eq-none fs.openf slot (omega (arith, z, ten)))
          (no_slot (subst (Taken fs.openf 2) z t))
    go (slot, e, p, t, inr (l, z)) = elim (Option-cases (lookup table name)) [
      | inl absent ↦
          rw (load_directory_lem is_new r, e, z, find_sector-absent table name absent)
            (not_there absent)
      | inr (x, q) ↦
          let (h, f) = headers x q in
          rw
            (
              load_directory_lem is_new r,
              e,
              z,
              (find_sector-found table name x r.consistent.entries q).0,
              f,
            )
            (opened x slot h q f p l t z)
    ]
