-- ===== src/FileSystem/Tests.antt =====
-- A disk formatted by the code of code/filesys/filesys.cc, a file on it, and the witnesses.
use nachos_system_calls.Prelude.{
  Bool-cases, ap, get_or, inl, inr, sym, subst, ◌∙◌, ℕ, zero, suc, ◌+◌, ◌<◌, ◌≡◌, refl, Bool, true,
  false, Option, some, none, List, [], ◌∷◌, length, replicate, All, pos, if◌then◌else◌, arith,
}
use nachos_system_calls.Bitmap.{BitMap}
use nachos_system_calls.Bitmap.View.{IsWord, bits}
use nachos_system_calls.Directory.{DirectoryEntry}
use nachos_system_calls.Directory.Entries.{IsRaw}
use nachos_system_calls.CString.{strncmp_eq, strncmp_eq_refl, strncmp_eq_left}
use nachos_system_calls.Directory.{file_name_max_len}
use nachos_system_calls.Directory.Map.{lookup, Unique, Full, lookup_same}
use nachos_system_calls.FileHeader.{FileHeader}
use nachos_system_calls.OpenFile.{Buffer}
use nachos_system_calls.FileSystem.{FileSystem, NewMemory, format, create, open_file, remove}
use nachos_system_calls.FileSystem.Places.{IsNew, Represents}
use nachos_system_calls.FileSystem.Create.{MakesFile, Created, create-MakesFile}
use nachos_system_calls.FileSystem.Open.{Opens, open_file-Opens}
use nachos_system_calls.Disk.{sector_start}
use nachos_system_calls.FileHeader.Marks.{Marks-num_false}
use nachos_system_calls.Storage.{fetch_header}
use nachos_system_calls.FileSystem.Remove.{IsFile, Removed, Undone, remove-Removed, create-remove}
use nachos_system_calls.FileSystem.Keep.{Created-IsFile, create_keeps, create_succeeds}
use nachos_system_calls.FileSystem.Format.{Formatted, format-Formatted}

abbrev garbage_entry : DirectoryEntry
garbage_entry = record { in_use = true; sector = 77; name = replicate 51 120 }

abbrev raw_entries : ℕ → List DirectoryEntry
raw_entries k = replicate k garbage_entry

-- New memory, none of it zero.
abbrev memory : NewMemory
memory = record {
  words = replicate 32 5;
  entries = raw_entries 10;
  header = record { num_bytes = 9; num_sectors = 9; data_sectors = replicate 30 (pos 9) };
  pad = λ j. 1;
  buffer = λ j. 2;
  table = replicate 10 none;
}

all_replicate {ℓ κ} : {A : Type ℓ} (P : A → Type κ) (k : ℕ) (a : A) → P a → All P (replicate k a)
all_replicate P zero a p = tt
all_replicate P (suc k) a p = (p, all_replicate P k a p)

memory-IsNew : IsNew memory
memory-IsNew = record {
  words = refl;
  small = all_replicate IsWord 32 5 (omega arith);
  entries = refl;
  header = refl;
}

memory-IsRaw : All IsRaw memory.entries
memory-IsRaw = all_replicate IsRaw 10 garbage_entry (record { word = omega arith; full = refl })

abbrev blank : Buffer
blank at = 3

abbrev name_a : List ℕ
name_a = 97 ∷ 0 ∷ []

format-Formatted_example :
    (fs : FileSystem) × (disk : Buffer) × (format memory blank ≡ some (fs, disk))
    × Formatted memory fs disk
format-Formatted_example = format-Formatted memory blank memory-IsNew memory-IsRaw

abbrev formatted :
    (fs : FileSystem) × (disk : Buffer) × (format memory blank ≡ some (fs, disk))
    × Formatted memory fs disk
formatted = format-Formatted memory blank memory-IsNew memory-IsRaw

abbrev fs : FileSystem
fs = formatted.0

abbrev disk : Buffer
disk = formatted.1

abbrev made : Formatted memory fs disk
made = formatted.3

-- A file of 300 bytes on the new disk.
create-MakesFile_example :
    MakesFile fs made.at disk made.table made.b name_a 300 (create memory fs disk name_a 300)
create-MakesFile_example =
    create-MakesFile memory fs made.at disk made.table made.b name_a 300 memory-IsNew
      made.represents (omega arith)

-- A directory where no name but one is there has a free entry among its first two.
not-Full :
    (es : List DirectoryEntry) (name : List ℕ)
    → Unique es
    → length es ≡ 10
    → ((m : List ℕ) (x : ℕ) → lookup es m ≡ some x → strncmp_eq file_name_max_len name m ≡ true)
    → ¬ Full es
not-Full [] name u l h f = absurd (omega (arith, l))
not-Full (e ∷ []) name u l h f = absurd (omega (arith, l))
not-Full (d ∷ e ∷ es) name (u, (v, w)) l h (f, (g, i)) =
    let a = h d.name d.sector (own d (e ∷ es) f) in
    let same : strncmp_eq file_name_max_len d.name e.name ≡ true =
      elim (Bool-cases (strncmp_eq file_name_max_len d.name e.name)) [
        | inl t ↦ t
        | inr t ↦
            sym (strncmp_eq_left file_name_max_len name d.name e.name a)
            ∙ h e.name e.sector (rw (t, f) (own e es g))
      ] in
    absurd (ground (arith, u f, lookup_same (e ∷ es) d.name e.name same, own e es g))
  where
    own :
        (c : DirectoryEntry) (cs : List DirectoryEntry)
        → c.in_use ≡ true
        → lookup (c ∷ cs) c.name ≡ some c.sector
    own c cs t = rw (t, strncmp_eq_refl file_name_max_len c.name) refl

abbrev name_b : List ℕ
name_b = 98 ∷ 0 ∷ []

made-not-Full : ¬ Full made.table
made-not-Full =
    not-Full made.table name_a made.represents.consistent.names
      made.represents.consistent.table_size (λ m x e. absurd (ground (arith, e, made.empty m)))

abbrev first :
    (disk' : Buffer) × (table' : List DirectoryEntry) × (b' : BitMap) × (sector : ℕ)
    × (sectors : List ℕ) × (h : FileHeader) × (create memory fs disk name_a 300
        ≡ some (true, disk'))
    × Created fs made.at disk made.table made.b name_a 300 disk' table' b' sector sectors h
first =
    create_succeeds memory fs made.at disk made.table made.b name_a 300 memory-IsNew made.represents
      (omega arith) (made.empty name_a) made-not-Full (omega (arith, made.free))

abbrev first_file :
    Created fs made.at disk made.table made.b name_a 300 first.0 first.1 first.2 first.3 first.4
      first.5
first_file = first.7

create-remove_example :
    (disk₂ : Buffer) × (table₂ : List DirectoryEntry) × (b₂ : BitMap) × (remove memory fs first.0
        name_a
      ≡ some (true, disk₂))
    × Undone fs made.at disk made.table made.b disk₂ table₂ b₂
create-remove_example =
    create-remove memory fs made.at disk first.0 made.table made.b name_a 300 memory-IsNew
      made.represents (omega arith) first.6

first-IsFile : IsFile fs made.at first.0 first.2 first.3 300 first.4 first.5 (bits made.b)
first-IsFile =
    Created-IsFile made.represents.consistent.map_used made.represents.consistent.dir_used
      first_file

first-lookup : lookup first.1 name_a ≡ some first.3
first-lookup = first_file.named name_a ∙ rw (strncmp_eq_refl file_name_max_len name_a) refl

remove-Removed_example :
    (disk' : Buffer) × (table' : List DirectoryEntry) × (b' : BitMap) × (remove memory fs first.0
        name_a
      ≡ some (true, disk'))
    × Removed fs made.at first.0 first.1 name_a (bits made.b) disk' table' b'
remove-Removed_example =
    remove-Removed memory fs made.at first.0 first.1 first.2 name_a memory-IsNew
      first_file.represents first.3 300 first.4 first.5 (bits made.b) first-IsFile first-lookup

open_file-Opens_example : Opens fs first.0 first.1 name_a 1 (open_file memory fs first.0 name_a 1)
open_file-Opens_example =
    open_file-Opens memory fs made.at first.0 first.1 first.2 name_a 1 memory-IsNew
      first_file.represents (ap length made.openf)
      (λ x e. (
        first.5,
        subst (λ s. fetch_header first.0 s ≡ some first.5) (found (sym first-lookup ∙ e))
            first_file.header.fetched,
      ))
  where
    found : {x y : ℕ} → some x ≡ some y → x ≡ y
    found e = ground (arith, e)

first-not-Full : ¬ Full first.1
first-not-Full =
    not-Full first.1 name_a first_file.represents.consistent.names
      first_file.represents.consistent.table_size
      (λ m x e.
        only (strncmp_eq file_name_max_len name_a m) (lookup made.table m) x (made.empty m)
          (sym (first_file.named m) ∙ e))
  where
    only :
        (c : Bool) (o : Option ℕ) (x : ℕ)
        → o ≡ none
        → (if c then some first.3 else o) ≡ some x
        → c ≡ true
    only true o x h e = refl
    only false o x h e = absurd (ground (arith, h, e))

names_differ : strncmp_eq file_name_max_len name_a name_b ≡ false
unfolding strncmp_eq
names_differ = refl

abbrev second :
    (disk' : Buffer) × (table' : List DirectoryEntry) × (b' : BitMap) × (sector : ℕ)
    × (sectors : List ℕ) × (h : FileHeader) × (create memory fs first.0 name_b 1000
        ≡ some (true, disk'))
    × Created fs made.at first.0 first.1 first.2 name_b 1000 disk' table' b' sector sectors h
second =
    create_succeeds memory fs made.at first.0 first.1 first.2 name_b 1000 memory-IsNew
      first_file.represents (omega arith)
      (first_file.named name_b ∙ rw names_differ (made.empty name_b)) first-not-Full
      (omega (
        arith,
        made.free,
        first_file.number,
        Marks-num_false (bits made.b) (bits first.2) (first.3 ∷ first.4) first_file.marks,
      ))

-- The file "a" when "b" is made.
create_keeps_example :
    (table' : List DirectoryEntry) × (b' : BitMap) × (bs' : List Bool) × Represents fs made.at
      second.0 table' b'
    × ((m : List ℕ) → lookup first.1 m ≡ some first.3 → lookup table' m ≡ some first.3)
    × IsFile fs made.at second.0 b' first.3 300 first.4 first.5 bs'
    × ((i o : ℕ)
        → i < length first.4
        → o < 128
        → second.0 (sector_start (get_or first.4 i 0) + o)
          ≡ first.0 (sector_start (get_or first.4 i 0) + o))
create_keeps_example =
    create_keeps memory fs made.at first.0 second.0 first.1 first.2 name_b 1000 300 first.3 first.4
      first.5 (bits made.b) memory-IsNew first_file.represents (omega arith) first-IsFile second.6
