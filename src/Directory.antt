-- ===== src/Directory.antt =====
-- code/filesys/directory.cc: the table of the file names. A name is a buffer that holds a string;
-- the -1 of FindIndex and Find is `none`. List and Print only print.
mod Tests
pub mod Map
pub mod Entries
pub mod Remove
use nachos_system_calls.Prelude.{
  ℕ, zero, suc, Bool, true, false, ◌&&◌, Option, none, some, List, [], ◌∷◌, ◌++◌, get_elem?, drop,
  replicate, ◌>>=◌, if◌then◌else◌,
}
use nachos_system_calls.CString.{strncmp_eq, strncpy}

-- FileNameMaxLen.
abbrev pub file_name_max_len : ℕ
file_name_max_len = 50

pub record DirectoryEntry : Type 0 where
  pub in_use : Bool
  pub sector : ℕ
  pub name : List ℕ

-- The constructor: `storage` is what the new table holds before.
pub new_directory : List DirectoryEntry → List DirectoryEntry
new_directory [] = []
new_directory (e ∷ storage) = record e { in_use = false } ∷ new_directory storage

pub find_index : List DirectoryEntry → List ℕ → Option ℕ
find_index [] name = none
find_index (e ∷ es) name =
    let rest = find_index es name >>= λ i. some (suc i) in
    if e.in_use && strncmp_eq file_name_max_len e.name name then some 0 else rest

unfoldable pub find_file : List DirectoryEntry → List ℕ → Option ℕ
find_file table name = find_index table name >>= λ i. get_elem? table i >>= λ e. some e.sector

-- The loop of Add: the first entry that is not in use is taken.
pub take_free : List DirectoryEntry → List ℕ → ℕ → Bool × List DirectoryEntry
take_free [] name new_sector = (false, [])
take_free (e ∷ es) name new_sector =
    let rest = take_free es name new_sector in
    if e.in_use then (rest.0, e ∷ rest.1) else (
      true,
      record {
        in_use = true;
        sector = new_sector;
        name = strncpy file_name_max_len name ++ drop file_name_max_len e.name;
      }
          ∷ es,
    )

pub add_from : List DirectoryEntry → List ℕ → ℕ → Option ℕ → Bool × List DirectoryEntry
unfolding take_free
add_from table name new_sector (some i) = (false, table)
add_from table name new_sector none = take_free table name new_sector

pub add_file : List DirectoryEntry → List ℕ → ℕ → Bool × List DirectoryEntry
unfolding add_from find_index
add_file table name new_sector = add_from table name new_sector (find_index table name)

-- `table[i].inUse = FALSE`.
pub drop_entry : List DirectoryEntry → ℕ → List DirectoryEntry
drop_entry [] i = []
drop_entry (e ∷ es) zero = record e { in_use = false } ∷ es
drop_entry (e ∷ es) (suc i) = e ∷ drop_entry es i

pub remove_from : List DirectoryEntry → Option ℕ → Bool × List DirectoryEntry
unfolding drop_entry
remove_from table none = (false, table)
remove_from table (some i) = (true, drop_entry table i)

pub remove_file : List DirectoryEntry → List ℕ → Bool × List DirectoryEntry
unfolding remove_from find_index
remove_file table name = remove_from table (find_index table name)
