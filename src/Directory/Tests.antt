-- ===== src/Directory/Tests.antt =====
-- Runs of code/filesys/directory.cc, and the witnesses.
use nachos_system_calls.Prelude.{ℕ, refl, true, false, List, [], ◌∷◌}
use nachos_system_calls.Directory.{DirectoryEntry, add_file, remove_file}
use nachos_system_calls.Directory.Map.{Unique, Adds, add_file-Adds}
use nachos_system_calls.Directory.Remove.{Removes, remove_file-Removes}

-- The file "a" in sector 7, and a free entry.
abbrev sample : List DirectoryEntry
sample =
    record { in_use = true; sector = 7; name = 97 ∷ 0 ∷ [] }
    ∷ record { in_use = false; sector = 0; name = 0 ∷ [] }
    ∷ []

abbrev name_b : List ℕ
name_b = 98 ∷ 0 ∷ []

sample-Unique : Unique sample
sample-Unique = ((λ h. refl), ((λ h. refl), tt))

add_file-Adds_example : Adds sample name_b 9 (add_file sample name_b 9)
add_file-Adds_example = add_file-Adds sample name_b 9 sample-Unique

remove_file-Removes_example : Removes sample name_b (remove_file sample name_b)
remove_file-Removes_example = remove_file-Removes sample name_b sample-Unique
