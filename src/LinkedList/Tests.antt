-- ===== src/LinkedList/Tests.antt =====
-- Runs of code/threads/list.cc, and the witnesses.
use nachos_system_calls.Prelude.{
  ℕ, ◌≡◌, ◌≢◌, refl, false, none, some, List, [], ◌∷◌, ℤ, pos, arith, ◌==◌, if◌then◌else◌,
}
use nachos_system_calls.LinkedList.{Heap, LinkedList, sorted_insert}
use nachos_system_calls.LinkedList.Chain.{Cell, node, IsList}
use nachos_system_calls.LinkedList.Sorted.{IsSorted}
use nachos_system_calls.LinkedList.Refine.{Adds, sorted_insert-IsSorted}
use nachos_system_calls.LinkedList.Remove.{Removes, sorted_remove-Removes}

abbrev cell : ℕ → ℤ → ℕ → Cell
cell a k i = record { addr = a; key = k; item = i }

-- The keys 3 and 8, at the addresses 16 and 32.
abbrev two_cells : List Cell
two_cells = cell 16 (pos 3) 100 ∷ cell 32 (pos 8) 200 ∷ []

abbrev two : LinkedList
two = record { first = 16; last = 32 }

abbrev heap : Heap
heap a =
    if a == 16
    then some (node 32 (cell 16 (pos 3) 100))
    else (if a == 32 then some (node 0 (cell 32 (pos 8) 200)) else none)

differ : (a b : ℕ) → (a == b) ≡ false → a ≢ b
differ a b h e = absurd (ground arith)

two-IsList : IsList heap two two_cells
two-IsList = record {
  chain = (
    refl,
    differ 16 0 refl,
    (differ 32 16 refl, tt),
    (32, refl, (refl, differ 32 0 refl, tt, (0, refl, refl))),
  );
  last = refl;
}

sorted_insert-IsSorted_example :
    Adds heap
      (cell 48 (pos 3) 300)
      two_cells
      (cell 16 (pos 3) 100 ∷ cell 48 (pos 3) 300 ∷ cell 32 (pos 8) 200 ∷ [])
      (sorted_insert 2 48 300 (pos 3) two heap)
    × IsSorted
        (λ (c : Cell). c.key)
        (cell 16 (pos 3) 100 ∷ cell 48 (pos 3) 300 ∷ cell 32 (pos 8) 200 ∷ [])
sorted_insert-IsSorted_example =
    sorted_insert-IsSorted heap two (cell 48 (pos 3) 300) (differ 48 0 refl) two_cells 2 two-IsList
      (refl, (tt, tt)) (differ 16 48 refl, (differ 32 48 refl, tt)) (ground arith)

sorted_remove-Removes_example : Removes heap two two_cells
sorted_remove-Removes_example = sorted_remove-Removes heap two two_cells two-IsList
