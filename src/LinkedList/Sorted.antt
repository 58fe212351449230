-- ===== src/LinkedList/Sorted.antt =====
-- What SortedInsert of code/threads/list.cc means to do: insertion into a list that is sorted by
-- key, behind the items with the same key.
use nachos_system_calls.Prelude.{
  ◌≡◌, refl, true, false, List, [], ◌∷◌, ℤ, pos, negsuc, arith, if◌then◌else◌, lt_int, Bool-cases,
  inl, inr,
}

module _ {A : Type 0} (key : A → ℤ) where
  abbrev pub insert : A → List A → List A
  insert x [] = x ∷ []
  insert x (y ∷ ys) =
      let rest = insert x ys in if lt_int (key x) (key y) then x ∷ y ∷ ys else y ∷ rest

  -- No item has a smaller key than the one in front of it.
  abbrev pub IsAbove : A → List A → Type 0
  IsAbove x [] = Unit {0}
  IsAbove x (y ∷ ys) = lt_int (key y) (key x) ≡ false

  abbrev pub IsSorted : List A → Type 0
  IsSorted [] = Unit {0}
  IsSorted (x ∷ xs) = IsAbove x xs × IsSorted xs

  lt_int-asym : (a b : ℤ) → lt_int a b ≡ true → lt_int b a ≡ false
  lt_int-asym (pos a) (pos b) h = ground arith
  lt_int-asym (pos a) (negsuc b) h = cc
  lt_int-asym (negsuc a) (pos b) h = refl
  lt_int-asym (negsuc a) (negsuc b) h = ground arith

  insert-IsAbove :
      (x y : A) (ys : List A)
      → lt_int (key x) (key y) ≡ false
      → IsAbove y ys
      → IsAbove y (insert x ys)
  insert-IsAbove x y [] h s = h
  insert-IsAbove x y (z ∷ zs) h s = elim (Bool-cases (lt_int (key x) (key z))) [
    | inl e ↦ rw e h
    | inr e ↦ rw e s
  ]

  pub insert-IsSorted : (x : A) (xs : List A) → IsSorted xs → IsSorted (insert x xs)
  insert-IsSorted x [] s = (tt, tt)
  insert-IsSorted x (y ∷ ys) s = elim (Bool-cases (lt_int (key x) (key y))) [
    | inl e ↦ rw e (lt_int-asym (key x) (key y) e, s)
    | inr e ↦ rw e (insert-IsAbove x y ys e s.0, insert-IsSorted x ys s.1)
  ]
