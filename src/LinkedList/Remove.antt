-- ===== src/LinkedList/Remove.antt =====
-- SortedRemove of code/threads/list.cc on the list of the cells.
use nachos_system_calls.Prelude.{
  ℕ, ◌≡◌, ◌≢◌, refl, sym, ap, ◌∙◌, false, Option, none, some, List, [], ◌∷◌, ℤ, arith, ◌==◌,
  if◌then◌else◌, inl, inr, ◌⊎◌,
}
use nachos_system_calls.LinkedList.{Heap, LinkedList, write, new_list, sorted_remove}
use nachos_system_calls.LinkedList.Chain.{
  Cell, node, Absent, last_from, IsList, Chain-agree, write_self, write_ne, write-Agrees,
}

last_from-Absent : (a : ℕ) (c : Cell) (cs : List Cell) → Absent a (c ∷ cs) → a ≢ last_from c.addr cs
last_from-Absent a c [] f e = f.0 (sym e)
last_from-Absent a c (d ∷ ds) f e = last_from-Absent a d ds f.1 e

-- SortedRemove of an empty list returns NULL and changes nothing; otherwise it takes the first cell
-- off the list, gives its item and its key, deletes its element and changes no other address.
pub record Removes (h : Heap) (l : LinkedList) (cs : List Cell) : Type 0 where
  pub list : LinkedList
  pub heap : Heap
  pub taken : Option (ℕ × ℤ)
  pub result : sorted_remove l h ≡ some (list, heap, taken)
  pub outcome :
      ((cs ≡ []) × (taken ≡ none) × (list ≡ l) × (heap ≡ h))
      ⊎ ((c : Cell) × (rest : List Cell) × (cs ≡ c ∷ rest)
          × (taken ≡ some (c.item, c.key))
          × IsList heap list rest
          × (heap c.addr ≡ none)
          × ((a : ℕ) → a ≢ c.addr → heap a ≡ h a))

not_null : (p : ℕ) → p ≢ 0 → (p == 0) ≡ false
not_null p z = ground arith

take_first :
    (h : Heap) (l : LinkedList) (c : Cell) (cs : List Cell) (l' : LinkedList) (n : ℕ)
    → IsList h l (c ∷ cs)
    → h l.first ≡ some (node n c)
    → (if l.first == l.last then new_list else record l { first = n }) ≡ l'
    → IsList (write h l.first none) l' cs
    → Removes h l (c ∷ cs)
unfolding sorted_remove
take_first h l c cs l' n is q e is' =
    let w = is.chain.1 in
    let x = is.chain.0 in
    record {
      list = l';
      heap = write h l.first none;
      taken = some (c.item, c.key);
      result = rw (not_null l.first w, q, e) refl;
      outcome = inr (
        c,
        cs,
        refl,
        refl,
        is',
        ap (write h l.first none) (sym x) ∙ write_self h l.first none,
        λ a g. write_ne h l.first a none (λ z. g (z ∙ x)),
      );
    }

pub sorted_remove-Removes :
    (h : Heap) (l : LinkedList) (cs : List Cell) → IsList h l cs → Removes h l cs
unfolding sorted_remove
sorted_remove-Removes h l [] is = record {
  list = l;
  heap = h;
  taken = none;
  result = rw is.chain refl;
  outcome = inl (refl, refl, refl, refl);
}
sorted_remove-Removes h l (c ∷ []) is =
    let (e, w, ab, (n, q, z)) = is.chain in
    take_first h l c [] new_list n is q (rw (e, is.last) (ground arith))
      record { chain = refl; last = refl }
sorted_remove-Removes h l (c ∷ d ∷ ds) is =
    let (e, w, ab, (n, q, ch)) = is.chain in
    let away : l.first ≢ l.last = λ z. last_from-Absent l.first d ds ab (z ∙ is.last) in
    take_first h l c (d ∷ ds) (record l { first = n }) n is q (rw (differ l.first l.last away) refl)
      record {
        chain =
            Chain-agree h (write h l.first none) (d ∷ ds) n
              (write-Agrees h l.first none (d ∷ ds) ab) ch;
        last = is.last;
      }
  where
    differ : (a b : ℕ) → a ≢ b → (a == b) ≡ false
    differ a b g = ground arith
