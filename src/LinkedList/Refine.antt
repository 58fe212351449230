-- ===== src/LinkedList/Refine.antt =====
-- The operations of code/threads/list.cc on the list of the cells.
use nachos_system_calls.Prelude.{
  ℕ, ◌≤◌, ◌≡◌, ◌≢◌, refl, sym, ap, ◌∙◌, subst, Bool, true, false, Option, some, List, [], ◌∷◌, ◌++◌,
  length, ℤ, pos, arith, ◌==◌, if◌then◌else◌, ◌>>=◌, lt_int,
}
use nachos_system_calls.LinkedList.{
  Heap, LinkedList, write, set_next, new_element, append, prepend, insert_loop, sorted_insert,
}
use nachos_system_calls.LinkedList.Chain.{
  Cell, node, Absent, Chain, IsList, Chain-agree, write_self, write_ne, write-Agrees, set_next_lem,
  last_from-append,
}
use nachos_system_calls.LinkedList.Sorted.{IsSorted, insert-IsSorted}
use nachos_system_calls.LinkedList.Loop.{insert_cell, IsNew, linked, insert_loop_lem, append_last}

-- An operation that adds the cell `x`: it succeeds, the list then has these cells, and no other
-- address changes.
pub record Adds (h : Heap) (x : Cell) (before after : List Cell) (o : Option (LinkedList × Heap))
    : Type 0 where
  pub list : LinkedList
  pub heap : Heap
  pub result : o ≡ some (list, heap)
  pub is_list : IsList heap list after
  pub others : (a : ℕ) → Absent a before → a ≢ x.addr → heap a ≡ h a

module _ {h : Heap} {x : Cell} {before : List Cell} where
  Adds-result :
      {after : List Cell} (o o' : Option (LinkedList × Heap))
      → o ≡ o'
      → Adds h x before after o'
      → Adds h x before after o
  Adds-result {after} o o' e a = subst (Adds h x before after) (sym e) a

  if-Adds :
      {cs ds : List Cell} {o o' : Option (LinkedList × Heap)} (b : Bool)
      → Adds h x before cs o
      → Adds h x before ds o'
      → Adds h x before (if b then cs else ds) (if b then o else o')
  if-Adds true a a' = a
  if-Adds false a a' = a'

not_null : (p : ℕ) → p ≢ 0 → (p == 0) ≡ false
not_null p z = ground arith

-- The heap once the new element is there.
module _ (h : Heap) (l : LinkedList) (x : Cell) (z : x.addr ≢ 0) where
  abbrev h₁ : Heap
  h₁ = new_element h x.addr x.item x.key

  there : h₁ x.addr ≡ some (node 0 x)
  unfolding new_element
  there = write_self h x.addr (some (node 0 x))

  h₁-ne : (a : ℕ) → a ≢ x.addr → h₁ a ≡ h a
  unfolding new_element
  h₁-ne a g = write_ne h x.addr a (some (node 0 x)) g

  is_new : (cs : List Cell) → Absent x.addr cs → IsNew h₁ x cs
  is_new cs a = record { there = there; non_null = z; absent = a }

  kept : (p : ℕ) (cs : List Cell) → Absent x.addr cs → Chain h p cs → Chain h₁ p cs
  unfolding new_element
  kept p cs a ch = Chain-agree h h₁ cs p (write-Agrees h x.addr (some (node 0 x)) cs a) ch

  alone : (l' : LinkedList) → l' ≡ record { first = x.addr; last = x.addr } → IsList h₁ l' (x ∷ [])
  alone l' e =
      subst (λ (m : LinkedList). IsList h₁ m (x ∷ [])) (sym e)
        record { chain = (refl, z, tt, (0, there, refl)); last = refl }

  in_front :
      (c : Cell) (cs : List Cell)
      → IsList h l (c ∷ cs)
      → Absent x.addr (c ∷ cs)
      → Adds h x
          (c ∷ cs)
          (x ∷ c ∷ cs)
          (set_next h₁ x.addr l.first >>= λ h₂. some (record l { first = x.addr }, h₂))
  in_front c cs is a = record {
    list = record l { first = x.addr };
    heap = write h₁ x.addr (some (node l.first x));
    result = rw (set_next_lem h₁ x.addr l.first (node 0 x) z there) refl;
    is_list = record {
      chain = linked h₁ x (c ∷ cs) l.first (is_new (c ∷ cs) a) (kept l.first (c ∷ cs) a is.chain);
      last = is.last;
    };
    others = λ b f g. write_ne h₁ x.addr b (some (node l.first x)) g ∙ h₁-ne b g;
  }

  behind :
      (c : Cell) (cs : List Cell) (fuel : ℕ)
      → IsList h l (c ∷ cs)
      → Absent x.addr (c ∷ cs)
      → length (c ∷ cs) ≤ fuel
      → Adds h x (c ∷ cs) (c ∷ insert_cell x cs) (
          insert_loop fuel h₁ l.last x.addr x.key c.addr >>= λ (h₂, last).
          some (record l { last = last }, h₂))
  behind c cs fuel is a f =
      let e = is.chain.0 in
      let at_c = subst (λ v. Chain h₁ v (c ∷ cs)) e (kept l.first (c ∷ cs) a is.chain) in
      let (r, t, u) =
        insert_loop_lem fuel h₁ x c cs l.last (omega (arith, f)) at_c is.last (is_new (c ∷ cs) a) in
      record {
        list = record l { last = r.1 };
        heap = r.0;
        result = rw t refl;
        is_list = record {
          chain = subst (λ v. Chain r.0 v (c ∷ insert_cell x cs)) (sym e) u.chain;
          last = u.last;
        };
        others = λ b f g. u.others b f g ∙ h₁-ne b g;
      }

  -- SortedInsert of a new element, with fuel for each element of the list, inserts its cell in the
  -- order of the keys, behind equal ones, and changes no address outside the list.
  pub sorted_insert-Adds :
      (cs : List Cell) (fuel : ℕ)
      → IsList h l cs
      → Absent x.addr cs
      → length cs ≤ fuel
      → Adds h x cs (insert_cell x cs) (sorted_insert fuel x.addr x.item x.key l h)
  unfolding sorted_insert
  sorted_insert-Adds [] fuel is a f = record {
    list = record { first = x.addr; last = x.addr };
    heap = h₁;
    result = rw is.chain refl;
    is_list = alone (record { first = x.addr; last = x.addr }) refl;
    others = λ b g k. h₁-ne b k;
  }
  sorted_insert-Adds (c ∷ cs) fuel is a f =
      let (e, w, b, (n, q, ch)) = kept l.first (c ∷ cs) a is.chain in
      Adds-result {after = insert_cell x (c ∷ cs)} (sorted_insert fuel x.addr x.item x.key l h)
        (if lt_int x.key c.key
          then (set_next h₁ x.addr l.first >>= λ h₂. some (record l { first = x.addr }, h₂))
          else (insert_loop fuel h₁ l.last x.addr x.key c.addr >>= λ (h₂, last).
              some (record l { last = last }, h₂)))
        (rw (not_null l.first w, q, e) refl)
        (if-Adds (lt_int x.key c.key) (in_front c cs is a) (behind c cs fuel is a f))

  -- SortedInsert of a new element into a sorted list, with fuel for each
  -- element of the list, always succeeds; the list then has the cells of before with the new one
  -- behind those of its key, no other address changes, and the cells are sorted again.
  pub sorted_insert-IsSorted :
      (cs : List Cell) (fuel : ℕ)
      → IsList h l cs
      → IsSorted (λ (c : Cell). c.key) cs
      → Absent x.addr cs
      → length cs ≤ fuel
      → Adds h x cs (insert_cell x cs) (sorted_insert fuel x.addr x.item x.key l h)
        × IsSorted (λ (c : Cell). c.key) (insert_cell x cs)
  sorted_insert-IsSorted cs fuel is s a f =
      (sorted_insert-Adds cs fuel is a f, insert-IsSorted (λ (c : Cell). c.key) x cs s)

  -- Append and Prepend, with the key of the cell in place of their 0.
  abbrev append_with : ℤ → Option (LinkedList × Heap)
  append_with key =
      let h₁ = new_element h x.addr x.item key in
      if l.first == 0
      then some (record { first = x.addr; last = x.addr }, h₁)
      else (set_next h₁ l.last x.addr >>= λ h₂. some (record l { last = x.addr }, h₂))

  abbrev prepend_with : ℤ → Option (LinkedList × Heap)
  prepend_with key =
      let h₁ = new_element h x.addr x.item key in
      if l.first == 0
      then some (record { first = x.addr; last = x.addr }, h₁)
      else (set_next h₁ x.addr l.first >>= λ h₂. some (record l { first = x.addr }, h₂))

  first_one :
      (o : Option (LinkedList × Heap))
      → o ≡ some (record { first = x.addr; last = x.addr }, h₁)
      → Adds h x [] (x ∷ []) o
  first_one o e = record {
    list = record { first = x.addr; last = x.addr };
    heap = h₁;
    result = e;
    is_list = alone (record { first = x.addr; last = x.addr }) refl;
    others = λ b g k. h₁-ne b k;
  }

  append_with-Adds :
      (cs : List Cell)
      → IsList h l cs
      → Absent x.addr cs
      → Adds h x cs (cs ++ (x ∷ [])) (append_with x.key)
  append_with-Adds [] is a = first_one (append_with x.key) (rw is.chain refl)
  append_with-Adds (c ∷ cs) is a =
      let (e, w, ab, nq) = is.chain in
      let at_c = subst (λ v. Chain h₁ v (c ∷ cs)) e (kept l.first (c ∷ cs) a is.chain) in
      let (h₂, t, u, o) = append_last h₁ x c cs at_c (is_new (c ∷ cs) a) in
      record {
        list = record l { last = x.addr };
        heap = h₂;
        result = rw (not_null l.first w, ap (λ v. set_next h₁ v x.addr) is.last ∙ t) refl;
        is_list = record {
          chain = subst (λ v. Chain h₂ v (c ∷ cs ++ (x ∷ []))) (sym e) u;
          last = sym (last_from-append c.addr cs x);
        };
        others = λ b f g. o b f g ∙ h₁-ne b g;
      }

  prepend_with-Adds :
      (cs : List Cell)
      → IsList h l cs
      → Absent x.addr cs
      → Adds h x cs (x ∷ cs) (prepend_with x.key)
  prepend_with-Adds [] is a = first_one (prepend_with x.key) (rw is.chain refl)
  prepend_with-Adds (c ∷ cs) is a =
      Adds-result (prepend_with x.key)
        (set_next h₁ x.addr l.first >>= λ h₂. some (record l { first = x.addr }, h₂))
        (rw (not_null l.first is.chain.1) refl) (in_front c cs is a)

  -- A new element with the key 0: Append puts its cell behind the others, Prepend in front of them,
  -- and neither changes an address outside the list.
  pub append-prepend-Adds :
      (cs : List Cell)
      → x.key ≡ pos 0
      → IsList h l cs
      → Absent x.addr cs
      → Adds h x cs (cs ++ (x ∷ [])) (append x.addr x.item l h)
        × Adds h x cs (x ∷ cs) (prepend x.addr x.item l h)
  unfolding append prepend
  append-prepend-Adds cs k is a = (
    Adds-result (append x.addr x.item l h) (append_with x.key) (ap append_with (sym k))
        (append_with-Adds cs is a),
    Adds-result (prepend x.addr x.item l h) (prepend_with x.key) (ap prepend_with (sym k))
        (prepend_with-Adds cs is a),
  )
