-- ===== src/LinkedList.antt =====
-- code/threads/list.cc: class List, on a heap of its elements. NULL is the address 0; `new` and
-- `delete` belong to the C++ library, so the address of a new element is an argument.
pub mod Chain
pub mod Sorted
pub mod Loop
pub mod Refine
pub mod Remove
mod Tests
use nachos_system_calls.Prelude.{
  ℕ, zero, suc, Bool, true, false, Option, none, some, ℤ, pos, ◌>>=◌, ◌==◌, if◌then◌else◌, lt_int,
}

-- `next` is NULL at the end; `item` is a pointer to what the list keeps.
pub record ListElement : Type 0 where
  pub next : ℕ
  pub key : ℤ
  pub item : ℕ

abbrev pub Heap : Type 0
Heap = ℕ → Option ListElement

pub record LinkedList : Type 0 where
  pub first : ℕ
  pub last : ℕ

-- `*p`: none at NULL and where no element is.
unfoldable pub load : Heap → ℕ → Option ListElement
load h p = if p == 0 then none else h p

unfoldable pub write : Heap → ℕ → Option ListElement → Heap
write h p v a = if p == a then v else h a

-- `p->next = q`.
unfoldable pub set_next : Heap → ℕ → ℕ → Option Heap
unfolding load write
set_next h p q = load h p >>= λ n. some (write h p (some (record n { next = q })))

-- The constructor of an element, at the address that `new` gave.
unfoldable pub new_element : Heap → ℕ → ℕ → ℤ → Heap
unfolding write
new_element h element item sort_key =
    write h element (some (record { next = 0; key = sort_key; item = item }))

-- List::List.
abbrev pub new_list : LinkedList
new_list = record { first = 0; last = 0 }

abbrev pub is_empty : LinkedList → Bool
is_empty l = l.first == 0

unfoldable pub append : ℕ → ℕ → LinkedList → Heap → Option (LinkedList × Heap)
unfolding new_element set_next
append element item l h =
    let h₁ = new_element h element item (pos 0) in
    if is_empty l
    then some (record { first = element; last = element }, h₁)
    else (set_next h₁ l.last element >>= λ h₂. some (record l { last = element }, h₂))

unfoldable pub prepend : ℕ → ℕ → LinkedList → Heap → Option (LinkedList × Heap)
unfolding new_element set_next
prepend element item l h =
    let h₁ = new_element h element item (pos 0) in
    if is_empty l
    then some (record { first = element; last = element }, h₁)
    else (set_next h₁ element l.first >>= λ h₂. some (record l { first = element }, h₂))

-- The loop of SortedInsert from `ptr` on, and the two lines behind it. It gives the heap and the
-- last element. The fuel bounds the rounds: none is also a loop that would take more.
unfoldable pub insert_loop : ℕ → Heap → ℕ → ℕ → ℤ → ℕ → Option (Heap × ℕ)
unfolding load set_next
insert_loop zero h last element sort_key ptr = none
insert_loop (suc k) h last element sort_key ptr = load h ptr >>= λ n.
    let rest = insert_loop k h last element sort_key n.next in
    if n.next == 0
    then (set_next h last element >>= λ h₁. some (h₁, element))
    else (load h n.next >>= λ m.
        if lt_int sort_key m.key
        then (set_next h element n.next >>= λ h₁. set_next h₁ ptr element >>= λ h₂. some (h₂, last))
        else rest)

unfoldable pub sorted_insert : ℕ → ℕ → ℕ → ℤ → LinkedList → Heap → Option (LinkedList × Heap)
unfolding new_element insert_loop
sorted_insert fuel element item sort_key l h =
    let h₁ = new_element h element item sort_key in
    if is_empty l
    then some (record { first = element; last = element }, h₁)
    else (load h₁ l.first >>= λ n.
        if lt_int sort_key n.key
        then (set_next h₁ element l.first >>= λ h₂. some (record l { first = element }, h₂))
        else (insert_loop fuel h₁ l.last element sort_key l.first >>= λ (h₂, last).
            some (record l { last = last }, h₂)))

-- SortedRemove; none in the result is the NULL that it returns from an empty list, else the item
-- comes with its key, which the source stores through `keyPtr` if that is not NULL.
unfoldable pub sorted_remove : LinkedList → Heap → Option (LinkedList × Heap × Option (ℕ × ℤ))
unfolding load write
sorted_remove l h =
    if is_empty l
    then some (l, h, none)
    else (load h l.first >>= λ element.
        let l' = if l.first == l.last then new_list else record l { first = element.next } in
        some (l', write h l.first none, some (element.item, element.key)))
