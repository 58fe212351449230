-- ===== src/LinkedList/Chain.antt =====
-- The cells that a pointer into the heap of code/threads/list.cc leads to, in their order.
use nachos_system_calls.Prelude.{
  ℕ, ◌≡◌, ◌≢◌, refl, sym, ap, ◌∙◌, Option, some, List, [], ◌∷◌, ◌++◌, All, ℤ, arith,
}
use nachos_system_calls.LinkedList.{ListElement, Heap, LinkedList, load, write, set_next}

-- An element, with its address in place of its link.
pub record Cell : Type 0 where
  pub addr : ℕ
  pub key : ℤ
  pub item : ℕ

abbrev pub node : ℕ → Cell → ListElement
node n c = record { next = n; key = c.key; item = c.item }

-- No cell of the list is at the address.
abbrev pub Absent : ℕ → List Cell → Type 0
Absent a cs = All (λ (c : Cell). c.addr ≢ a) cs

-- The links from `p` on lead through these cells, at distinct addresses, to NULL.
abbrev pub Chain : Heap → ℕ → List Cell → Type 0
Chain h p [] = p ≡ 0
Chain h p (c ∷ cs) =
    (p ≡ c.addr) × (p ≢ 0) × Absent p cs × ((n : ℕ) × (h p ≡ some (node n c)) × Chain h n cs)

abbrev pub last_from : ℕ → List Cell → ℕ
last_from a [] = a
last_from a (c ∷ cs) = last_from c.addr cs

-- The list is these cells: `first` leads through them, and `last` is the last one.
pub record IsList (h : Heap) (l : LinkedList) (cs : List Cell) : Type 0 where
  pub chain : Chain h l.first cs
  pub last : l.last ≡ last_from 0 cs

abbrev pub Agrees : Heap → Heap → List Cell → Type 0
Agrees h h' cs = All (λ (c : Cell). h' c.addr ≡ h c.addr) cs

pub Chain-agree :
    (h h' : Heap) (cs : List Cell) (p : ℕ) → Agrees h h' cs → Chain h p cs → Chain h' p cs
Chain-agree h h' [] p g ch = ch
Chain-agree h h' (c ∷ cs) p g (e, z, a, (n, q, ch)) =
    (e, z, a, (n, ap h' e ∙ g.0 ∙ ap h (sym e) ∙ q, Chain-agree h h' cs n g.1 ch))

pub write_self : (h : Heap) (p : ℕ) (v : Option ListElement) → write h p v p ≡ v
unfolding write
write_self h p v = ground arith

pub write_ne : (h : Heap) (p a : ℕ) (v : Option ListElement) → a ≢ p → write h p v a ≡ h a
unfolding write
write_ne h p a v g = ground arith

pub write-Agrees :
    (h : Heap) (p : ℕ) (v : Option ListElement) (cs : List Cell)
    → Absent p cs
    → Agrees h (write h p v) cs
write-Agrees h p v [] a = tt
write-Agrees h p v (c ∷ cs) a = (write_ne h p c.addr v a.0, write-Agrees h p v cs a.1)

pub Agrees-trans :
    (h h' h'' : Heap) (cs : List Cell) → Agrees h h' cs → Agrees h' h'' cs → Agrees h h'' cs
Agrees-trans h h' h'' [] f g = tt
Agrees-trans h h' h'' (c ∷ cs) f g = (g.0 ∙ f.0, Agrees-trans h h' h'' cs f.1 g.1)

pub load_lem : (h : Heap) (p : ℕ) → p ≢ 0 → load h p ≡ h p
unfolding load
load_lem h p z = ground arith

pub set_next_lem :
    (h : Heap) (p q : ℕ) (n : ListElement)
    → p ≢ 0
    → h p ≡ some n
    → set_next h p q ≡ some (write h p (some (record n { next = q })))
unfolding set_next
set_next_lem h p q n z e = rw (load_lem h p z, e) refl

pub Absent-append : (a : ℕ) (cs ds : List Cell) → Absent a cs → Absent a ds → Absent a (cs ++ ds)
Absent-append a [] ds f g = g
Absent-append a (c ∷ cs) ds f g = (f.0, Absent-append a cs ds f.1 g)

pub last_from-append : (a : ℕ) (cs : List Cell) (c : Cell) → last_from a (cs ++ (c ∷ [])) ≡ c.addr
last_from-append a [] c = refl
last_from-append a (d ∷ cs) c = last_from-append d.addr cs c
