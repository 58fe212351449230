-- ===== src/Ptable/Slots.antt =====
-- The process table as a list of slots: searches, counts, and the links from child to parent.
use nachos_system_calls.Prelude.{
  ℕ, zero, suc, ◌+◌, ◌≤◌, ◌<◌, ◌≡◌, refl, Bool, true, false, Option, none, some, List, [], ◌∷◌,
  get_elem?, set, map, length, ℤ, pos, negsuc, arith, Bool-cases, inl, inr, ◌⊎◌, ap, ◌∙◌, sym,
  get_elem?-set_self, get_elem?-set_ne, ℕ_discrete,
}
use nachos_system_calls.Bitmap.Search.{num_false}
use nachos_system_calls.Bitmap.Slots.{is_some, Tracks}
use nachos_system_calls.Pcb.{Pcb}
use nachos_system_calls.Ptable.{Ptable, max_process, find_slot}

-- The search stops at a slot in use that passes the test.
pub find_slot-some :
    (test : Pcb → Bool) (xs : List (Option Pcb)) (i : ℕ)
    → find_slot test xs ≡ some i
    → (c : Pcb) × (get_elem? xs i ≡ some (some c)) × (test c ≡ true)
unfolding find_slot
find_slot-some test [] i h = cc
find_slot-some test (none ∷ xs) zero h = absurd (ground arith)
find_slot-some test (none ∷ xs) (suc i) h = find_slot-some test xs i (ground arith)
find_slot-some test (some c ∷ xs) zero h = elim (Bool-cases (test c)) [
  | inl e ↦ (c, refl, e)
  | inr e ↦ absurd (ground arith)
]
find_slot-some test (some c ∷ xs) (suc i) h = elim (Bool-cases (test c)) [
  | inl e ↦ absurd (ground arith)
  | inr e ↦ find_slot-some test xs i (ground arith)
]

-- It fails only if no slot in use passes the test.
pub find_slot-none :
    (test : Pcb → Bool) (xs : List (Option Pcb)) (i : ℕ) (c : Pcb)
    → find_slot test xs ≡ none
    → get_elem? xs i ≡ some (some c)
    → test c ≡ false
unfolding find_slot
find_slot-none test [] i c h e = cc
find_slot-none test (none ∷ xs) zero c h e = cc
find_slot-none test (none ∷ xs) (suc i) c h e = find_slot-none test xs i c (ground arith) e
find_slot-none test (some d ∷ xs) zero c h e = ground arith
find_slot-none test (some d ∷ xs) (suc i) c h e = find_slot-none test xs i c (ground arith) e

module _ {ℓ} {A : Type ℓ} where
  pub num_false-le : (xs : List (Option A)) → num_false (map is_some xs) ≤ length xs
  num_false-le [] = omega arith
  num_false-le (none ∷ xs) = omega (arith, num_false-le xs)
  num_false-le (some x ∷ xs) = omega (arith, num_false-le xs)

  -- If as many bits are clear as there are slots, the slots are empty.
  pub all_clear :
      (xs : List (Option A)) (i : ℕ)
      → num_false (map is_some xs) ≡ length xs
      → i < length xs
      → get_elem? xs i ≡ some none
  all_clear [] i h l = absurd (omega arith)
  all_clear (none ∷ xs) zero h l = refl
  all_clear (none ∷ xs) (suc i) h l = all_clear xs i (omega arith) (omega arith)
  all_clear (some x ∷ xs) i h l = absurd (omega (arith, num_false-le xs))

  -- To fill an empty slot takes one clear bit.
  pub num_false-fill :
      (xs : List (Option A)) (i : ℕ) (a : A)
      → get_elem? xs i ≡ some none
      → num_false (map is_some (set xs i (some a))) + 1 ≡ num_false (map is_some xs)
  num_false-fill [] i a h = cc
  num_false-fill (none ∷ xs) zero a h = omega arith
  num_false-fill (some x ∷ xs) zero a h = cc
  num_false-fill (x ∷ xs) (suc i) a h = omega (arith, num_false-fill xs i a h)

  pub set_same : (xs : List A) (i : ℕ) (a : A) → get_elem? xs i ≡ some a → set xs i a ≡ xs
  set_same [] i a h = refl
  set_same (x ∷ xs) zero a h = ap (λ y. y ∷ xs) (ground arith)
  set_same (x ∷ xs) (suc i) a h = ap (λ ys. x ∷ ys) (set_same xs i a h)

  pub set-set : (xs : List A) (i : ℕ) (a b : A) → set (set xs i a) i b ≡ set xs i b
  set-set [] i a b = refl
  set-set (x ∷ xs) zero a b = refl
  set-set (x ∷ xs) (suc i) a b = ap (λ ys. x ∷ ys) (set-set xs i a b)

abbrev pub InUse : List (Option Pcb) → ℕ → Type 0
InUse xs j = (d : Pcb) × (get_elem? xs j ≡ some (some d))

pub InUse-set :
    (xs : List (Option Pcb)) (i j : ℕ) (c : Pcb)
    → i < length xs
    → InUse xs j
    → InUse (set xs i (some c)) j
InUse-set xs i j c l (d, e) = elim (ℕ_discrete i j) [
  | yes h ↦ (c, rw (← h) (get_elem?-set_self xs i (some c) l))
  | no h ↦ (d, get_elem?-set_ne xs (some c) h ∙ e)
]

-- A process without a parent, or one whose parent is in the table.
abbrev pub HasParent : List (Option Pcb) → ℤ → Type 0
HasParent xs pid = (pid ≡ negsuc 0) ⊎ ((j : ℕ) × (pid ≡ pos j) × InUse xs j)

pub HasParent-set :
    (xs : List (Option Pcb)) (i : ℕ) (c : Pcb) (pid : ℤ)
    → i < length xs
    → HasParent xs pid
    → HasParent (set xs i (some c)) pid
HasParent-set xs i c pid l (inl e) = inl e
HasParent-set xs i c pid l (inr (j, e, u)) = inr (j, e, InUse-set xs i j c l u)

-- Each process knows its own slot and has its parent in the table.
abbrev pub AllLinked : List (Option Pcb) → Type 0
AllLinked xs =
    (i : ℕ) (c : Pcb)
    → get_elem? xs i ≡ some (some c)
    → (c.process_id ≡ pos i) × HasParent xs c.parent_id

pub AllLinked-set :
    (xs : List (Option Pcb)) (i : ℕ) (c : Pcb)
    → i < length xs
    → AllLinked xs
    → c.process_id ≡ pos i
    → HasParent xs c.parent_id
    → AllLinked (set xs i (some c))
AllLinked-set xs i c l h p q j d e = elim (ℕ_discrete i j) [
  | yes s ↦
      let w : c ≡ d =
        ground (arith, get_elem?-set_self xs i (some c) l, ap (get_elem? (set xs i (some c))) s) in
      rw (← w, ← s) (p, HasParent-set xs i c c.parent_id l q)
  | no s ↦
      let (own, parent) = h j d (sym (get_elem?-set_ne xs (some c) s) ∙ e) in
      (own, HasParent-set xs i c d.parent_id l parent)
]

pub record IsValid (pt : Ptable) : Type 0 where
  pub tracks : Tracks max_process pt.bm pt.pcb
  pub unlocked : pt.bmsem.value ≡ 1
  pub linked : AllLinked pt.pcb
