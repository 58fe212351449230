-- ===== src/Interrupt/Queue.antt =====
-- The queue of the pending interrupts of code/machine/interrupt.cc, in the order of their times.
use nachos_system_calls.Prelude.{
  ℕ, ◌+◌, ◌<◌, ◌≡◌, refl, false, List, [], ◌∷◌, pos, arith, ltb, leb, if◌then◌else◌, Bool-cases,
  inl, inr,
}
use nachos_system_calls.LinkedList.Sorted.{IsSorted, insert-IsSorted}
use nachos_system_calls.Interrupt.{PendingInterrupt, insert_pending}

-- By time.
abbrev pub InOrder : List PendingInterrupt → Type 0
InOrder = IsSorted (λ (p : PendingInterrupt). pos p.when)

pub insert_pending-InOrder :
    (p : PendingInterrupt) (ps : List PendingInterrupt) → InOrder ps → InOrder (insert_pending p ps)
insert_pending-InOrder p ps s = insert-IsSorted (λ (q : PendingInterrupt). pos q.when) p ps s

-- How many are due at a time.
abbrev pub due : ℕ → List PendingInterrupt → ℕ
due now [] = 0
due now (p ∷ ps) = (if leb p.when now then 1 else 0) + due now ps

pub due-insert :
    (now : ℕ) (p : PendingInterrupt) (ps : List PendingInterrupt)
    → due now (insert_pending p ps) ≡ due now (p ∷ ps)
due-insert now p [] = refl
due-insert now p (q ∷ qs) = elim (Bool-cases (ltb p.when q.when)) [
  | inl e ↦ rw e refl
  | inr e ↦ rw (e, due-insert now p qs) (omega arith)
]

-- If the first is not due, none is.
pub none_due :
    (now : ℕ) (p : PendingInterrupt) (ps : List PendingInterrupt)
    → InOrder (p ∷ ps)
    → now < p.when
    → due now (p ∷ ps) ≡ 0
none_due now p [] s h = ground arith
none_due now p (q ∷ qs) s h =
    let r = none_due now q qs s.1 (later p.when q.when s.0 h) in ground (arith, r, h)
  where
    later : (a b : ℕ) → ltb b a ≡ false → now < a → now < b
    later a b e h = ground arith
