-- ===== src/Semaphore/Waiting.antt =====
-- Any number of threads using one semaphore, interleaved in any order.
use nachos_system_calls.Prelude.{
  ℕ, suc, ◌+◌, ◌≤◌, ◌<◌, ◌≡◌, ◌≢◌, refl, ◌⊎◌, inl, List, [], ◌∷◌, length, length-append, arith,
  ◌++◌, append_assoc, ap, ap₂, sym, ◌∙◌, ◌==◌, Bool-cases, inr,
}
use nachos_system_calls.Semaphore.{
  Sched, Semaphore, new_semaphore, Round, took, slept, p, v, Next, idle, run, find_next_to_run,
}

-- `sched.ready` holds the threads that V has woken and that are about to make another round of
-- P; `taken` and `given` count the P and V calls that are done. The two logs are no part of the
-- code: `slept_log` has the threads that went to sleep, in that order, and `ran_log` those that the
-- scheduler has run.
pub record World : Type 0 where
  pub sched : Sched
  pub sem : Semaphore
  pub taken : ℕ
  pub given : ℕ
  pub slept_log : List ℕ
  pub ran_log : List ℕ

-- The world after thread `t` has made a round of P.
unfoldable pub after_round : World → ℕ → Round × Semaphore → World
after_round w t (took, s) = record w { sem = s; taken = w.taken + 1 }
after_round w t (slept, s) = record w { sem = s; slept_log = w.slept_log ++ (t ∷ []) }

unfoldable pub after_v : World → Sched × Semaphore → World
after_v w (k, s) = record w { sched = k; sem = s; given = w.given + 1 }

pub data Step : World → World → Type 0 where
  -- a running thread calls P
  enter : (w : World) (t : ℕ) → Step w (after_round w t (p t w.sem))
  -- the next ready thread runs and makes another round of P
  retry :
      (w : World) (t : ℕ) (k : Sched)
      → find_next_to_run w.sched ≡ run t k
      → Step w (after_round (record w { sched = k; ran_log = w.ran_log ++ (t ∷ []) }) t (p t w.sem))
  -- a thread, or an interrupt handler, calls V
  give : (w : World) → Step w (after_v w (v w.sched w.sem))

pub data Reach (s : World) : World → Type 0 where
  here : Reach s s
  next : {w u : World} → Reach s w → Step w u → Reach s u

unfoldable pub start : ℕ → Sched → World
start initial_value k = record {
  sched = k;
  sem = new_semaphore initial_value;
  taken = 0;
  given = 0;
  slept_log = [];
  ran_log = [];
}

pub record Inv (i : ℕ) (w : World) : Type 0 where
  pub counted : w.sem.value + w.taken ≡ i + w.given
  pub awake : (w.sem.queue ≡ []) ⊎ (w.sem.value ≤ length w.sched.ready)

start-Inv : (i : ℕ) (k : Sched) → Inv i (start i k)
unfolding start new_semaphore
start-Inv i k = record { counted = refl; awake = inl refl }

round-Inv :
    (i : ℕ) (w : World) (t : ℕ) (r log : List ℕ)
    → w.sem.value + w.taken ≡ i + w.given
    → (w.sem.queue ≡ []) ⊎ (w.sem.value ≤ suc (length r))
    → Inv i (
        after_round
          (record w { sched = record { current = t; ready = r }; ran_log = log })
          t
          (p t w.sem))
unfolding after_round p
round-Inv i w t r log c a = ground arith

enter-Inv : (i : ℕ) (w : World) (t : ℕ) → Inv i w → Inv i (after_round w t (p t w.sem))
unfolding after_round p
enter-Inv i w t h = ground arith

retry-Inv :
    (i : ℕ) (w : World) (t : ℕ) (k : Sched) (r : List ℕ)
    → w.sched.ready ≡ r
    → find_next_to_run w.sched ≡ run t k
    → Inv i w
    → Inv i (after_round (record w { sched = k; ran_log = w.ran_log ++ (t ∷ []) }) t (p t w.sem))
unfolding find_next_to_run after_round p
retry-Inv i w t k [] e h v = ground arith
retry-Inv i w t k (x ∷ r) e h v = ground arith

give-Inv :
    (i : ℕ) (w : World) (q : List ℕ)
    → w.sem.queue ≡ q
    → Inv i w
    → Inv i (after_v w (v w.sched w.sem))
unfolding after_v v
give-Inv i w [] e h = ground arith
give-Inv i w (t ∷ q) e h = ground (arith, length-append w.sched.ready (t ∷ []))

-- Whatever the threads do, value plus completed P calls is the initial value plus the V calls,
-- and while a thread sleeps the ready list is at least as long as the value.
pub Reach-Inv : (i : ℕ) (k : Sched) {w : World} → Reach (start i k) w → Inv i w
Reach-Inv i k here = start-Inv i k
Reach-Inv i k (next r (enter w t)) = enter-Inv i w t (Reach-Inv i k r)
Reach-Inv i k (next r (retry w t k' e)) = retry-Inv i w t k' w.sched.ready refl e (Reach-Inv i k r)
Reach-Inv i k (next r (give w)) = give-Inv i w w.sem.queue refl (Reach-Inv i k r)

-- Never more threads are past P than the initial value and the V calls allow; with value 1 and a V
-- only by the thread that is past P, that is mutual exclusion.
pub taken-le : (i : ℕ) (k : Sched) {w : World} → Reach (start i k) w → w.taken ≤ i + w.given
taken-le i k r = omega (arith, (Reach-Inv i k r).counted)

ready-cons :
    (w : World) (xs : List ℕ)
    → w.sched.ready ≡ xs
    → 0 < length xs
    → (t : ℕ) × (k : Sched) × (find_next_to_run w.sched ≡ run t k)
unfolding find_next_to_run
ready-cons w [] e h = absurd (omega arith)
ready-cons w (t ∷ r) e h = (t, record { current = t; ready = r }, rw e)

-- The threads that were ready at the start and then those that went to sleep are, in this order,
-- those that the scheduler has run, those that are ready and those that still sleep.
abbrev InTurn : Sched → World → Type 0
InTurn k w = k.ready ++ w.slept_log ≡ w.ran_log ++ (w.sched.ready ++ w.sem.queue)

round-InTurn : (k : Sched) (w : World) (t : ℕ) → InTurn k w → InTurn k (after_round w t (p t w.sem))
unfolding after_round p
round-InTurn k w t h = elim (Bool-cases (w.sem.value == 0)) [
  | inr z ↦ rw z h
  | inl z ↦ rw z (
      sym (append_assoc k.ready w.slept_log (t ∷ []))
      ∙ ap (λ xs. xs ++ (t ∷ [])) h
      ∙ append_assoc w.ran_log (w.sched.ready ++ w.sem.queue) (t ∷ [])
      ∙ ap (λ xs. w.ran_log ++ xs) (append_assoc w.sched.ready w.sem.queue (t ∷ [])))
]

retry-InTurn :
    (k : Sched) (w : World) (t : ℕ) (k' : Sched) (r : List ℕ)
    → w.sched.ready ≡ r
    → find_next_to_run w.sched ≡ run t k'
    → InTurn k w
    → InTurn k (record w { sched = k'; ran_log = w.ran_log ++ (t ∷ []) })
unfolding find_next_to_run
retry-InTurn k w t k' [] e h o = absurd (ground (arith, rw e at h))
retry-InTurn k w t k' (x ∷ r) e h o =
    let f : ◌≡◌ {A = Next} (run x record { current = x; ready = r }) (run t k') = rw e at h in
    let z : x ≡ t = ground (arith, f) in
    let y : r ≡ k'.ready = ap ready_of f in
    o
    ∙ ap (λ xs. w.ran_log ++ (xs ++ w.sem.queue)) e
    ∙ ap₂ (λ u xs. w.ran_log ++ (u ∷ (xs ++ w.sem.queue))) z y
    ∙ sym (append_assoc w.ran_log (t ∷ []) (k'.ready ++ w.sem.queue))
  where
    ready_of : Next → List ℕ
    ready_of idle = []
    ready_of (run u s) = s.ready

give-InTurn :
    (k : Sched) (w : World) (q : List ℕ)
    → w.sem.queue ≡ q
    → InTurn k w
    → InTurn k (after_v w (v w.sched w.sem))
unfolding after_v v
give-InTurn k w [] e h = rw e (h ∙ ap (λ xs. w.ran_log ++ (w.sched.ready ++ xs)) e)
give-InTurn k w (t ∷ q) e h = rw e (
    h
    ∙ ap (λ xs. w.ran_log ++ (w.sched.ready ++ xs)) e
    ∙ ap (λ xs. w.ran_log ++ xs) (sym (append_assoc w.sched.ready (t ∷ []) q)))

Reach-InTurn : (i : ℕ) (k : Sched) {w : World} → Reach (start i k) w → InTurn k w
unfolding start new_semaphore
Reach-InTurn i k here = refl
Reach-InTurn i k (next r (enter w t)) = round-InTurn k w t (Reach-InTurn i k r)
Reach-InTurn i k (next r (retry w t k' e)) =
    round-InTurn k (record w { sched = k'; ran_log = w.ran_log ++ (t ∷ []) }) t
      (retry-InTurn k w t k' w.sched.ready refl e (Reach-InTurn i k r))
Reach-InTurn i k (next r (give w)) = give-InTurn k w w.sem.queue refl (Reach-InTurn i k r)

-- In every reachable state in which the semaphore is free while a thread sleeps on it, the
-- scheduler finds a thread, and the round of P that it makes succeeds. That thread is the next in
-- turn: of the threads that were ready at the start and then those that went to sleep, in this
-- order, the scheduler has run those in front of it and none behind, and what is left after it is
-- what is ready then and what sleeps.
pub no_lost_wakeup :
    (i : ℕ) (k : Sched) {w : World}
    → Reach (start i k) w
    → 0 < w.sem.value
    → w.sem.queue ≢ []
    → (t : ℕ) × (k' : Sched) × (find_next_to_run w.sched ≡ run t k')
      × ((p t w.sem).0 ≡ took)
      × (k.ready ++ w.slept_log ≡ w.ran_log ++ (t ∷ (k'.ready ++ w.sem.queue)))
unfolding p
no_lost_wakeup i k {w = w} r h q =
    let v = Reach-Inv i k r in
    let l : 0 < length w.sched.ready = ground arith in
    let (t, k', e) = ready-cons w w.sched.ready refl l in
    (
      t,
      k',
      e,
      ground arith,
      retry-InTurn k w t k' w.sched.ready refl e (Reach-InTurn i k r)
          ∙ append_assoc w.ran_log (t ∷ []) (k'.ready ++ w.sem.queue),
    )
