-- ===== src/Interrupt/Loop.antt =====
-- The loop over the interrupts that are due, in OneTick and Idle of code/machine/interrupt.cc.
use nachos_system_calls.Prelude.{
  ℕ, zero, suc, ◌<◌, ◌≤◌, ◌≡◌, refl, sym, ap, ap₂, ◌∙◌, subst, Bool, true, false, not, some, List,
  [], ◌∷◌, arith, ltb, leb, if◌then◌else◌, Bool-cases, inl, inr, ◌>>◌, assert_that,
}
use nachos_system_calls.Interrupt.{
  int_off, system_mode, is_on, is_idle, PendingInterrupt, Interrupt, Calls, insert_pending,
  finish_load, fire, fire_unless_idle, check_pending, check_if_due, due_loop,
}
use nachos_system_calls.Interrupt.Queue.{InOrder, insert_pending-InOrder, due, due-insert, none_due}

module _ {S : Type 0} (calls : Calls S) where
  -- What the loop relies on in a handler: it returns, takes no time, leaves the interrupts off and
  -- makes nothing due at once. (Schedule, which the handlers of the devices call, only adds
  -- interrupts at a later time.)
  pub record Handled (w w' : Interrupt S) : Type 0 where
    pub level : w'.level ≡ w.level
    pub total_ticks : w'.total_ticks ≡ w.total_ticks
    pub in_order : InOrder w'.pending
    pub same_due : due w.total_ticks w'.pending ≡ due w.total_ticks w.pending

  abbrev pub HandlersReturn : Type 0
  HandlersReturn =
      (handler arg : ℕ) (w : Interrupt S)
      → w.in_handler ≡ true
      → w.status ≡ system_mode
      → InOrder w.pending
      → (w' : Interrupt S) × (calls.handle handler arg w ≡ some w') × Handled w w'

  -- What holds between two rounds.
  pub record Polling (w : Interrupt S) : Type 0 where
    pub off : w.level ≡ int_off
    pub awake : is_idle w.status ≡ false
    pub in_order : InOrder w.pending

  -- The rounds of the loop, `n` of which call a handler: it is that of the first interrupt of the
  -- queue, which is due and is taken out; the last round finds none due, and has taken out the
  -- first only to put it back.
  pub data Runs : Interrupt S → ℕ → Interrupt S → Type 0 where
    empty : (w : Interrupt S) → w.pending ≡ [] → Runs w 0 w
    puts_back :
        (w : Interrupt S) (p : PendingInterrupt) (ps : List PendingInterrupt)
        → w.pending ≡ p ∷ ps
        → w.total_ticks < p.when
        → Runs w 0 (record w { pending = insert_pending p ps })
    handles :
        (w v w' : Interrupt S) (n : ℕ) (p : PendingInterrupt) (ps : List PendingInterrupt)
        → w.pending ≡ p ∷ ps
        → p.when ≤ w.total_ticks
        → calls.handle p.handler p.arg (record w {
          pending = ps;
          machine = finish_load w.machine;
          in_handler = true;
          status = system_mode;
        })
          ≡ some v
        → Runs (record v { status = w.status; in_handler = false }) n w'
        → Runs w (suc n) w'

  -- What the loop leaves.
  pub record Settled (w w' : Interrupt S) : Type 0 where
    pub polling : Polling w'
    pub same_time : w'.total_ticks ≡ w.total_ticks
    pub same_status : w'.status ≡ w.status
    pub none_left : due w.total_ticks w'.pending ≡ 0
    pub handled : Runs w (due w.total_ticks w.pending) w'

  -- A round: it fires one interrupt that is due, or nothing is due any more.
  data Round (w : Interrupt S) : Interrupt S × Bool → Type 0 where
    fired :
        (w' : Interrupt S)
        → Polling w'
        → w'.total_ticks ≡ w.total_ticks
        → w'.status ≡ w.status
        → due w.total_ticks w.pending ≡ suc (due w.total_ticks w'.pending)
        → ((n : ℕ) (w'' : Interrupt S) → Runs w' n w'' → Runs w (suc n) w'')
        → Round w (w', true)
    quiet :
        (w' : Interrupt S)
        → Polling w'
        → w'.total_ticks ≡ w.total_ticks
        → w'.status ≡ w.status
        → due w.total_ticks w'.pending ≡ 0
        → due w.total_ticks w.pending ≡ 0
        → Runs w 0 w'
        → Round w (w', false)

  module _ (handlers : HandlersReturn) where
    fire_lem :
        (p : PendingInterrupt) (ps : List PendingInterrupt) (w : Interrupt S)
        → Polling w
        → w.pending ≡ p ∷ ps
        → leb p.when w.total_ticks ≡ true
        → (r : Interrupt S × Bool) × (fire_unless_idle calls p (record w { pending = ps }) ≡ some r)
          × Round w r
    unfolding fire_unless_idle fire
    fire_lem p ps w poll e t =
        let s : InOrder (p ∷ ps) = subst InOrder e poll.in_order in
        let (w', q, h) =
          handlers p.handler p.arg
            (record w {
              pending = ps;
              machine = finish_load w.machine;
              in_handler = true;
              status = system_mode;
            })
            refl refl s.1 in
        (
          (record w' { status = w.status; in_handler = false }, true),
          rw (poll.awake, q) refl,
          fired (record w' { status = w.status; in_handler = false })
              record { off = h.level ∙ poll.off; awake = poll.awake; in_order = h.in_order }
              h.total_ticks refl
              (ap (due w.total_ticks) e ∙ omega (arith, h.same_due, one p.when t))
              (λ n w'' r. handles w w' w'' n p ps e (ground (arith, t)) q r),
        )
      where
        count : Bool → ℕ
        count b = if b then 1 else 0

        one : (a : ℕ) → leb a w.total_ticks ≡ true → count (leb a w.total_ticks) ≡ 1
        one a t = ap count t

    check_if_due-off :
        (w : Interrupt S) (ps : List PendingInterrupt)
        → w.level ≡ int_off
        → w.pending ≡ ps
        → check_if_due calls false w ≡ check_pending calls false w ps
    unfolding check_if_due
    check_if_due-off w ps l e =
        ap₂ (λ level qs. assert_that (not (is_on level)) >> check_pending calls false w qs) l e

    check_if_due_lem :
        (w : Interrupt S)
        → Polling w
        → (r : Interrupt S × Bool) × (check_if_due calls false w ≡ some r) × Round w r
    unfolding check_pending
    check_if_due_lem w poll = go w.pending refl
      where
        go :
            (ps : List PendingInterrupt)
            → w.pending ≡ ps
            → (r : Interrupt S × Bool) × (check_if_due calls false w ≡ some r) × Round w r
        go [] e = (
          (w, false),
          check_if_due-off w [] poll.off e,
          quiet w poll refl refl (ap (due w.total_ticks) e) (ap (due w.total_ticks) e) (empty w e),
        )
        go (p ∷ ps) e = elim (Bool-cases (ltb w.total_ticks p.when)) [
          | inl t ↦
              let s : InOrder (p ∷ ps) = subst InOrder e poll.in_order in
              (
                (record w { pending = insert_pending p ps }, false),
                check_if_due-off w (p ∷ ps) poll.off e ∙ rw t refl,
                quiet (record w { pending = insert_pending p ps })
                    record {
                      off = poll.off;
                      awake = poll.awake;
                      in_order = insert_pending-InOrder p ps s.1;
                    }
                    refl refl
                    (due-insert w.total_ticks p ps
                      ∙ none_due w.total_ticks p ps s (ground (arith, t)))
                    (ap (due w.total_ticks) e ∙ none_due w.total_ticks p ps s (ground (arith, t)))
                    (puts_back w p ps e (ground (arith, t))),
              )
          | inr t ↦
              let (r, q, round) = fire_lem p ps w poll e (ground (arith, t)) in
              (r, check_if_due-off w (p ∷ ps) poll.off e ∙ rw t q, round)
        ]

    -- With the interrupts off, the machine not idle, the queue in order and handlers that return,
    -- one round more than there are interrupts due is enough for the loop: it ends, every interrupt
    -- that was due has been handled by its handler, in the order of the queue, none is due any
    -- more, and the time and the status are as before.
    pub due_loop-Settled :
        (fuel : ℕ) (w : Interrupt S)
        → Polling w
        → due w.total_ticks w.pending < fuel
        → (w' : Interrupt S) × (due_loop calls fuel w ≡ some w') × Settled w w'
    unfolding due_loop
    due_loop-Settled zero w poll h = absurd (omega arith)
    due_loop-Settled (suc fuel) w poll h =
        let (r, e, round) = check_if_due_lem w poll in go r round e (due_loop-Settled fuel)
      where
        go :
            (r : Interrupt S × Bool)
            → Round w r
            → check_if_due calls false w ≡ some r
            → ((v : Interrupt S)
                → Polling v
                → due v.total_ticks v.pending < fuel
                → (w' : Interrupt S) × (due_loop calls fuel v ≡ some w') × Settled v w')
            → (w' : Interrupt S) × (due_loop calls (suc fuel) w ≡ some w') × Settled w w'
        go r (fired v p t s d f) e next =
            let d' : due v.total_ticks v.pending < fuel =
              omega (arith, ap (λ n. due n v.pending) t, d, h) in
            let (w', q, z) = next v p d' in
            (
              w',
              rw e q,
              record {
                polling = z.polling;
                same_time = z.same_time ∙ t;
                same_status = z.same_status ∙ s;
                none_left = ap (λ n. due n w'.pending) (sym t) ∙ z.none_left;
                handled =
                    subst (λ n. Runs w n w') (sym (d ∙ ap (λ n. suc (due n v.pending)) (sym t)))
                      (f (due v.total_ticks v.pending) w' z.handled);
              },
            )
        go r (quiet v p t s z d f) e next = (
          v,
          rw e refl,
          record {
            polling = p;
            same_time = t;
            same_status = s;
            none_left = z;
            handled = subst (λ n. Runs w n v) (sym d) f;
          },
        )
