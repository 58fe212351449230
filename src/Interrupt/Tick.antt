-- ===== src/Interrupt/Tick.antt =====
-- OneTick and Schedule of code/machine/interrupt.cc.
use nachos_system_calls.Prelude.{
  ℕ, ◌+◌, ◌<◌, ◌≡◌, refl, sym, ap, ap₂, ◌∙◌, subst, Bool, true, false, some, arith, ltb, leb,
  if◌then◌else◌,
}
use nachos_system_calls.Interrupt.{
  int_off, int_on, MachineStatus, is_idle, is_system, IntType, PendingInterrupt, Interrupt, Calls,
  insert_pending, schedule, advance_time, tick, user_tick, system_tick,
}
use nachos_system_calls.Interrupt.Queue.{InOrder, insert_pending-InOrder, due, due-insert}
use nachos_system_calls.Interrupt.Loop.{Handled, HandlersReturn, Polling, Runs, due_loop-Settled}

module _ {S : Type 0} (calls : Calls S) where
  -- Schedule at a time from now that is not 0 succeeds and keeps the queue in order, the time and
  -- the interrupts that are due: what the loop of OneTick relies on in a handler.
  pub schedule-Handled :
      (handler arg from_now : ℕ) (type : IntType) (w : Interrupt S)
      → 0 < from_now
      → InOrder w.pending
      → (w' : Interrupt S) × (schedule handler arg from_now type w ≡ some w')
        × Handled calls w w'
        × (w'.in_handler ≡ w.in_handler)
        × (w'.status ≡ w.status)
  unfolding schedule
  schedule-Handled handler arg from_now type w h s =
      let p : PendingInterrupt = record {
        handler = handler;
        arg = arg;
        when = w.total_ticks + from_now;
        type = type;
      } in
      (
        record w { pending = insert_pending p w.pending },
        rw (positive from_now h) refl,
        record {
          level = refl;
          total_ticks = refl;
          in_order = insert_pending-InOrder p w.pending s;
          same_due =
              due-insert w.total_ticks p w.pending
              ∙ ap (λ b. (if b then 1 else 0) + due w.total_ticks w.pending)
                  (later w.total_ticks from_now h)
              ∙ omega arith;
        },
        refl,
        refl,
      )
    where
      positive : (a : ℕ) → 0 < a → ltb 0 a ≡ true
      positive a h = ground arith

      later : (a b : ℕ) → 0 < b → leb (a + b) a ≡ false
      later a b h = ground arith

  -- The ticks of one step.
  abbrev pub step_ticks : MachineStatus → ℕ
  step_ticks status = if is_system status then system_tick else user_tick

  pub record Ticked (w w' : Interrupt S) : Type 0 where
    pub on : w'.level ≡ int_on
    pub clock : w'.total_ticks ≡ w.total_ticks + step_ticks w.status
    pub same_status : w'.status ≡ w.status
    pub in_order : InOrder w'.pending
    pub none_left : due w'.total_ticks w'.pending ≡ 0
    pub handled :
        (v : Interrupt S) × Runs calls
          (record (advance_time w) { level = int_off })
          (due (w.total_ticks + step_ticks w.status) w.pending)
          v
        × (w' ≡ record v { level = int_on })

  -- advance_time by the two statuses.
  advance_time_lem :
      (P : Interrupt S → ℕ → Type 0) (w : Interrupt S)
      → P
          (record w {
            total_ticks = w.total_ticks + system_tick;
            system_ticks = w.system_ticks + system_tick;
          })
          (w.total_ticks + system_tick)
      → P
          (record w {
            total_ticks = w.total_ticks + user_tick;
            user_ticks = w.user_ticks + user_tick;
          })
          (w.total_ticks + user_tick)
      → P (advance_time w) (w.total_ticks + step_ticks w.status)
  advance_time_lem P w h k = go (is_system w.status)
    where
      go :
          (b : Bool)
          → P
              (if b
                then record w {
                  total_ticks = w.total_ticks + system_tick;
                  system_ticks = w.system_ticks + system_tick;
                }
                else record w {
                  total_ticks = w.total_ticks + user_tick;
                  user_ticks = w.user_ticks + user_tick;
                })
              (w.total_ticks + (if b then system_tick else user_tick))
      go true = h
      go false = k

  record Advanced (w w₁ : Interrupt S) (now : ℕ) : Type 0 where
    total : w₁.total_ticks ≡ now
    pending : w₁.pending ≡ w.pending
    status : w₁.status ≡ w.status

  advance_time-Advanced :
      (w : Interrupt S) → Advanced w (advance_time w) (w.total_ticks + step_ticks w.status)
  advance_time-Advanced w =
      advance_time_lem (Advanced w) w record { total = refl; pending = refl; status = refl }
        record { total = refl; pending = refl; status = refl }

  -- OneTick, up to a yield that a handler asked for, of a machine that is not idle, with its queue
  -- in order, handlers that return, and one round more than there are interrupts due at the new
  -- time: it ends with the interrupts on, the time is 10 ticks later in system mode and one tick
  -- otherwise, and as many handlers have been called as interrupts were due by then, each time that
  -- of the first of the queue, until none is due.
  pub tick-Ticked :
      HandlersReturn calls
      → (fuel : ℕ) (w : Interrupt S) → is_idle w.status ≡ false
      → InOrder w.pending
      → due (w.total_ticks + step_ticks w.status) w.pending < fuel
      → (w' : Interrupt S) × (tick calls fuel w ≡ some w') × Ticked w w'
  unfolding tick
  tick-Ticked handlers fuel w awake s h =
      let a = advance_time-Advanced w in
      let w₁ = record (advance_time w) { level = int_off } in
      let poll : Polling calls w₁ = record {
        off = refl;
        awake = ap is_idle a.status ∙ awake;
        in_order = subst InOrder (sym a.pending) s;
      } in
      let same : due w₁.total_ticks w₁.pending
          ≡ due (w.total_ticks + step_ticks w.status) w.pending =
        ap₂ due a.total a.pending in
      let (w', e, z) = due_loop-Settled calls handlers fuel w₁ poll (omega (arith, same, h)) in
      (
        record w' { level = int_on },
        rw e refl,
        record {
          on = refl;
          clock = z.same_time ∙ a.total;
          same_status = z.same_status ∙ a.status;
          in_order = z.polling.in_order;
          none_left = ap (λ n. due n w'.pending) z.same_time ∙ z.none_left;
          handled = (w', subst (λ n. Runs calls w₁ n w') same z.handled, refl);
        },
      )
