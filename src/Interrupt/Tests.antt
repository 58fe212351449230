-- ===== src/Interrupt/Tests.antt =====
-- A machine with a timer that comes every hundred ticks, and the witnesses.
use nachos_system_calls.Prelude.{ℕ, ◌≡◌, refl, false, none, some, [], ◌∷◌, arith}
use nachos_system_calls.Interrupt.{
  int_on, timer_int, disk_int, PendingInterrupt, Interrupt, Calls, new_interrupt, schedule, tick,
  check_if_due,
}
use nachos_system_calls.Interrupt.Loop.{HandlersReturn}
use nachos_system_calls.Interrupt.Tick.{schedule-Handled, Ticked, tick-Ticked}

abbrev Nothing : Type 0
Nothing = Unit {0}

-- TimerHandler, which schedules its next interrupt.
abbrev timer : Calls Nothing
timer = record { handle = λ handler arg w. schedule 1 0 100 timer_int w; yield = λ w. some w }

abbrev timer_at : ℕ → PendingInterrupt
timer_at t = record { handler = 1; arg = 0; when = t; type = timer_int }

abbrev disk_at : ℕ → PendingInterrupt
disk_at t = record { handler = 1; arg = 0; when = t; type = disk_int }

abbrev running : Interrupt Nothing
running = record (new_interrupt 95 none tt) {
  level = int_on;
  pending = timer_at 100 ∷ disk_at 200 ∷ [];
}

timer-HandlersReturn : HandlersReturn timer
timer-HandlersReturn handler arg w inside mode s =
    let (w', e, h, a, b) = schedule-Handled timer 1 0 100 timer_int w (ground arith) s in (w', e, h)

tick_run :
    tick timer 2 running
    ≡ some (record running {
      total_ticks = 105;
      system_ticks = 10;
      pending = disk_at 200 ∷ timer_at 205 ∷ [];
    })
unfolding tick schedule
tick_run = refl

tick-Ticked_example :
    (w' : Interrupt Nothing) × (tick timer 2 running ≡ some w') × Ticked timer running w'
tick-Ticked_example =
    tick-Ticked timer timer-HandlersReturn 2 running refl (refl, (tt, tt)) (ground arith)

-- Two interrupts at the same time change places when CheckIfDue finds that they are not due: it
-- takes the first off and inserts it behind the second.
abbrev two_at_once : Interrupt Nothing
two_at_once = record (new_interrupt 0 none tt) { pending = timer_at 50 ∷ disk_at 50 ∷ [] }

poll_run :
    check_if_due timer false two_at_once
    ≡ some (record two_at_once { pending = disk_at 50 ∷ timer_at 50 ∷ [] }, false)
unfolding check_if_due
poll_run = refl
