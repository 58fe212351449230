-- ===== src/Timer/Expired.antt =====
-- TimerExpired of code/machine/timer.cc as a handler of interrupts.
use nachos_system_calls.Prelude.{
  ℕ, ◌<◌, ◌≡◌, refl, ◌∙◌, ap₂, not, ◌>>◌, assert_that, true, Option, some, arith, if◌then◌else◌,
}
use nachos_system_calls.Interrupt.{Interrupt, Calls, system_mode, timer_int, request_yield, is_idle}
use nachos_system_calls.Interrupt.Queue.{InOrder}
use nachos_system_calls.Interrupt.Loop.{Handled}
use nachos_system_calls.Interrupt.Tick.{schedule-Handled}
use nachos_system_calls.Timer.{
  Timer, time_of_next_interrupt, timer_interrupt_handler, timer_expired,
}

next_positive : (t : Timer) (random : ℕ) → 0 < time_of_next_interrupt t random
next_positive t random = ground arith

module _ {S : Type 0} (timer_handler : ℕ) (t : Timer) (random : ℕ → ℕ) where
  -- The functions behind the pointers, on a machine whose only device is the timer.
  abbrev pub timer_calls : (Interrupt S → Option (Interrupt S)) → Calls S
  timer_calls yield = record {
    handle = λ handler arg w. timer_expired timer_handler t (random w.total_ticks) w;
    yield = yield;
  }

  -- TimerExpired, called as the handler of an interrupt on a queue in order, with random intervals
  -- or fixed ones: it returns and asks for a yield; it takes no time, leaves the level of the
  -- interrupts and keeps the queue in order, and makes nothing due at once.
  pub timer_expired-Handled :
      (yield : Interrupt S → Option (Interrupt S)) (w : Interrupt S)
      → w.in_handler ≡ true
      → w.status ≡ system_mode
      → InOrder w.pending
      → (w' : Interrupt S) × (timer_expired timer_handler t (random w.total_ticks) w ≡ some w')
        × Handled (timer_calls yield) w w'
        × (w'.yield_on_return ≡ true)
  unfolding timer_expired timer_interrupt_handler request_yield
  timer_expired-Handled yield w inside mode s =
      let (w₁, e, h, a, b) =
        schedule-Handled (timer_calls yield) timer_handler t.this
          (time_of_next_interrupt t (random w.total_ticks)) timer_int w
          (next_positive t (random w.total_ticks)) s in
      (
        record w₁ { yield_on_return = true },
        rw e (asked w₁ (a ∙ inside) (b ∙ mode)),
        record {
          level = h.level;
          total_ticks = h.total_ticks;
          in_order = h.in_order;
          same_due = h.same_due;
        },
        refl,
      )
    where
      asked :
          (v : Interrupt S)
          → v.in_handler ≡ true
          → v.status ≡ system_mode
          → timer_interrupt_handler v ≡ some (record v { yield_on_return = true })
      asked v a b =
          ap₂
            (λ i m.
              if not (is_idle m)
              then (assert_that i >> some (record v { yield_on_return = true }))
              else some v)
            a b
