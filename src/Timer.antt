-- ===== src/Timer.antt =====
-- code/machine/timer.cc, and TimerInterruptHandler of code/threads/system.cc.
pub mod Expired
mod Tests
use nachos_system_calls.Prelude.{
  ℕ, ◌+◌, ◌*◌, ◌%◌, Bool, true, false, not, Option, none, some, ◌>>=◌, if◌then◌else◌,
}
use nachos_system_calls.Interrupt.{Interrupt, timer_int, is_idle, schedule, request_yield}

abbrev pub timer_ticks : ℕ
timer_ticks = 100

-- class Timer, with its address. Its handler is TimerInterruptHandler, whose argument is not read.
pub record Timer : Type 0 where
  pub randomize : Bool
  pub this : ℕ

-- TimeOfNextInterrupt; `random` is what Random returns.
abbrev pub time_of_next_interrupt : Timer → ℕ → ℕ
time_of_next_interrupt t random =
    if t.randomize then 1 + random % (timer_ticks * 2) else timer_ticks

module _ {S : Type 0} where
  pub timer_interrupt_handler : Interrupt S → Option (Interrupt S)
  timer_interrupt_handler w = if not (is_idle w.status) then request_yield w else some w

  -- The constructor, and TimerExpired; `timer_handler` is the address of TimerHandler.
  unfoldable pub new_timer : ℕ → Timer → ℕ → Interrupt S → Option (Interrupt S)
  new_timer timer_handler t random w =
      schedule timer_handler t.this (time_of_next_interrupt t random) timer_int w

  unfoldable pub timer_expired : ℕ → Timer → ℕ → Interrupt S → Option (Interrupt S)
  unfolding timer_interrupt_handler
  timer_expired timer_handler t random w =
      schedule timer_handler t.this (time_of_next_interrupt t random) timer_int w
      >>= timer_interrupt_handler
