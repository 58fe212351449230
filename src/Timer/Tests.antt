-- ===== src/Timer/Tests.antt =====
-- The witness for code/machine/timer.cc.
use nachos_system_calls.Prelude.{◌≡◌, refl, true, none, some, [], ◌∷◌, ◌+◌}
use nachos_system_calls.Interrupt.{Interrupt, PendingInterrupt, new_interrupt, disk_int}
use nachos_system_calls.Interrupt.Loop.{Handled}
use nachos_system_calls.Timer.{Timer, timer_expired}
use nachos_system_calls.Timer.Expired.{timer_calls, timer_expired-Handled}

abbrev random_timer : Timer
random_timer = record { randomize = true; this = 64 }

abbrev disk_at_500 : PendingInterrupt
disk_at_500 = record { handler = 9; arg = 0; when = 500; type = disk_int }

abbrev in_handler : Interrupt (Unit {0})
in_handler = record (new_interrupt 400 none tt) { in_handler = true; pending = disk_at_500 ∷ [] }

-- The next interrupt of the timer comes at 600, behind that of the disk.
timer_expired-Handled_example :
    (w' : Interrupt (Unit {0})) × (timer_expired 1 random_timer 799 in_handler ≡ some w')
    × Handled (timer_calls 1 random_timer (λ now. now + 399) (λ w. some w)) in_handler w'
    × (w'.yield_on_return ≡ true)
timer_expired-Handled_example =
    timer_expired-Handled 1 random_timer (λ now. now + 399) (λ w. some w) in_handler refl refl
      (tt, tt)
