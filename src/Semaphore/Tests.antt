-- ===== src/Semaphore/Tests.antt =====
-- Two threads wait on an empty semaphore, and one V comes.
use nachos_system_calls.Prelude.{ℕ, ◌+◌, ◌≡◌, ◌≤◌, [], ◌∷◌, ◌++◌, arith}
use nachos_system_calls.Semaphore.{Sched, new_semaphore, took, p, v, run, find_next_to_run}
use nachos_system_calls.Semaphore.Waiting.{
  World, Reach, here, next, enter, give, start, after_round, after_v, Inv, Reach-Inv, taken-le,
  no_lost_wakeup,
}

abbrev idle_sched : Sched
idle_sched = record { current = 7; ready = [] }

abbrev woken : World
woken = record {
  sched = record { current = 7; ready = 7 ∷ [] };
  sem = record { value = 1; queue = 8 ∷ [] };
  taken = 0;
  given = 1;
  slept_log = 7 ∷ 8 ∷ [];
  ran_log = [];
}

woken-Reach : Reach (start 0 idle_sched) woken
unfolding start new_semaphore after_round after_v p v
woken-Reach = next (next (next here (enter _ 7)) (enter _ 8)) (give _)

Reach-Inv_example : Inv 0 woken
Reach-Inv_example = Reach-Inv 0 idle_sched woken-Reach

taken-le_example : 0 ≤ 0 + 1
taken-le_example = taken-le 0 idle_sched woken-Reach

no_lost_wakeup_example :
    (t : ℕ) × (k : Sched) × (find_next_to_run woken.sched ≡ run t k)
    × ((p t woken.sem).0 ≡ took)
    × ([] ++ woken.slept_log ≡ woken.ran_log ++ (t ∷ (k.ready ++ woken.sem.queue)))
no_lost_wakeup_example = no_lost_wakeup 0 idle_sched woken-Reach (omega arith) (λ e. cc)
