-- ===== src/Semaphore.antt =====
-- code/threads/synch.cc and synch.h, class Semaphore, with the part of code/threads/scheduler.cc
-- that it calls. Interrupts are off inside P and V, so each round below is atomic.
-- A thread is a number, the address of its Thread object.
pub mod Waiting
mod Tests
use nachos_system_calls.Prelude.{
  ℕ, zero, suc, ◌+◌, ◌-◌, Bool, true, false, List, [], ◌∷◌, ◌++◌, ◌==◌, if◌then◌else◌,
}

-- The scheduler's ready list and the running thread.
pub record Sched : Type 0 where
  pub current : ℕ
  pub ready : List ℕ

-- `value` is never negative: the initial values are not, and P stops at 0.
pub record Semaphore : Type 0 where
  pub value : ℕ
  pub queue : List ℕ

unfoldable pub new_semaphore : ℕ → Semaphore
new_semaphore initial_value = record { value = initial_value; queue = [] }

-- Scheduler::ReadyToRun.
unfoldable pub ready_to_run : Sched → ℕ → Sched
ready_to_run k t = record k { ready = k.ready ++ (t ∷ []) }

-- Scheduler::FindNextToRun, and the switch to that thread that Run makes.
pub data Next : Type 0 where
  idle : Next
  run : ℕ → Sched → Next

pub find_next_to_run : Sched → Next
find_next_to_run k = elim k.ready [ [] ↦ idle | t ∷ r ↦ run t (record { current = t; ready = r }) ]

pub data Round : Type 0 where
  took slept : Round

-- One round of the loop of P: the semaphore is taken, or the thread goes to sleep on its queue and
-- makes another round when it runs again.
unfoldable pub p : ℕ → Semaphore → Round × Semaphore
p t s =
    if s.value == 0
    then (slept, record s { queue = s.queue ++ (t ∷ []) })
    else (took, record s { value = s.value - 1 })

-- V readies the first waiter, if there is one, and raises the value in any case.
v_from : Sched → ℕ → List ℕ → Sched × Semaphore
unfolding ready_to_run
v_from k n [] = (k, record { value = n + 1; queue = [] })
v_from k n (t ∷ q) = (ready_to_run k t, record { value = n + 1; queue = q })

unfoldable pub v : Sched → Semaphore → Sched × Semaphore
unfolding v_from
v k s = v_from k s.value s.queue
