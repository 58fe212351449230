-- ===== src/Stable.antt =====
-- code/threads/stable.cc and stable.h, the table of named semaphores behind the semaphore system
-- calls, with code/threads/sem.cc. The functions that would fault on an impossible index return
-- `none`.
pub mod Map
pub mod Operations
mod Tests
use nachos_system_calls.Prelude.{
  ℕ, zero, suc, ◌+◌, ◌-◌, Bool, true, false, Option, none, some, List, [], ◌∷◌, get_elem?, set,
  replicate, ℤ, pos, negsuc, ◌>>=◌, ◌==◌, if◌then◌else◌,
}
use nachos_system_calls.CString.{strncmp_eq, strncpy}
use nachos_system_calls.Bitmap
use nachos_system_calls.Bitmap.{BitMap}
use nachos_system_calls.Semaphore.{Sched, Semaphore, new_semaphore, Round, took, slept, p, v}

-- MAX_SEMAPHORE.
abbrev pub max_semaphore : ℕ
max_semaphore = 10

-- class Sem: `sem_name` is a buffer of 50 bytes.
pub record Sem : Type 0 where
  pub sem_name : List ℕ
  pub sem : Semaphore

pub new_sem : List ℕ → ℕ → Sem
unfolding new_semaphore
new_sem name init = record { sem_name = strncpy 50 name; sem = new_semaphore init }

pub record Stable : Type 0 where
  pub bm : BitMap
  pub semtab : List (Option Sem)

-- `storage` is what `new` returns for the words of the bitmap.
pub create_table : List ℕ → Option Stable
create_table storage = Bitmap.create storage max_semaphore >>= λ bm.
    some (record { bm = bm; semtab = replicate max_semaphore none })

-- The loop over the table: the slot whose name compares equal to `name` over 49 bytes.
pub find_name : List (Option Sem) → List ℕ → Option ℕ
find_name [] name = none
find_name (none ∷ xs) name = find_name xs name >>= λ i. some (suc i)
find_name (some s ∷ xs) name =
    if strncmp_eq 49 s.sem_name name then some 0 else find_name xs name >>= λ i. some (suc i)

pub find_free_slot : Stable → Option (Stable × ℤ)
find_free_slot st = Bitmap.find st.bm >>= λ (bm, slot). some (record st { bm = bm }, slot)

-- `semtab[slot] = …`
pub put_at : Stable → ℕ → Option Sem → Option Stable
put_at st i s = get_elem? st.semtab i >>= λ _. some (record st { semtab = set st.semtab i s })

-- The end of Create, with what FindFreeSlot returned.
fill_slot : List ℕ → ℕ → Stable × ℤ → Option (Stable × ℤ)
unfolding put_at
fill_slot name init (st, negsuc zero) = some (st, negsuc 0)
fill_slot name init (st, negsuc (suc n)) = none
fill_slot name init (st, pos n) =
    put_at st n (some (new_sem name init)) >>= λ st'. some (st', pos 0)

create_new : Stable → List ℕ → ℕ → Option ℕ → Option (Stable × ℤ)
unfolding find_free_slot fill_slot
create_new st name init (some i) = some (st, negsuc 0)
create_new st name init none = find_free_slot st >>= fill_slot name init

-- Create; a `name` of `none` is NULL.
pub create : Stable → Option (List ℕ) → ℤ → Option (Stable × ℤ)
unfolding create_new
create st none init = some (st, negsuc 0)
create st (some name) (negsuc n) = some (st, negsuc 0)
create st (some name) (pos init) = create_new st name init (find_name st.semtab name)

-- What Wait does when its thread runs: it returns, or the thread sleeps in P and comes back to
-- slot `i` when it is woken.
pub data Wait : Type 0 where
  returns : Stable → ℤ → Wait
  sleeps : Stable → ℕ → Wait

after_round : Stable → ℕ → List ℕ → Round × Semaphore → Option Wait
unfolding put_at
after_round st i name (took, s) =
    put_at st i (some (record { sem_name = name; sem = s })) >>= λ st'. some (returns st' (pos 0))
after_round st i name (slept, s) =
    put_at st i (some (record { sem_name = name; sem = s })) >>= λ st'. some (sleeps st' i)

-- A round of P on the semaphore in slot `i`, by thread `t`.
pub wait_on : ℕ → Stable → ℕ → Option Wait
unfolding after_round
wait_on t st i = do slot ← get_elem? st.semtab i; s ← slot; after_round st i s.sem_name (p t s.sem)

wait_found : ℕ → Stable → Option ℕ → Option Wait
unfolding wait_on
wait_found t st none = some (returns st (negsuc 0))
wait_found t st (some i) = wait_on t st i

pub wait : ℕ → Stable → Option (List ℕ) → Option Wait
unfolding wait_found
wait t st none = some (returns st (negsuc 0))
wait t st (some name) = wait_found t st (find_name st.semtab name)

signal_found : Sched → Stable → Option ℕ → Option (Sched × Stable × ℤ)
unfolding put_at
signal_found k st none = some (k, st, negsuc 0)
signal_found k st (some i) = do
  slot ← get_elem? st.semtab i
  s ← slot
  let r = v k s.sem
  st' ← put_at st i (some (record s { sem = r.1 }))
  some (r.0, st', pos 0)

pub signal : Sched → Stable → Option (List ℕ) → Option (Sched × Stable × ℤ)
unfolding signal_found
signal k st none = some (k, st, negsuc 0)
signal k st (some name) = signal_found k st (find_name st.semtab name)
