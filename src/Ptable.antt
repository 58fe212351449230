-- ===== src/Ptable.antt =====
-- code/threads/ptable.cc and ptable.h: the process table behind the process system calls.
-- `none` as a whole stands for a failed ASSERT or a null pointer that is followed.
pub mod Slots
mod Tests
pub mod ExecUpdate
pub mod Exit
pub mod Join
pub mod Life
use nachos_system_calls.Prelude.{
  ℕ, zero, suc, ◌+◌, ◌-◌, Bool, true, false, Option, none, some, List, [], ◌∷◌, get_elem?, set,
  replicate, ℤ, pos, negsuc, ◌>>=◌, ◌==◌, ltb, if◌then◌else◌,
}
use nachos_system_calls.CString.{strncmp_eq}
use nachos_system_calls.Bitmap
use nachos_system_calls.Bitmap.{BitMap}
use nachos_system_calls.Semaphore.{Sched, Semaphore, new_semaphore, Round, took, slept, p, v}
use nachos_system_calls.Pcb
use nachos_system_calls.Pcb.{
  Pcb, Loader, Exec, new_pcb, exec, join_wait, join_wait_again, join_release, set_exit_code,
}

-- MAX_PROCESS.
abbrev pub max_process : ℕ
max_process = 10

pub record Ptable : Type 0 where
  pub pcb : List (Option Pcb)
  pub bm : BitMap
  pub bmsem : Semaphore

-- `storage` is what `new` returns for the words of the bitmap.
pub create_table : List ℕ → Option Ptable
create_table storage = Bitmap.create storage max_process >>= λ bm.
    some (record { pcb = replicate max_process none; bm = bm; bmsem = new_semaphore 1 })

-- The loops over the table stop at the first slot that is in use and passes the test.
pub find_slot : (Pcb → Bool) → List (Option Pcb) → Option ℕ
find_slot test [] = none
find_slot test (none ∷ xs) = find_slot test xs >>= λ i. some (suc i)
find_slot test (some c ∷ xs) = if test c then some 0 else find_slot test xs >>= λ i. some (suc i)

eq_ℤ : ℤ → ℤ → Bool
eq_ℤ (pos a) (pos b) = a == b
eq_ℤ (negsuc a) (negsuc b) = a == b
eq_ℤ (pos a) (negsuc b) = false
eq_ℤ (negsuc a) (pos b) = false

-- `pcb[i]->GetID() == pid`.
has_id : ℤ → Pcb → Bool
unfolding eq_ℤ
has_id pid c = eq_ℤ c.process_id pid

-- `pcb[i]->GetThread() == currentThread`.
pub runs_in : ℕ → Pcb → Bool
runs_in t c = elim c.thread [ none ↦ false | some u ↦ u == t ]

-- GetName: NULL is `none`.
pub get_name : Ptable → ℤ → Option (List ℕ)
unfolding find_slot has_id
get_name pt (negsuc n) = none
get_name pt (pos n) = do
  i ← find_slot (has_id (pos n)) pt.pcb
  slot ← get_elem? pt.pcb i
  c ← slot
  some c.process_name

pub is_exist : Ptable → ℤ → Bool
unfolding find_slot has_id
is_exist pt (negsuc n) = false
is_exist pt (pos n) = elim (find_slot (has_id (pos n)) pt.pcb) [ none ↦ false | some i ↦ true ]

-- `pcb[i] = NULL; bm->Clear(i)`, the block being deleted.
drop_slot : Ptable → ℕ → Option Ptable
drop_slot pt i =
    Bitmap.clear pt.bm (pos i) >>= λ bm. some (record pt { pcb = set pt.pcb i none; bm = bm })

pub remove : Ptable → ℤ → Option Ptable
unfolding find_slot has_id drop_slot
remove pt (negsuc n) = some pt
remove pt (pos n) = elim (find_slot (has_id (pos n)) pt.pcb) [
  | none ↦ some pt
  | some i ↦ drop_slot pt i
]

-- The ways in which a call leaves its thread: it returns a value, it sleeps on a semaphore, it
-- halts the machine, or its thread has finished and never runs again.
pub data Outcome : Type 0 where
  returns : Sched → Ptable → ℤ → Outcome
  sleeps : Sched → Ptable → Outcome
  halts : Outcome
  finishes : Sched → Ptable → Outcome

-- `bmsem->V(); return r;`
leave : Sched → Ptable → ℤ → Outcome
leave k pt r = let (k', s) = v k pt.bmsem in returns k' (record pt { bmsem = s }) r

-- The end of ExecUpdate: what Exec did decides whether the entry stays.
after_exec : Ptable → ℕ → Exec → Option Outcome
unfolding leave
after_exec pt pid (Pcb.returns k c (negsuc zero)) = Bitmap.clear pt.bm (pos pid) >>= λ bm.
    some (leave k (record pt { pcb = set pt.pcb pid none; bm = bm }) (negsuc 0))
after_exec pt pid (Pcb.returns k c r) =
    some (leave k (record pt { pcb = set pt.pcb pid (some c) }) (pos pid))
after_exec pt pid (Pcb.sleeps c) = none

-- `pcb[pid] = new PCB()`, and the call of its Exec.
exec_in : Loader → List ℕ → Sched → Ptable → List ℕ → ℕ → ℤ → Option Outcome
unfolding after_exec
exec_in l garbage k pt name pid ppid = do
  slot ← get_elem? pt.pcb pid
  e ← exec l k (new_pcb garbage) (some name) (pos pid) ppid
  after_exec pt pid e

-- A process that has a parent: the slot that GetFreeSlot marks.
exec_child : Loader → List ℕ → Sched → Ptable → List ℕ → ℕ → BitMap × ℤ → Option Outcome
unfolding exec_in leave
exec_child l garbage k pt name ppid (bm, pos pid) =
    exec_in l garbage k (record pt { bm = bm }) name pid (pos ppid)
exec_child l garbage k pt name ppid (bm, negsuc n) =
    some (leave k (record pt { bm = bm }) (negsuc 0))

exec_with_parent : Loader → List ℕ → Sched → Ptable → List ℕ → Option ℕ → Option Outcome
unfolding exec_child leave
exec_with_parent l garbage k pt name none = some (leave k pt (negsuc 0))
exec_with_parent l garbage k pt name (some ppid) =
    Bitmap.find pt.bm >>= exec_child l garbage k pt name ppid

exec_first : Loader → List ℕ → Sched → Ptable → List ℕ → Option Outcome
unfolding exec_in
exec_first l garbage k pt name = Bitmap.mark pt.bm (pos 0) >>= λ bm.
    exec_in l garbage k (record pt { bm = bm }) name 0 (negsuc 0)

-- Inside bmsem. `current_name` is the name of the running thread.
exec_body : Loader → List ℕ → List ℕ → Sched → Ptable → Option (List ℕ) → Option Outcome
unfolding exec_first exec_with_parent find_slot runs_in leave
exec_body l garbage current_name k pt none = some (leave k pt (negsuc 0))
exec_body l garbage current_name k pt (some name) = Bitmap.num_clear pt.bm >>= λ n.
    if n == max_process
    then exec_first l garbage k pt name
    else (if strncmp_eq 49 current_name name
        then some (leave k pt (negsuc 0))
        else exec_with_parent l garbage k pt name (find_slot (runs_in k.current) pt.pcb))

exec_round :
    Loader → List ℕ → List ℕ → Sched → Ptable → Option (List ℕ) → Round × Semaphore → Option Outcome
unfolding exec_body
exec_round l garbage current_name k pt name (took, s) =
    exec_body l garbage current_name k (record pt { bmsem = s }) name
exec_round l garbage current_name k pt name (slept, s) = some (sleeps k (record pt { bmsem = s }))

pub exec_update : Loader → List ℕ → List ℕ → Sched → Ptable → Option (List ℕ) → Option Outcome
unfolding exec_round
exec_update l garbage current_name k pt name =
    exec_round l garbage current_name k pt name (p k.current pt.bmsem)

-- The thread that waits returns the exit code in its own block, or sleeps.
after_join : Sched → Ptable → ℕ → Round × Pcb → Outcome
after_join k pt which (took, c) =
    returns k (record pt { pcb = set pt.pcb which (some c) }) c.exitcode
after_join k pt which (slept, c) = sleeps k (record pt { pcb = set pt.pcb which (some c) })

-- The current process waits on its own joinsem.
join_self : Sched → Ptable → ℕ → Option Outcome
unfolding after_join
join_self k pt which = do
  slot ← get_elem? pt.pcb which
  c ← slot
  some (after_join k pt which (join_wait k.current c))

-- When it has been woken: the next round of P.
pub join_resume : Sched → Ptable → ℕ → Option Outcome
unfolding after_join
join_resume k pt which = do
  slot ← get_elem? pt.pcb which
  c ← slot
  some (after_join k pt which (join_wait_again k.current c))

-- `!pcb[pid] || pcb[pid]->GetParentID() != which`.
pub is_child : Ptable → ℕ → ℕ → Bool
unfolding eq_ℤ
is_child pt pid which = elim (get_elem? pt.pcb pid) [
  | none ↦ false
  | some slot ↦ elim slot [ none ↦ false | some c ↦ eq_ℤ c.parent_id (pos which) ]
]

join_from : Sched → Ptable → ℕ → Option ℕ → Option Outcome
unfolding join_self is_child
join_from k pt pid none = some (returns k pt (negsuc 0))
join_from k pt pid (some which) =
    if is_child pt pid which then join_self k pt which else some (returns k pt (negsuc 0))

pub join_update : Sched → Ptable → ℤ → Option Outcome
unfolding join_from find_slot runs_in
join_update k pt (negsuc n) = some (returns k pt (negsuc 0))
join_update k pt (pos pid) =
    if ltb pid 10
    then join_from k pt pid (find_slot (runs_in k.current) pt.pcb)
    else some (returns k pt (negsuc 0))

-- The parent gets the exit code and is released; then Finish ends the thread, so that the lines
-- behind it are never reached.
exit_to : Sched → Ptable → ℤ → ℤ → Option Outcome
exit_to k pt (negsuc zero) ecd = some halts
exit_to k pt (negsuc (suc n)) ecd = none
exit_to k pt (pos ppid) ecd = do
  slot ← get_elem? pt.pcb ppid
  c ← slot
  let r = join_release k (set_exit_code c ecd)
  some (finishes r.0 (record pt { pcb = set pt.pcb ppid (some r.1) }))

exit_from : Sched → Ptable → ℤ → Option ℕ → Option Outcome
unfolding exit_to
exit_from k pt ecd none = some (returns k pt (negsuc 0))
exit_from k pt ecd (some which) = do
  slot ← get_elem? pt.pcb which
  c ← slot
  exit_to k pt c.parent_id ecd

pub exit_update : Sched → Ptable → ℤ → Option Outcome
unfolding exit_from find_slot runs_in
exit_update k pt ecd = exit_from k pt ecd (find_slot (runs_in k.current) pt.pcb)
