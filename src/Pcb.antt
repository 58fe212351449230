-- ===== src/Pcb.antt =====
-- code/threads/pcb.cc and pcb.h: the control block of a process.
use nachos_system_calls.Prelude.{
  ℕ, zero, suc, ◌+◌, Bool, Option, none, some, List, ◌∷◌, ℤ, pos, negsuc, ◌>>=◌, if◌then◌else◌,
}
use nachos_system_calls.CString.{strncpy}
use nachos_system_calls.Semaphore.{
  Sched, Semaphore, new_semaphore, ready_to_run, Round, took, slept, p, v,
}

-- `numwait` counts up before a thread waits and down before it is released; no code reads it
-- but GetNumWait.
pub record Pcb : Type 0 where
  pub process_name : List ℕ
  pub process_id : ℤ
  pub parent_id : ℤ
  pub numwait : ℤ
  pub exitcode : ℤ
  pub thread : Option ℕ
  pub joinsem : Semaphore
  pub exitsem : Semaphore
  pub multex : Semaphore

-- The constructor. The rest of `process_name` is what memory held: `garbage`, 49 bytes.
unfoldable pub new_pcb : List ℕ → Pcb
new_pcb garbage = record {
  process_name = 0 ∷ garbage;
  process_id = negsuc 0;
  parent_id = negsuc 0;
  numwait = pos 0;
  exitcode = pos 0;
  thread = none;
  joinsem = new_semaphore 0;
  exitsem = new_semaphore 0;
  multex = new_semaphore 1;
}

abbrev pub incr : ℤ → ℤ
incr (pos n) = pos (n + 1)
incr (negsuc zero) = pos 0
incr (negsuc (suc n)) = negsuc n

abbrev pub decr : ℤ → ℤ
decr (pos zero) = negsuc 0
decr (pos (suc n)) = pos n
decr (negsuc n) = negsuc (n + 1)

-- What Exec meets outside this file: `opens` is whether `fileSystem->Open(name)` finds the file,
-- `loads` whether the AddrSpace constructor gets past its assertions, and `new_thread` the address
-- of the Thread object that it makes.
pub record Loader : Type 0 where
  pub opens : List ℕ → Bool
  pub loads : List ℕ → Bool
  pub new_thread : ℕ

-- `multex->V()` and `return r`.
release : Sched → Pcb → ℤ → Sched × Pcb × ℤ
release k c r = let (k', s) = v k c.multex in (k', record c { multex = s }, r)

-- The program is loaded: the first process takes over the processor, any other is forked.
start_thread : Loader → Sched → Pcb → ℤ → Sched × Pcb × ℤ
unfolding release
start_thread l k c (negsuc zero) =
    release (record k { current = l.new_thread }) (record c { thread = some l.new_thread }) (pos 0)
start_thread l k c ppid =
    release (ready_to_run k l.new_thread) (record c { thread = some l.new_thread }) (pos 0)

-- The body of Exec, inside multex. `none` as a whole is an assertion of the AddrSpace constructor.
exec_body : Loader → Sched → Pcb → Option (List ℕ) → ℤ → ℤ → Option (Sched × Pcb × ℤ)
unfolding start_thread release
exec_body l k c none pid ppid = some (release k c (negsuc 0))
exec_body l k c (some name) (negsuc n) ppid = some (release k c (negsuc 0))
exec_body l k c (some name) (pos n) ppid = elim c.thread [
  | some t ↦ some (release k c (negsuc 0))
  | none ↦
      let c' : Pcb = record c {
        process_name = strncpy 50 name;
        process_id = pos n;
        parent_id = ppid;
      } in
      if l.opens name
      then (if l.loads name then some (start_thread l k c' ppid) else none)
      else some (release k c' (negsuc 0))
]

-- Exec returns, or its thread sleeps on multex first.
pub data Exec : Type 0 where
  returns : Sched → Pcb → ℤ → Exec
  sleeps : Pcb → Exec

exec_round : Loader → Sched → Pcb → Option (List ℕ) → ℤ → ℤ → Round × Semaphore → Option Exec
unfolding exec_body
exec_round l k c name pid ppid (slept, s) = some (sleeps (record c { multex = s }))
exec_round l k c name pid ppid (took, s) =
    exec_body l k (record c { multex = s }) name pid ppid >>= λ (k', c', r). some (returns k' c' r)

unfoldable pub exec : Loader → Sched → Pcb → Option (List ℕ) → ℤ → ℤ → Option Exec
unfolding exec_round
exec l k c name pid ppid = exec_round l k c name pid ppid (p k.current c.multex)

-- JoinWait up to its first round of P on joinsem, by thread `t`.
unfoldable pub join_wait : ℕ → Pcb → Round × Pcb
join_wait t c =
    let (r, s) = p t c.joinsem in (r, record c { numwait = incr c.numwait; joinsem = s })

-- A later round, when the thread has been woken.
unfoldable pub join_wait_again : ℕ → Pcb → Round × Pcb
join_wait_again t c = let (r, s) = p t c.joinsem in (r, record c { joinsem = s })

unfoldable pub exit_wait : ℕ → Pcb → Round × Pcb
exit_wait t c =
    let (r, s) = p t c.exitsem in (r, record c { numwait = incr c.numwait; exitsem = s })

unfoldable pub join_release : Sched → Pcb → Sched × Pcb
join_release k c =
    let (k', s) = v k c.joinsem in (k', record c { numwait = decr c.numwait; joinsem = s })

unfoldable pub exit_release : Sched → Pcb → Sched × Pcb
exit_release k c =
    let (k', s) = v k c.exitsem in (k', record c { numwait = decr c.numwait; exitsem = s })

unfoldable pub set_exit_code : Pcb → ℤ → Pcb
set_exit_code c ec = record c { exitcode = ec }

unfoldable pub set_name : Pcb → List ℕ → Pcb
set_name c name = record c { process_name = strncpy 50 name }
