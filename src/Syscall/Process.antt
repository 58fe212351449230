-- ===== src/Syscall/Process.antt =====
-- code/userprog/exception.cc: the system calls on processes and semaphores. The registers of a
-- thread that sleeps are kept by the context switch, which is not modelled: its result is written
-- when it runs again.
use nachos_system_calls.Prelude.{ℕ, true, false, Option, some, List, ℤ, pos, negsuc, ◌>>=◌, ◌==◌}
use nachos_system_calls.Machine.{signed, to_unsigned, read_register}
use nachos_system_calls.Pcb.{Loader}
use nachos_system_calls.Ptable.{Ptable, Outcome, exec_update, join_update, exit_update}
use nachos_system_calls.Ptable
use nachos_system_calls.Stable.{Stable, Wait, create, wait, signal}
use nachos_system_calls.Stable
use nachos_system_calls.Syscall.{
  Kernel, Effect, halted, sleeps, finished, Copied, fault, copied, user_to_system, set_result,
}

module _ {Host : Type 0} where
  -- `machine->WriteRegister(2, rslt)` with what the process table did.
  process_result : Kernel Host → Outcome → Option (Effect Host)
  process_result k (Ptable.returns sched ptab r) =
      set_result (record k { sched = sched; ptab = ptab }) (to_unsigned r)
  process_result k (Ptable.sleeps sched ptab) =
      some (sleeps (record k { sched = sched; ptab = ptab }))
  process_result k Ptable.halts = some halted
  process_result k (Ptable.finishes sched ptab) =
      some (finished (record k { sched = sched; ptab = ptab }))

  exec_copied : Loader → List ℕ → Kernel Host → Copied → Option (Effect Host)
  unfolding process_result
  exec_copied l garbage k fault = some halted
  exec_copied l garbage k (copied m name) =
      exec_update l garbage k.current_name k.sched k.ptab (some name)
      >>= process_result (record k { machine = m })

  pub sys_exec : Loader → List ℕ → Kernel Host → Option (Effect Host)
  unfolding exec_copied
  sys_exec l garbage k = read_register k.machine 4 >>= λ name. elim (name == 0) [
    | true ↦ set_result k (to_unsigned (negsuc 0))
    | false ↦ user_to_system k.machine name 49 >>= exec_copied l garbage k
  ]

  pub sys_join : Kernel Host → Option (Effect Host)
  unfolding process_result
  sys_join k = do
    pid ← read_register k.machine 4
    r ← join_update k.sched k.ptab (signed pid)
    process_result k r

  pub sys_exit_process : Kernel Host → Option (Effect Host)
  unfolding process_result
  sys_exit_process k = do
    pid ← read_register k.machine 4
    r ← exit_update k.sched k.ptab (signed pid)
    process_result k r

  create_copied : Kernel Host → ℕ → Copied → Option (Effect Host)
  create_copied k sval fault = some halted
  create_copied k sval (copied m name) = create k.stab (some name) (pos sval) >>= λ (stab, r).
      set_result (record k { machine = m; stab = stab }) (to_unsigned r)

  create_from : Kernel Host → ℕ → ℤ → Option (Effect Host)
  unfolding create_copied
  create_from k name (negsuc n) = set_result k (to_unsigned (negsuc 0))
  create_from k name (pos sval) = elim (name == 0) [
    | true ↦ set_result k (to_unsigned (negsuc 0))
    | false ↦ user_to_system k.machine name 49 >>= create_copied k sval
  ]

  pub sys_create_sem : Kernel Host → Option (Effect Host)
  unfolding create_from
  sys_create_sem k = do
    name ← read_register k.machine 4
    sval ← read_register k.machine 5
    create_from k name (signed sval)

  wait_result : Kernel Host → Wait → Option (Effect Host)
  wait_result k (Stable.returns stab r) = set_result (record k { stab = stab }) (to_unsigned r)
  wait_result k (Stable.sleeps stab i) = some (sleeps (record k { stab = stab }))

  wait_copied : Kernel Host → Copied → Option (Effect Host)
  unfolding wait_result
  wait_copied k fault = some halted
  wait_copied k (copied m name) =
      wait k.sched.current k.stab (some name) >>= wait_result (record k { machine = m })

  pub sys_wait : Kernel Host → Option (Effect Host)
  unfolding wait_copied
  sys_wait k = read_register k.machine 4 >>= λ name. elim (name == 0) [
    | true ↦ set_result k (to_unsigned (negsuc 0))
    | false ↦ user_to_system k.machine name 49 >>= wait_copied k
  ]

  signal_copied : Kernel Host → Copied → Option (Effect Host)
  signal_copied k fault = some halted
  signal_copied k (copied m name) = signal k.sched k.stab (some name) >>= λ (sched, stab, r).
      set_result (record k { machine = m; sched = sched; stab = stab }) (to_unsigned r)

  pub sys_signal : Kernel Host → Option (Effect Host)
  unfolding signal_copied
  sys_signal k = read_register k.machine 4 >>= λ name. elim (name == 0) [
    | true ↦ set_result k (to_unsigned (negsuc 0))
    | false ↦ user_to_system k.machine name 49 >>= signal_copied k
  ]
