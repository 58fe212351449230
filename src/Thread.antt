-- ===== src/Thread.antt =====
-- code/threads/thread.cc and Run of code/threads/scheduler.cc, in the build with user programs: the
-- control blocks of the threads, and what a context switch does to the simulated machine. A thread
-- is its index among the control blocks; SWITCH, which exchanges the registers of the host and the
-- stacks, is between `run_out` and `resume`.
pub mod Registers
pub mod Meanwhile
pub mod Switch
mod Tests
use nachos_system_calls.Prelude.{
  ℕ, zero, suc, ◌+◌, Bool, true, false, Option, none, some, List, [], ◌∷◌, ◌++◌, get_elem?, set,
  ◌>>=◌, ◌>>◌, assert_that, ◌==◌,
}
use nachos_system_calls.AddrSpace.{AddrSpace}
use nachos_system_calls.Machine.{TranslationEntry, Machine, read_register, write_register}

-- NumTotalRegs.
abbrev pub num_total_regs : ℕ
num_total_regs = 40

pub data ThreadStatus : Type 0 where
  just_created running ready blocked : ThreadStatus

-- The members of class Thread that the kernel reads and writes.
pub record Thread : Type 0 where
  pub status : ThreadStatus
  pub user_registers : List ℕ
  pub space : Option AddrSpace

-- The control blocks, currentThread, the ready list of the scheduler, threadToBeDestroyed, and the
-- simulated machine.
pub record Threads : Type 0 where
  pub threads : List Thread
  pub current : ℕ
  pub ready_list : List ℕ
  pub to_be_destroyed : Option ℕ
  pub machine : Machine

-- The loop of SaveUserState from register `i` on.
pub save_loop : ℕ → ℕ → Machine → List ℕ → Option (List ℕ)
save_loop zero i m regs = some regs
save_loop (suc k) i m regs = do
  value ← read_register m i
  old ← get_elem? regs i
  save_loop k (i + 1) m (set regs i value)

unfoldable pub save_user_state : Machine → Thread → Option Thread
unfolding save_loop
save_user_state m t = save_loop num_total_regs 0 m t.user_registers >>= λ regs.
    some (record t { user_registers = regs })

-- The loop of RestoreUserState from register `i` on.
pub restore_loop : ℕ → ℕ → List ℕ → Machine → Option Machine
restore_loop zero i regs m = some m
restore_loop (suc k) i regs m = do
  value ← get_elem? regs i
  m' ← write_register m i value
  restore_loop k (i + 1) regs m'

unfoldable pub restore_user_state : Thread → Machine → Option Machine
unfolding restore_loop
restore_user_state t m = restore_loop num_total_regs 0 t.user_registers m

-- AddrSpace::RestoreState; SaveState does nothing.
abbrev pub restore_state : AddrSpace → Machine → Machine
restore_state s m = record m { page_table = some s.page_table; page_table_size = s.num_pages }

-- `machine->pageTable` and the space of the thread that runs are one table by their pointers, so the
-- marks that the machine makes in its table are in the space too. Here, where the table is a value,
-- they get there when the thread leaves the processor.
abbrev pub shared : AddrSpace → Option (List TranslationEntry) → AddrSpace
shared s none = s
shared s (some es) = record s { page_table = es }

unfoldable pub set_status : Threads → ℕ → ThreadStatus → Option Threads
set_status k i status = get_elem? k.threads i >>= λ t.
    some (record k { threads = set k.threads i (record t { status = status }) })

-- The part of Run before SWITCH that is for user programs.
unfoldable pub save_current : Threads → Thread → Option AddrSpace → Option Threads
unfolding save_user_state
save_current k t none = some k
save_current k t (some s) = save_user_state k.machine t >>= λ t'. some (record k {
  threads = set k.threads k.current (record t' { space = some (shared s k.machine.page_table) });
})

-- Run up to SWITCH.
unfoldable pub run_out : Threads → ℕ → Option Threads
unfolding save_current set_status
run_out k next = do
  t ← get_elem? k.threads k.current
  k₁ ← save_current k t t.space
  set_status (record k₁ { current = next }) next running

-- Run after SWITCH, in the thread that has the processor again.
unfoldable pub restore_current : Threads → Thread → Option AddrSpace → Option Threads
unfolding restore_user_state
restore_current k t none = some k
restore_current k t (some s) =
    restore_user_state t k.machine >>= λ m. some (record k { machine = restore_state s m })

unfoldable pub resume : Threads → Option Threads
unfolding restore_current
resume k = get_elem? k.threads k.current >>= λ t.
    restore_current (record k { to_be_destroyed = none }) t t.space

-- Scheduler::ReadyToRun, with the status of the thread.
unfoldable pub make_ready : Threads → ℕ → Option Threads
unfolding set_status
make_ready k i =
    set_status k i ready >>= λ k'. some (record k' { ready_list = k'.ready_list ++ i ∷ [] })

-- Thread::Fork for a thread whose stack is allocated.
abbrev pub fork : Threads → ℕ → Option Threads
fork k i = make_ready k i

-- Thread::Yield up to SWITCH; none in the result means that no other thread is ready.
unfoldable pub yield_processor : ℕ → Threads → Option (Option Threads)
unfolding make_ready run_out
yield_processor this k = assert_that (this == k.current) >> elim k.ready_list [
  | [] ↦ some none
  | next ∷ rest ↦ do
    k₁ ← make_ready (record k { ready_list = rest }) this
    k₂ ← run_out k₁ next
    some (some k₂)
]

-- Thread::Sleep, with interrupts off, up to SWITCH, when a thread is ready; with none it calls
-- Interrupt::Idle until there is one.
unfoldable pub sleep : ℕ → Threads → Option (Option Threads)
unfolding set_status run_out
sleep this k =
    assert_that (this == k.current)
    >> (set_status k this blocked >>= λ k₁. elim k₁.ready_list [
      | [] ↦ some none
      | next ∷ rest ↦ run_out (record k₁ { ready_list = rest }) next >>= λ k₂. some (some k₂)
    ])

-- Thread::Finish up to SWITCH.
unfoldable pub finish_thread : ℕ → Threads → Option (Option Threads)
unfolding sleep
finish_thread this k =
    assert_that (this == k.current) >> sleep this (record k { to_be_destroyed = some k.current })
