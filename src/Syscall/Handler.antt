-- ===== src/Syscall/Handler.antt =====
-- code/userprog/exception.cc: ExceptionHandler.
pub mod Advance
use nachos_system_calls.Prelude.{
  ℕ, zero, suc, ◌+◌, ◌%◌, ◌^◌, Bool, true, false, Option, none, some, List, [], ◌∷◌, ◌>>=◌,
  get_elem?,
}
use nachos_system_calls.Machine.{
  ExceptionType, no_exception, syscall_exception, page_fault_exception, read_only_exception,
  bus_error_exception, address_error_exception, overflow_exception, illegal_instr_exception,
  num_exception_types, Machine, read_register, write_register,
}
use nachos_system_calls.Pcb.{Loader}
use nachos_system_calls.Syscall.{
  Unix, Kernel, Effect, halted, done, returned, sleeps, finished, sys_read_int, sys_print_int,
  sys_read_char, sys_print_char, sys_read_string, sys_print_string,
}
use nachos_system_calls.Syscall.Process.{
  sys_exec, sys_join, sys_exit_process, sys_create_sem, sys_wait, sys_signal,
}
use nachos_system_calls.Syscall.Files.{
  sys_create, sys_create_file, sys_open, sys_seek, sys_read_file, sys_write_file, sys_close,
}

-- What the handler meets outside the kernel's state: the host, the loading of programs, and what
-- memory held that the code does not set: a char, the buffer of SC_PrintInt, and a name.
pub record Setting (Host : Type 0) : Type 0 where
  pub unix : Unix Host
  pub loader : Loader
  pub garbage_char : ℕ
  pub garbage_buffer : List ℕ
  pub garbage_name : List ℕ

abbrev pub pc_reg : ℕ
pc_reg = 34

abbrev pub next_pc_reg : ℕ
next_pc_reg = 35

abbrev pub prev_pc_reg : ℕ
prev_pc_reg = 36

-- The last three lines of a system call.
pub advance_pc : Machine → Option Machine
advance_pc m = do
  pc ← read_register m pc_reg
  m₁ ← write_register m prev_pc_reg pc
  next ← read_register m₁ next_pc_reg
  m₂ ← write_register m₁ pc_reg next
  write_register m₂ next_pc_reg ((next + 4) % 2 ^ 32)

-- The numbers of the system calls, in their order; a number beyond the last is unexpected.
pub data SystemCall : Type 0 where
  sc_halt sc_exit sc_exec sc_join sc_create sc_open sc_read sc_write sc_close sc_fork sc_yield
        sc_read_int sc_print_int sc_read_char sc_print_char sc_read_string sc_print_string
        sc_create_file sc_open_file_id sc_close_file sc_read_file sc_write_file sc_seek_file
        sc_exec_process sc_join_process sc_exit_process sc_create_sem sc_wait sc_signal :
      SystemCall

abbrev pub system_calls : List SystemCall
system_calls =
    sc_halt ∷ sc_exit ∷ sc_exec ∷ sc_join ∷ sc_create ∷ sc_open ∷ sc_read ∷ sc_write ∷ sc_close
    ∷ sc_fork ∷ sc_yield ∷ sc_read_int ∷ sc_print_int ∷ sc_read_char ∷ sc_print_char
    ∷ sc_read_string ∷ sc_print_string ∷ sc_create_file ∷ sc_open_file_id ∷ sc_close_file
    ∷ sc_read_file ∷ sc_write_file ∷ sc_seek_file ∷ sc_exec_process ∷ sc_join_process
    ∷ sc_exit_process ∷ sc_create_sem ∷ sc_wait ∷ sc_signal ∷ []

module _ {Host : Type 0} (s : Setting Host) where
  -- The cases over the number of the system call.
  pub case_of : SystemCall → Kernel Host → Option (Effect Host)
  case_of sc_halt k = some halted
  case_of sc_exit k = some halted
  case_of sc_create k = sys_create s.unix k
  case_of sc_read_int k = sys_read_int s.garbage_char k
  case_of sc_print_int k = sys_print_int s.garbage_buffer k
  case_of sc_read_char k = sys_read_char s.garbage_char k
  case_of sc_print_char k = sys_print_char k
  case_of sc_read_string k = sys_read_string s.garbage_char k
  case_of sc_print_string k = sys_print_string k
  case_of sc_create_file k = sys_create_file s.unix k
  case_of sc_open_file_id k = sys_open s.unix k
  case_of sc_close_file k = sys_close s.unix k
  case_of sc_read_file k = sys_read_file s.unix s.garbage_char k
  case_of sc_write_file k = sys_write_file s.unix k
  case_of sc_seek_file k = sys_seek s.unix k
  case_of sc_exec_process k = sys_exec s.loader s.garbage_name k
  case_of sc_join_process k = sys_join k
  case_of sc_exit_process k = sys_exit_process k
  case_of sc_create_sem k = sys_create_sem k
  case_of sc_wait k = sys_wait k
  case_of sc_signal k = sys_signal k
  case_of call k = some halted

  pub system_call : ℕ → Kernel Host → Option (Effect Host)
  unfolding case_of
  system_call type k = elim (get_elem? system_calls type) [
    | some call ↦ case_of call k
    | none ↦ some halted
  ]

  after_call : Effect Host → Option (Effect Host)
  unfolding advance_pc
  after_call (done k) = advance_pc k.machine >>= λ m. some (done (record k { machine = m }))
  after_call e = some e

  pub exception_handler : ExceptionType → Kernel Host → Option (Effect Host)
  unfolding system_call after_call
  exception_handler no_exception k =
      advance_pc k.machine >>= λ m. some (returned (record k { machine = m }))
  exception_handler syscall_exception k = do
    type ← read_register k.machine 2
    e ← system_call type k
    after_call e
  exception_handler which k = some halted
