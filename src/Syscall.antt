-- ===== src/Syscall.antt =====
-- code/userprog/exception.cc: copying between user and kernel memory, and the system calls on the
-- console. The calls on files, processes and semaphores are in the children. A translation that
-- fails raises an exception, whose handler halts the machine.
pub mod Process
pub mod Files
pub mod Handler
pub mod Copy
pub mod Fetch
pub mod PrintString
mod Tests
use nachos_system_calls.Prelude.{
  ℕ, zero, suc, ◌+◌, ◌-◌, ◌%◌, ◌^◌, Bool, true, false, Option, none, some, List, [], ◌∷◌, ◌++◌,
  get_elem?, replicate, ℤ, pos, negsuc, ◌>>=◌, ◌==◌, ltb, leb, if◌then◌else◌,
}
use nachos_system_calls.Machine.{
  Machine, signed, to_unsigned, sign_extend, Access, trap, value, read_register, write_register,
  read_mem, write_mem,
}
use nachos_system_calls.Console.{Console, write, read}
use nachos_system_calls.Number.{max_int_length, print_int, parse_int}
use nachos_system_calls.Pcb.{Loader}
use nachos_system_calls.Ptable.{Ptable}
use nachos_system_calls.Semaphore.{Sched}
use nachos_system_calls.Stable.{Stable}

-- LIMIT.
abbrev pub limit_length : ℕ
limit_length = 255

-- MaxFileLength.
abbrev pub max_file_length : ℕ
max_file_length = 32

-- The host's own calls that code/machine/sysdep.cc makes, on a state `Host` and descriptors that are
-- numbers; `none` is the error result. `create` is `open` with O_CREAT and O_TRUNC.
pub record Unix (Host : Type 0) : Type 0 where
  pub create : Host → List ℕ → Host × Option ℕ
  pub open_file : Host → List ℕ → Host × Option ℕ
  pub lseek : Host → ℕ → ℤ → ℕ → Host × Option ℕ
  pub read : Host → ℕ → ℕ → Host × Option (List ℕ)
  pub write : Host → ℕ → List ℕ → Host × Option ℕ
  pub close : Host → ℕ → Host × Bool

-- class OpenFile of the build for user programs (FILESYS_STUB).
pub record OpenFile : Type 0 where
  pub file : ℕ
  pub current_offset : ℤ
  pub type : ℕ

-- What the handler works on. `openf` is the table of the open files.
pub record Kernel (Host : Type 0) : Type 0 where
  pub machine : Machine
  pub console : Console
  pub sched : Sched
  pub current_name : List ℕ
  pub ptab : Ptable
  pub stab : Stable
  pub openf : List (Option OpenFile)
  pub host : Host

-- How a system call leaves its thread: `done` is the `break` to the end of the handler, `returned`
-- is a `return` before it, and a thread that `sleeps` goes on inside P when it is woken.
pub data Effect (Host : Type 0) : Type 0 where
  halted : Effect Host
  done : Kernel Host → Effect Host
  returned : Kernel Host → Effect Host
  sleeps : Kernel Host → Effect Host
  finished : Kernel Host → Effect Host

pub data Copied : Type 0 where
  fault : Copied
  copied : Machine → List ℕ → Copied

-- `kernelBuf[i] = c` in front of what follows.
pub keep_byte : ℕ → Copied → Copied
keep_byte c fault = fault
keep_byte c (copied m bytes) = copied m (c ∷ bytes)

-- A round of the loop: what the read gave, and the rounds that follow if it is no terminator.
pub user_step : ℕ → Machine → Access → Option Copied → Option Copied
unfolding keep_byte
user_step n m (trap e) rest = some fault
user_step n m (value v) rest =
    if v == 0
    then some (copied m (replicate (suc (suc n)) 0))
    else (rest >>= λ r. some (keep_byte (v % 256) r))

-- The loop of User2System, `n` bytes before the last, into a buffer of zeros.
pub user_loop : ℕ → Machine → ℕ → Option Copied
unfolding user_step
user_loop zero m addr = some (copied m (0 ∷ []))
user_loop (suc n) m addr =
    read_mem m addr 1 >>= λ (m', x). user_step n m' x (user_loop n m' ((addr + 1) % 2 ^ 32))

-- User2System.
pub user_to_system : Machine → ℕ → ℕ → Option Copied
unfolding user_loop
user_to_system m addr limit = user_loop limit m addr

-- The loop of System2User, `len` bytes at most: the number of bytes that it copies. `none` is a byte
-- outside the buffer.
pub data Stored : Type 0 where
  store_fault : Stored
  stored : Machine → ℕ → Stored

count_byte : Stored → Stored
count_byte store_fault = store_fault
count_byte (stored m n) = stored m (n + 1)

pub system_loop : ℕ → Machine → ℕ → List ℕ → Option Stored
unfolding count_byte
system_loop zero m addr buffer = some (stored m 0)
system_loop (suc len) m addr [] = none
system_loop (suc len) m addr (c ∷ buffer) = write_mem m addr 1 (sign_extend c) >>= λ (m', x).
    elim x [
      | trap e ↦ some store_fault
      | value v ↦ elim (c == 0) [
        | true ↦ some (stored m' 1)
        | false ↦ system_loop len m' ((addr + 1) % 2 ^ 32) buffer >>= λ r. some (count_byte r)
      ]
    ]

-- System2User; the calls do not look at its result.
pub system_to_user : Machine → ℕ → ℤ → List ℕ → Option Stored
unfolding system_loop
system_to_user m addr (negsuc n) buffer = some (stored m 0)
system_to_user m addr (pos len) buffer = system_loop len m addr buffer

-- Read into the 255 bytes that SC_ReadString has; a `length` beyond them is `none`.
pub read_line : ℕ → Console → ℤ → Option (List ℕ × Console × ℤ)
read_line garbage c (pos n) = if leb n limit_length then read garbage c n else none
read_line garbage c (negsuc n) = read garbage c 0

-- `buf[sz - 1]`.
pub last_read : List ℕ → ℤ → Option ℕ
last_read buf (pos zero) = none
last_read buf (pos (suc n)) = get_elem? buf n
last_read buf (negsuc n) = none

-- `while (buf[i] != 0) Write(buf + i, 1)`.
pub print_loop : Console → List ℕ → Option Console
print_loop c [] = none
print_loop c (x ∷ buf) =
    let rest = print_loop (write c (x ∷ []) 1) buf in if x == 0 then some c else rest

module _ {Host : Type 0} where
  -- `machine->WriteRegister(2, v); break;`
  pub set_result : Kernel Host → ℕ → Option (Effect Host)
  set_result k v = write_register k.machine 2 v >>= λ m. some (done (record k { machine = m }))

  pub sys_read_int : ℕ → Kernel Host → Option (Effect Host)
  unfolding set_result
  sys_read_int garbage k = do
    r ← read garbage k.console max_int_length
    number ← parse_int r.0 r.2
    set_result (record k { console = r.1 }) number

  -- `s` is what the ten bytes of the buffer hold before.
  pub sys_print_int : List ℕ → Kernel Host → Option (Effect Host)
  sys_print_int s k = do
    n ← read_register k.machine 4
    out ← print_int s (signed n)
    some (done (record k { console = record k.console { output = k.console.output ++ out } }))

  pub sys_read_char : ℕ → Kernel Host → Option (Effect Host)
  unfolding set_result last_read
  sys_read_char garbage k = do
    r ← read garbage k.console max_int_length
    c ← last_read r.0 r.2
    set_result (record k { console = r.1 }) (sign_extend c)

  pub sys_print_char : Kernel Host → Option (Effect Host)
  sys_print_char k = read_register k.machine 4 >>= λ n.
      some (done (record k { console = write k.console (n % 256 ∷ []) 1 }))

  -- The copy to user memory, and `break`.
  after_store : Kernel Host → Stored → Effect Host
  after_store k store_fault = halted
  after_store k (stored m n) = done (record k { machine = m })

  pub sys_read_string : ℕ → Kernel Host → Option (Effect Host)
  unfolding after_store read_line
  sys_read_string garbage k = do
    addr ← read_register k.machine 4
    length ← read_register k.machine 5
    r ← read_line garbage k.console (signed length)
    s ← system_to_user k.machine addr r.2 r.0
    some (after_store (record k { console = r.1 }) s)

  print_copied : Kernel Host → Copied → Option (Effect Host)
  unfolding print_loop
  print_copied k fault = some halted
  print_copied k (copied m buf) =
      print_loop k.console buf >>= λ c. some (done (record k { machine = m; console = c }))

  pub sys_print_string : Kernel Host → Option (Effect Host)
  unfolding print_copied user_to_system
  sys_print_string k = do
    addr ← read_register k.machine 4
    r ← user_to_system k.machine addr limit_length
    print_copied k r
