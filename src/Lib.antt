-- ===== src/Lib.antt =====
-- Nachos (Source/nachos-3.4/code), an instructional operating system kernel over a simulated MIPS
-- machine, with system calls for the console, files, processes and semaphores. Paths below are
-- relative to Source/nachos-3.4/code.
--
-- The parts and how they interact. A user program traps into ExceptionHandler (userprog/exception.cc),
-- which copies names and buffers between user and kernel memory with ReadMem and WriteMem
-- (machine/translate.cc) and calls the console (threads/synchcons.cc), the open files of the host
-- (filesys/filesys.h, filesys/openfile.h), the process table (threads/ptable.cc, threads/pcb.cc) or
-- the semaphore table (threads/stable.cc, threads/sem.cc). Both tables keep a bitmap of their used
-- slots (userprog/bitmap.cc) and put threads to sleep on semaphores (threads/synch.cc) over the ready
-- list of the scheduler (threads/scheduler.cc). User programs run on the simulator of the processor
-- (machine/mipssim.cc), which translates each address and after each instruction advances the simulated
-- clock (machine/interrupt.cc); the devices, such as the timer (machine/timer.cc) and the disk
-- (machine/disk.cc), schedule their interrupts on a sorted list (threads/list.cc). The directory, the
-- file headers and the open files (filesys/directory.cc, filehdr.cc, openfile.cc) are put together by
-- the file system on the simulated disk (filesys/filesys.cc). The post office (network/post.cc) sends
-- and delivers mail over the network device (machine/network.cc).
--
-- Prelude: shared names, lists, Boolean tests, the int of C as ℤ, and Option for what may abort.
-- Bitmap: userprog/bitmap.cc; Mark, Clear, Test, Find, NumClear are mark, clear, test, find, num_clear.
--   Bitmap/View is the sequence of the bits, Bitmap/Slots a table whose used slots a bitmap records.
-- CString: strncmp and strncpy as the tables use them. They are functions of the C library, written
--   out here from its documentation.
-- LinkedList: threads/list.cc, on a heap of the elements. LinkedList/Chain has the cells that a pointer
--   leads to, LinkedList/Sorted the insertion by key that SortedInsert implements.
-- Semaphore: threads/synch.cc, class Semaphore; p is one round of the loop of P, v is V.
--   Semaphore/Waiting is the transition system of threads that call them.
-- Stable: threads/stable.cc and sem.cc. Stable/Map is the table as a map from names to semaphores.
-- Pcb, Ptable: threads/pcb.cc and ptable.cc; ExecUpdate, JoinUpdate, ExitUpdate are exec_update,
--   join_update, exit_update. Ptable/Life is any sequence of these calls.
-- Machine: machine/translate.cc, and the registers of machine/machine.cc. Machine/Pages is about the
--   lookup of a page in the page table or the TLB.
-- Mips: machine/mipssim.cc and mipssim.h; Mips has Decode, Mips/Words the arithmetic of words,
--   Mips/Mult the routine Mult, Mips/Cases what the cases of OneInstruction share, Mips/Execute
--   OneInstruction; Mips/Registers is about the registers across an instruction.
-- Interrupt: machine/interrupt.cc, over the sorted queue of LinkedList/Sorted; Interrupt/Loop is the
--   loop over the interrupts that are due, Interrupt/Tick is OneTick and Schedule.
-- Timer: machine/timer.cc with TimerInterruptHandler of threads/system.cc.
-- Disk: machine/disk.cc; Disk/Latency is the time of a request, Disk/Transfer what the file holds.
-- FileHeader: filesys/filehdr.cc, over the bitmap of the free sectors; FileHeader/Marks is about bits that
--   are set one after the other.
-- Storage: FetchFrom and WriteBack of the headers, the directory and the map, with the layout of the
--   objects in bytes. Storage/Words is the layout, Storage/Contents the files of the directory and the map.
-- FileSystem: filesys/filesys.cc; format and mount are the two branches of the constructor.
--   FileSystem/Places says what a formatted disk holds, FileSystem/Flush writes it back, and the other
--   children are named for the operation that they are about; FileSystem/Keep is about the other files.
-- Thread: threads/thread.cc and Run of threads/scheduler.cc; run_out is Run up to SWITCH and resume what
--   follows it. Thread/Switch is about the registers and the page tables of user programs. The page table
--   that the machine shares with the space of the running thread is a value here, and gets back to the
--   space when the thread leaves the processor. Thread/Registers is about the loops over the registers,
--   Thread/Meanwhile about a thread that does not have the processor.
-- Terminal: machine/console.cc, the console device.
-- Network, PostOffice: machine/network.cc and network/post.cc; Network/Transfer is a packet between two
--   devices, PostOffice/Delivery a message from Send to a mail box.
-- OpenFile: filesys/openfile.cc over the bytes of the disk; OpenFile/ReadAt and OpenFile/Overwrite
--   compare ReadAt and WriteAt with the bytes of the file in their order.
-- AddrSpace: userprog/addrspace.cc; the executable is the list of its bytes.
-- Console: threads/synchcons.cc, Read and Write over the characters that arrive and are written.
-- Number: the decimal conversions in the cases SC_ReadInt and SC_PrintInt.
-- Syscall: userprog/exception.cc. Syscall has User2System, System2User and the console calls,
--   Syscall/Process the calls on processes and semaphores, Syscall/Files those on files with the
--   classes OpenFile and FileSystem of the build with FILESYS_STUB, Syscall/Handler the switch;
--   Syscall/Fetch is about the bytes of the user memory that User2System gets.
-- Directory: filesys/directory.cc; Directory/Map is the table as a map from names to sectors.
--
-- Conventions. `none` as the result of an operation stands for a failed ASSERT, a null pointer that
-- is followed, or an access outside an array; in Console and the calls that read from it also for a
-- read that waits for characters that never come. A thread is a number. A word is its bit pattern, a
-- number below 2 ^ 32; the host is little-endian with a signed char. The counters of semaphores and
-- processes do not overflow. Memory that the code does not set is an argument of the operation.
-- Loops over tables recur on the table; the digit loop of PrintInt has ten rounds, the size of its
-- buffer, and the digits of every int of 32 bits fit into ten; the loops over user memory recur on
-- the limit that the source gives them. The loop of SortedInsert takes fuel, and one round for each
-- element of the list is enough, as its theorem states; so does the loop over
-- the interrupts that are due, for which one round more than their number is enough. No other loop
-- needs a bound.
--
-- Parameters. Whether a program opens and loads, and the thread made for it, is the record Pcb.Loader in
-- the process table. The calls of the host that machine/sysdep.cc makes are the record Syscall.Unix. The
-- functions that the interrupts call through pointers, and Thread::Yield, are the record Interrupt.Calls.
-- What new memory holds is the record FileSystem.NewMemory; what the socket of the host hands over, and
-- whether a packet is lost, are arguments of the operations of Network.
--
-- Not modelled: SynchDisk and SynchList, which wait for interrupts and for threads; the semaphores of the post office; SWITCH, the stacks of the
-- host and the addresses that a new thread starts at; and the tools and user programs. Class Lock and
-- class Condition have empty bodies. Printing for debugging is left out.
--
pub mod Prelude
pub mod CString
pub mod Bitmap
pub mod Semaphore
pub mod Stable
pub mod Pcb
pub mod Ptable
pub mod Machine
pub mod Console
pub mod Number
pub mod Directory
pub mod Syscall
pub mod AddrSpace
pub mod Mips
pub mod LinkedList
pub mod Interrupt
pub mod Disk
pub mod FileHeader
pub mod OpenFile
pub mod Timer
pub mod Storage
pub mod FileSystem
pub mod Network
pub mod PostOffice
pub mod Thread
pub mod Terminal
