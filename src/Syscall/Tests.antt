-- ===== src/Syscall/Tests.antt =====
-- Runs of code/userprog/exception.cc, and the witnesses.
use nachos_system_calls.Prelude.{ℕ, ◌≡◌, refl, true, false, none, some, [], ◌∷◌, replicate, set}
use nachos_system_calls.Console.{Console}
use nachos_system_calls.Machine.{Machine, read_register, TranslationEntry, translate, read_mem}
use nachos_system_calls.Machine
use nachos_system_calls.Prelude.{pos}
use nachos_system_calls.Machine.Translate.{HasTable, paged}
use nachos_system_calls.Syscall.{copied, user_loop, user_to_system, last_read}
use nachos_system_calls.Bitmap.{BitMap}
use nachos_system_calls.Semaphore.{new_semaphore}
use nachos_system_calls.Syscall.{Kernel, Effect, sys_print_string}
use nachos_system_calls.Syscall.PrintString.{Prints, sys_print_string-Prints}

abbrev entry : TranslationEntry
entry = record {
  virtual_page = pos 0;
  physical_page = pos 0;
  valid = true;
  read_only = false;
  use_bit = false;
  dirty = false;
}

abbrev one_page : Machine
one_page = record {
  registers = set (set (replicate 40 0) 34 100) 35 104;
  main_memory = λ b. Machine.update (λ a. 0) 8 72 b;
  tlb = none;
  page_table = some (entry ∷ []);
  page_table_size = 1;
}

abbrev after_copy : Machine
after_copy = record one_page { page_table = some (record entry { use_bit = true } ∷ []) }

copy_run : user_to_system one_page 8 3 ≡ some (copied after_copy (72 ∷ 0 ∷ 0 ∷ 0 ∷ []))
unfolding user_to_system user_loop read_mem translate
copy_run = refl

one_page-HasTable : HasTable one_page
one_page-HasTable = paged (entry ∷ []) refl refl refl

abbrev no_bits : BitMap
no_bits = record { num_bits = 0; num_words = 0; map = [] }

-- A kernel without processes, whose thread prints the string at address 8.
abbrev quiet : Console
quiet = record { input = []; output = 33 ∷ [] }

abbrev printing : Kernel ℕ
printing = record {
  machine = record one_page { registers = set one_page.registers 4 8 };
  console = quiet;
  sched = record { current = 1; ready = [] };
  current_name = [];
  ptab = record { pcb = []; bm = no_bits; bmsem = new_semaphore 1 };
  stab = record { bm = no_bits; semtab = [] };
  openf = [];
  host = 0;
}

register_run : read_register printing.machine 4 ≡ some 8
unfolding read_register
register_run = refl

sys_print_string-Prints_example :
    (e : Effect ℕ) × (sys_print_string printing ≡ some e) × Prints printing 8 e
sys_print_string-Prints_example =
    sys_print_string-Prints printing 8 (paged (entry ∷ []) refl refl refl) register_run

-- SC_ReadChar on an empty line.
empty_line : last_read (replicate 10 0) (pos 0) ≡ none
unfolding last_read
empty_line = refl
