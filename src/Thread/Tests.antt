-- ===== src/Thread/Tests.antt =====
-- Two threads with user programs, and the witness.
use nachos_system_calls.Prelude.{
  ℕ, ◌≡◌, refl, Bool, true, false, none, some, [], ◌∷◌, pos, replicate, arith,
}
use nachos_system_calls.AddrSpace.{AddrSpace}
use nachos_system_calls.Machine.{TranslationEntry, Machine}
use nachos_system_calls.Thread.{running, ready, Thread, Threads, run_out, resume}
use nachos_system_calls.Thread.Switch.{left_block, left, run_out-left, run_out-resume}
use nachos_system_calls.Thread.Meanwhile.{Meanwhile, at_first, machine_runs, switches}

-- The page 0 in the frame `frame`, used or not.
abbrev entry : ℕ → Bool → TranslationEntry
entry frame used = record {
  virtual_page = pos 0;
  physical_page = pos frame;
  valid = true;
  read_only = false;
  use_bit = used;
  dirty = false;
}

abbrev space : ℕ → AddrSpace
space frame = record { page_table = entry frame false ∷ []; num_pages = 1 }

abbrev block : ℕ → Thread
block x = record { status = ready; user_registers = replicate 40 x; space = some (space x) }

-- A machine that has used the page 0.
abbrev machine : ℕ → ℕ → Machine
machine x frame = record {
  registers = replicate 40 x;
  main_memory = λ at. x;
  tlb = none;
  page_table = some (entry frame true ∷ []);
  page_table_size = 1;
}

-- Thread 0 runs with 7 in its registers.
abbrev before : Threads
before = record {
  threads = block 1 ∷ block 2 ∷ [];
  current = 0;
  ready_list = 1 ∷ [];
  to_be_destroyed = none;
  machine = machine 7 1;
}

-- Thread 1 runs with 9 in its registers, and then thread 0 has the processor again.
abbrev other_runs : Threads
other_runs = record (left before (block 1) (space 1) (block 2) 1) { machine = machine 9 2 }

abbrev again : Threads
again =
    left other_runs (record (block 2) { status = running }) (space 2)
      (left_block before (block 1) (space 1)) 0

again-Meanwhile : Meanwhile 0 (left before (block 1) (space 1) (block 2) 1) again
again-Meanwhile =
    switches other_runs again 0 (machine_runs _ (machine 9 2) at_first) (λ e. omega (arith, e))
      (run_out-left other_runs (record (block 2) { status = running })
        (left_block before (block 1) (space 1)) (space 2) 0 refl refl refl (λ e. omega (arith, e))
        refl refl)

run_out-resume_example :
    (run_out before 1 ≡ some (left before (block 1) (space 1) (block 2) 1))
    × (resume again
        ≡ some (record again {
          to_be_destroyed = none;
          machine = record (machine 9 2) {
            registers = replicate 40 7;
            page_table = some (entry 1 true ∷ []);
            page_table_size = 1;
          };
        }))
run_out-resume_example =
    run_out-resume before again (block 1) (block 2) (space 1) (entry 1 true ∷ []) 1 refl refl refl
      (λ e. omega (arith, e)) refl refl refl refl again-Meanwhile refl refl
