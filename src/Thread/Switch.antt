-- ===== src/Thread/Switch.antt =====
-- The registers of a user program across the context switches of code/threads/thread.cc.
use nachos_system_calls.Prelude.{
  ℕ, ◌≡◌, ◌≢◌, refl, sym, ap, ◌∙◌, none, some, List, length, get_elem?, lt_of_get_elem?,
  get_elem?-set_self, get_elem?-set_ne, set, >>=-some, arith, Option,
}
use nachos_system_calls.AddrSpace.{AddrSpace}
use nachos_system_calls.Machine.{TranslationEntry, Machine}
use nachos_system_calls.Thread.{
  running, Thread, Threads, restore_state, shared, set_status, save_current, restore_current,
  run_out, resume,
}
use nachos_system_calls.Thread.Registers.{save_user_state_lem, restore_user_state_lem}
use nachos_system_calls.Thread.Meanwhile.{Meanwhile, Meanwhile-Holds}

-- The block of a thread that has left the processor.
abbrev pub left_block : Threads → Thread → AddrSpace → Thread
left_block k t s = record t {
  user_registers = k.machine.registers;
  space = some (shared s k.machine.page_table);
}

-- What Run leaves at SWITCH, where `t` has been running and `u` is the block of the next.
abbrev pub left : Threads → Thread → AddrSpace → Thread → ℕ → Threads
left k t s u b = record k {
  threads = set (set k.threads k.current (left_block k t s)) b (record u { status = running });
  current = b;
}

pub run_out-left :
    (k : Threads) (t u : Thread) (s : AddrSpace) (b : ℕ)
    → get_elem? k.threads k.current ≡ some t
    → t.space ≡ some s
    → get_elem? k.threads b ≡ some u
    → k.current ≢ b
    → length k.machine.registers ≡ 40
    → length t.user_registers ≡ 40
    → run_out k b ≡ some (left k t s u b)
unfolding run_out save_current set_status
run_out-left k t u s b at_a has_space at_b differ regs saved =
    >>=-some _ at_a
    ∙ (>>=-some _ (
          ap (save_current k t) has_space ∙ >>=-some _ (save_user_state_lem k.machine t regs saved))
        ∙ >>=-some _ (get_elem?-set_ne k.threads (left_block k t s) differ ∙ at_b))

resume_lem :
    (k : Threads) (t : Thread) (s : AddrSpace)
    → get_elem? k.threads k.current ≡ some t
    → t.space ≡ some s
    → length k.machine.registers ≡ 40
    → length t.user_registers ≡ 40
    → resume k
      ≡ some (record k {
        to_be_destroyed = none;
        machine = restore_state s (record (k.machine) { registers = t.user_registers });
      })
unfolding resume restore_current
resume_lem k t s at_a has_space regs saved =
    >>=-some _ at_a
    ∙ (ap (restore_current (record k { to_be_destroyed = none }) t) has_space
        ∙ >>=-some _ (restore_user_state_lem k.machine t regs saved))

-- A thread with a user program, in whose space the machine runs, leaves the processor to another
-- one: Run saves the forty registers of the machine in its control block. Whatever happens while
-- other threads have the processor, when the thread has it again Run gives the machine the
-- registers and the page table that it had when the thread left, and changes nothing else but
-- threadToBeDestroyed.
pub run_out-resume :
    (k k₂ : Threads) (t u : Thread) (s : AddrSpace) (es : List TranslationEntry) (b : ℕ)
    → get_elem? k.threads k.current ≡ some t
    → t.space ≡ some s
    → get_elem? k.threads b ≡ some u
    → k.current ≢ b
    → length k.machine.registers ≡ 40
    → length t.user_registers ≡ 40
    → k.machine.page_table ≡ some es
    → k.machine.page_table_size ≡ s.num_pages
    → Meanwhile k.current (left k t s u b) k₂
    → k₂.current ≡ k.current
    → length k₂.machine.registers ≡ 40
    → (run_out k b ≡ some (left k t s u b))
      × (resume k₂
          ≡ some (record k₂ {
            to_be_destroyed = none;
            machine = record (k₂.machine) {
              registers = k.machine.registers;
              page_table = k.machine.page_table;
              page_table_size = k.machine.page_table_size;
            };
          }))
run_out-resume k k₂ t u s es b at_a has_space at_b differ regs saved table size meanwhile back
      regs₂ =
    let s' = shared s k.machine.page_table in
    let (t', e, p, q) =
      Meanwhile-Holds k.current k.machine.registers (some s')
        (
          left_block k t s,
          get_elem?-set_ne (set k.threads k.current (left_block k t s))
                (record u { status = running }) (λ e. differ (sym e))
              ∙ get_elem?-set_self k.threads k.current (left_block k t s)
                  (lt_of_get_elem? k.threads k.current at_a),
          refl,
          refl,
        )
        meanwhile in
    (
      run_out-left k t u s b at_a has_space at_b differ regs saved,
      resume_lem k₂ t' s' (ap (get_elem? k₂.threads) back ∙ e) q regs₂ (ap length p ∙ regs)
          ∙ ap (λ m. some (record k₂ { to_be_destroyed = none; machine = m }))
              (same_machine s' k₂.machine p (shared_table k.machine.page_table table)
                (shared_size k.machine.page_table ∙ sym size)),
    )
  where
    shared_table :
        (o : Option (List TranslationEntry)) → o ≡ some es → some (shared s o).page_table ≡ o
    shared_table none e = absurd (ground (arith, e))
    shared_table (some xs) e = refl

    shared_size : (o : Option (List TranslationEntry)) → (shared s o).num_pages ≡ s.num_pages
    shared_size none = refl
    shared_size (some xs) = refl

    same_machine :
        (s' : AddrSpace) (m : Machine) {xs ys : List ℕ} {o : Option (List TranslationEntry)} {n : ℕ}
        → xs ≡ ys
        → some s'.page_table ≡ o
        → s'.num_pages ≡ n
        → restore_state s' (record m { registers = xs })
          ≡ record m { registers = ys; page_table = o; page_table_size = n }
    same_machine s' m p q r = cc
