-- ===== src/Stable/Tests.antt =====
-- The semaphore table at concrete inputs.
use nachos_system_calls.Prelude.{
  ℕ, ◌≡◌, refl, some, none, List, [], ◌∷◌, replicate, ℤ, pos, negsuc, if◌then◌else◌, ◌⊎◌, arith,
}
use nachos_system_calls.CString.{strncmp_eq}
use nachos_system_calls.Semaphore.{Sched, Semaphore, v}
use nachos_system_calls.Stable.{Stable, create_table, create, wait, signal, Wait}
use nachos_system_calls.Stable.Map.{lookup}
use nachos_system_calls.Stable.Operations.{
  IsValid, Creates, Waits, table_of, create_table-lookup, create-Creates, wait_lem, signal_lem,
}

abbrev sched : Sched
sched = record { current = 7; ready = [] }

-- One semaphore, "a", of value 0, on which thread 9 sleeps.
abbrev one : Stable
one = record {
  bm = record { num_bits = 10; num_words = 1; map = 1 ∷ [] };
  semtab =
      some (record { sem_name = 97 ∷ replicate 49 0; sem = record { value = 0; queue = 9 ∷ [] } })
      ∷ replicate 9 none;
}

one-IsValid : IsValid one
one-IsValid = record {
  bitmap = record { words = refl; storage = refl; small = omega arith };
  size = refl;
  slots = refl;
  used = refl;
}

create_table-lookup_example :
    (st : Stable) × (create_table (77 ∷ []) ≡ some st)
    × IsValid st
    × ((m : List ℕ) → lookup st.semtab m ≡ none)
create_table-lookup_example = create_table-lookup (77 ∷ []) refl (omega arith)

create-Creates_example :
    (st : Stable) × (r : ℤ) × (create one (some (98 ∷ [])) (pos 2) ≡ some (st, r))
    × IsValid st
    × Creates one (98 ∷ []) 2 st r
create-Creates_example = create-Creates one (98 ∷ []) 2 one-IsValid

wait_lem_example :
    (w : Wait) × (wait 5 one (some (97 ∷ [])) ≡ some w)
    × IsValid (table_of w)
    × Waits 5 one (97 ∷ []) w
wait_lem_example = wait_lem 5 one (97 ∷ []) one-IsValid

signal_lem_example :
    ((lookup one.semtab (97 ∷ []) ≡ none)
      × (signal sched one (some (97 ∷ [])) ≡ some (sched, one, negsuc 0)))
    ⊎ ((s : Semaphore) × (st' : Stable) × (lookup one.semtab (97 ∷ []) ≡ some s)
        × (signal sched one (some (97 ∷ [])) ≡ some ((v sched s).0, st', pos 0))
        × IsValid st'
        × ((m : List ℕ)
            → lookup st'.semtab m
              ≡ (if strncmp_eq 49 (97 ∷ []) m then some (v sched s).1 else lookup one.semtab m)))
signal_lem_example = signal_lem sched one (97 ∷ []) one-IsValid
