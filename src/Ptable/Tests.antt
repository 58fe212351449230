-- ===== src/Ptable/Tests.antt =====
-- The process table at concrete inputs.
use nachos_system_calls.Prelude.{
  ℕ, zero, suc, ◌+◌, ◌≡◌, ◌≤◌, refl, true, some, none, [], ◌∷◌, replicate, get_elem?, ℤ, pos,
  negsuc, inl, inr, arith,
}
use nachos_system_calls.Semaphore.{Sched, Semaphore, new_semaphore, p, v}
use nachos_system_calls.Bitmap.{num_clear, test, find, mark}
use nachos_system_calls.CString.{strncmp_eq}
use nachos_system_calls.Pcb.{Pcb, Loader, exec, new_pcb, join_release, set_exit_code}
use nachos_system_calls.Ptable.{
  Ptable, max_process, Outcome, returns, finishes, create_table, exec_update, join_update,
  join_resume, exit_update,
}
use nachos_system_calls.Ptable.Slots.{IsValid, AllLinked}
use nachos_system_calls.Ptable.ExecUpdate.{Executes, exec_update-Executes, create_table-IsValid}
use nachos_system_calls.Ptable.Exit.{Exits, exit_update-Exits}
use nachos_system_calls.Ptable.Join.{
  Waits, Joins, join_update-Joins, join_resume-Waits, join_takes_any,
}
use nachos_system_calls.Ptable.Life.{Life, start, execs, exits, Life-slots, exec_limit, empty_slots}

abbrev loader : Loader
loader = record { opens = λ name. true; loads = λ name. true; new_thread = 13 }

abbrev semaphore : ℕ → Semaphore
semaphore n = record { value = n; queue = [] }

abbrev process : ℕ → ℤ → ℕ → Pcb
process i parent t = record {
  process_name = 97 ∷ replicate 49 0;
  process_id = pos i;
  parent_id = parent;
  numwait = pos 0;
  exitcode = pos 0;
  thread = some t;
  joinsem = semaphore 0;
  exitsem = semaphore 0;
  multex = semaphore 1;
}

-- The first process, in thread 10, with two children in threads 11 and 12.
abbrev family : Ptable
family = record {
  pcb =
      some (process 0 (negsuc 0) 10)
      ∷ some (process 1 (pos 0) 11)
      ∷ some (process 2 (pos 0) 12)
      ∷ replicate 7 none;
  bm = record { num_bits = 10; num_words = 1; map = 7 ∷ [] };
  bmsem = semaphore 1;
}

abbrev in_thread : ℕ → Sched
in_thread t = record { current = t; ready = [] }

family-AllLinked : AllLinked family.pcb
family-AllLinked zero c e = (ground arith, inl (ground arith))
family-AllLinked (suc zero) c e =
    (ground arith, inr (0, ground arith, (process 0 (negsuc 0) 10, refl)))
family-AllLinked (suc (suc zero)) c e =
    (ground arith, inr (0, ground arith, (process 0 (negsuc 0) 10, refl)))
family-AllLinked (suc (suc (suc i))) c e = absurd (empty 7 i c e)
  where
    empty : (n j : ℕ) (d : Pcb) → get_elem? (replicate n none) j ≡ some (some d) → ⊥
    empty zero j d h = cc
    empty (suc n) zero d h = cc
    empty (suc n) (suc j) d h = empty n j d h

family-IsValid : IsValid family
family-IsValid = record {
  tracks = record {
    bitmap = record { words = refl; storage = refl; small = omega arith };
    size = refl;
    slots = refl;
    used = refl;
  };
  unlocked = refl;
  linked = family-AllLinked;
}

exec_update-Executes_example :
    (o : Outcome) × (exec_update loader [] (97 ∷ []) (in_thread 10) family (some (98 ∷ []))
      ≡ some o)
    × Executes loader (97 ∷ []) (in_thread 10) family (98 ∷ []) o
exec_update-Executes_example =
    exec_update-Executes loader [] (97 ∷ []) (98 ∷ []) (in_thread 10) family family-IsValid refl

create_table-IsValid_example :
    (pt : Ptable) × (create_table (3 ∷ []) ≡ some pt)
    × IsValid pt
    × (pt.pcb ≡ replicate max_process none)
create_table-IsValid_example = create_table-IsValid (3 ∷ []) refl (omega arith)

exit_update-Exits_example :
    (o : Outcome) × (exit_update (in_thread 11) family (pos 42) ≡ some o)
    × Exits (in_thread 11) family (pos 42) o
exit_update-Exits_example = exit_update-Exits (in_thread 11) family (pos 42) family-IsValid

join_update-Joins_example :
    (o : Outcome) × (join_update (in_thread 10) family (pos 2) ≡ some o)
    × Joins (in_thread 10) family (pos 2) o
join_update-Joins_example = join_update-Joins (in_thread 10) family (pos 2) family-IsValid

join_resume-Waits_example :
    (o : Outcome) × (join_resume (in_thread 10) family 0 ≡ some o) × Waits (in_thread 10) family 0 o
join_resume-Waits_example =
    join_resume-Waits (in_thread 10) family 0 (process 0 (negsuc 0) 10) family-IsValid refl

-- After thread 11 has exited with code 42.
abbrev bereft : Ptable
bereft = record family {
  pcb =
      some (record (process 0 (negsuc 0) 10) {
        numwait = negsuc 0;
        exitcode = pos 42;
        joinsem = semaphore 1;
      })
      ∷ some (process 1 (pos 0) 11)
      ∷ some (process 2 (pos 0) 12)
      ∷ replicate 7 none;
}

exit_family : exit_update (in_thread 11) family (pos 42) ≡ some (finishes (in_thread 11) bereft)
unfolding exit_update join_release set_exit_code v
exit_family = refl

join_takes_any_example :
    (pt : Ptable) × (join_update (in_thread 10) bereft (pos 2)
      ≡ some (returns (in_thread 10) pt (pos 42)))
unfolding join_update
join_takes_any_example =
    join_takes_any (in_thread 11) (in_thread 11) (in_thread 10) family bereft (pos 42) 1 0 2
      (process 1 (pos 0) 11) family-IsValid refl refl refl exit_family (omega arith) refl refl

bereft_Life : Life family 0 bereft
bereft_Life = exits (in_thread 11) (in_thread 11) (pos 42) start exit_family

Life-slots_example : IsValid bereft × (0 + empty_slots bereft ≡ empty_slots family)
Life-slots_example = Life-slots family-IsValid bereft_Life

-- A fourth program is loaded.
family_exec :
    (k : Sched) × (pt : Ptable) × (exec_update loader []
        (97 ∷ [])
        (in_thread 10)
        family
        (some (98 ∷ []))
      ≡ some (returns k pt (pos 3)))
unfolding exec_update p num_clear test strncmp_eq find mark exec new_pcb new_semaphore
family_exec = (_, _, refl)

exec_limit_example : 1 ≤ max_process
exec_limit_example =
    exec_limit family-IsValid
      (execs loader [] (97 ∷ []) (98 ∷ []) (in_thread 10) family_exec.0 3 start refl family_exec.2)
