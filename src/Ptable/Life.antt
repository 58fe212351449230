-- ===== src/Ptable/Life.antt =====
-- The table over the life of the machine: any sequence of process calls, by any threads.
use mathlib.Core.Option.{some-injective}
use nachos_system_calls.Prelude.{
  ℕ, zero, suc, ◌+◌, ◌≤◌, ◌≡◌, refl, true, some, List, get_elem?, set, map, ℤ, pos, negsuc, arith,
  ap, ◌∙◌, sym, subst,
}
use nachos_system_calls.Bitmap.Search.{num_false}
use nachos_system_calls.Bitmap.Slots.{is_some}
use nachos_system_calls.Semaphore.{Sched}
use nachos_system_calls.Pcb.{Pcb, Loader}
use nachos_system_calls.Ptable.{
  Ptable, max_process, Outcome, returns, sleeps, halts, finishes, exec_update, join_update,
  join_resume, exit_update,
}
use nachos_system_calls.Ptable.Slots.{IsValid, num_false-fill, num_false-le}
use nachos_system_calls.Ptable.ExecUpdate.{Executes, refuses, adds, exec_update-Executes}
use nachos_system_calls.Ptable.Exit.{Keeps, exit_update-Keeps}
use nachos_system_calls.Ptable.Join.{
  Waits, takes, blocks, Joins, waits, join_update-Joins, join_resume-Waits,
}

-- The table after an outcome that leaves one.
abbrev pub table_after : Ptable → Outcome → Ptable
table_after pt (returns k pt' r) = pt'
table_after pt (sleeps k pt') = pt'
table_after pt halts = pt
table_after pt (finishes k pt') = pt'

-- `Life pt n q`: calls lead from `pt` to `q`, and `n` of them were successful ExecUpdates.
pub data Life (pt : Ptable) : ℕ → Ptable → Type 0 where
  start : Life pt zero pt
  execs :
      {n : ℕ} {q q' : Ptable} (l : Loader) (garbage current_name name : List ℕ) (k k' : Sched)
      (pid : ℕ)
      → Life pt n q
      → l.loads name ≡ true
      → exec_update l garbage current_name k q (some name) ≡ some (returns k' q' (pos pid))
      → Life pt (suc n) q'
  fails :
      {n : ℕ} {q q' : Ptable} (l : Loader) (garbage current_name name : List ℕ) (k k' : Sched)
      (m : ℕ)
      → Life pt n q
      → l.loads name ≡ true
      → exec_update l garbage current_name k q (some name) ≡ some (returns k' q' (negsuc m))
      → Life pt n q'
  exits :
      {n : ℕ} {q q' : Ptable} (k k' : Sched) (ecd : ℤ)
      → Life pt n q
      → exit_update k q ecd ≡ some (finishes k' q')
      → Life pt n q'
  joins :
      {n : ℕ} {q : Ptable} {o : Outcome} (k : Sched) (pid : ℤ)
      → Life pt n q
      → join_update k q pid ≡ some o
      → Life pt n (table_after q o)
  resumes :
      {n : ℕ} {q : Ptable} {o : Outcome} (k : Sched) (w : ℕ) (c : Pcb)
      → Life pt n q
      → get_elem? q.pcb w ≡ some (some c)
      → join_resume k q w ≡ some o
      → Life pt n (table_after q o)

abbrev pub empty_slots : Ptable → ℕ
empty_slots pt = num_false (map is_some pt.pcb)

-- A valid table with so many empty slots.
record Room (m : ℕ) (q : Ptable) : Type 0 where
  valid : IsValid q
  room : empty_slots q ≡ m

Keeps-Room : {m : ℕ} {q q' : Ptable} → Room m q → Keeps q q' → Room m q'
Keeps-Room r k = record { valid = k.valid; room = ap num_false k.used ∙ r.room }

adds-Room :
    {m pid : ℕ} {q q' : Ptable} {l : Loader} {current_name name : List ℕ} {k k' : Sched}
    → Room m q
    → Executes l current_name k q name (returns k' q' (pos pid))
    → (j : ℕ) × (m ≡ suc j) × Room j q'
adds-Room {q = q} {q' = q'} r (adds {pid = pid} {c = c} v o slot e st p) =
    let f = num_false-fill q.pcb pid c slot in
    let g : empty_slots q' ≡ num_false (map is_some (set q.pcb pid (some c))) =
      ap (λ xs. num_false (map is_some xs)) e in
    (empty_slots q', omega (arith, r.room), record { valid = v; room = refl })

refuses-Room :
    {m n : ℕ} {q q' : Ptable} {l : Loader} {current_name name : List ℕ} {k k' : Sched}
    → Room m q
    → Executes l current_name k q name (returns k' q' (negsuc n))
    → Room m q'
refuses-Room r (refuses v e x) = record {
  valid = v;
  room = ap (λ xs. num_false (map is_some xs)) e ∙ r.room;
}

Waits-Room :
    {m w : ℕ} {k : Sched} {q : Ptable} {o : Outcome}
    → Room m q
    → Waits k q w o
    → Room m (table_after q o)
Waits-Room r (takes c d e f g h) = Keeps-Room r h
Waits-Room r (blocks c d e f g h) = Keeps-Room r h

Joins-Room :
    {m : ℕ} {k : Sched} {q : Ptable} {pid : ℤ} {o : Outcome}
    → Room m q
    → Joins k q pid o
    → Room m (table_after q o)
Joins-Room r (Joins.refuses f) = r
Joins-Room r (waits e l f c x) = Waits-Room r x

-- Over any sequence of process calls by any threads the table stays valid, and the successful
-- ExecUpdates and the empty slots that are left make up the empty slots of the start.
pub Life-slots :
    {pt q : Ptable} {n : ℕ}
    → IsValid pt
    → Life pt n q
    → IsValid q × (n + empty_slots q ≡ empty_slots pt)
Life-slots {pt} h start = (h, omega arith)
Life-slots h (execs {q = q} l g cn nm k k' pid r o e) =
    let (v, s) = Life-slots h r in
    let (out, e', x) = exec_update-Executes l g cn nm k q v o in
    let (j, d, room) =
      adds-Room (record { valid = v; room = refl })
        (subst (Executes l cn k q nm) (some-injective _ _ (sym e' ∙ e)) x) in
    (room.valid, omega (arith, room.room))
Life-slots h (fails {q = q} l g cn nm k k' n r o e) =
    let (v, s) = Life-slots h r in
    let (out, e', x) = exec_update-Executes l g cn nm k q v o in
    let room =
      refuses-Room (record { valid = v; room = refl })
        (subst (Executes l cn k q nm) (some-injective _ _ (sym e' ∙ e)) x) in
    (room.valid, omega (arith, room.room))
Life-slots h (exits {q = q} {q' = q'} k k' ecd r e) =
    let (v, s) = Life-slots h r in
    let room =
      Keeps-Room (record { valid = v; room = refl }) (exit_update-Keeps k k' q q' ecd v e) in
    (room.valid, omega (arith, room.room))
Life-slots h (joins {q = q} k pid r e) =
    let (v, s) = Life-slots h r in
    let (out, e', x) = join_update-Joins k q pid v in
    let room =
      Joins-Room (record { valid = v; room = refl })
        (subst (Joins k q pid) (some-injective _ _ (sym e' ∙ e)) x) in
    (room.valid, omega (arith, room.room))
Life-slots h (resumes {q = q} k w c r u e) =
    let (v, s) = Life-slots h r in
    let (out, e', x) = join_resume-Waits k q w c v u in
    let room =
      Waits-Room (record { valid = v; room = refl })
        (subst (Waits k q w) (some-injective _ _ (sym e' ∙ e)) x) in
    (room.valid, omega (arith, room.room))

-- From a valid table at most ten ExecUpdates ever succeed, however many processes exit.
pub exec_limit : {pt q : Ptable} {n : ℕ} → IsValid pt → Life pt n q → n ≤ max_process
exec_limit {pt} h l = omega (arith, (Life-slots h l).1, num_false-le pt.pcb, h.tracks.slots)
