-- ===== src/Ptable/ExecUpdate.antt =====
-- ExecUpdate on a valid table.
use nachos_system_calls.Prelude.{
  ℕ, zero, suc, ◌+◌, ◌<◌, ◌≡◌, refl, true, false, Option, none, some, List, [], ◌∷◌, get_elem?, set,
  map, length, ℤ, pos, negsuc, arith, ◌==◌, ==_iff, Bool-cases, Option-cases, inl, inr, ap, ◌∙◌,
  sym, subst, lt_of_get_elem?, replicate, All,
}
use nachos_system_calls.CString.{strncmp_eq, strncpy}
use nachos_system_calls.Bitmap
use nachos_system_calls.Bitmap.{BitMap, div_round_up}
use nachos_system_calls.Bitmap.View.{bits, IsWord}
use nachos_system_calls.Bitmap.Update.{mark_lem, clear_lem}
use nachos_system_calls.Bitmap.Search.{
  first_clear, num_false, find_full, find_free, num_clear_lem, create_lem,
}
use nachos_system_calls.Bitmap.Slots.{is_some, Tracks, first_clear_slot, Tracks-write, Tracks-empty}
use nachos_system_calls.Semaphore.{Sched, Semaphore, new_semaphore, ready_to_run, took, p, v}
use nachos_system_calls.Pcb
use nachos_system_calls.Pcb.{Pcb, Loader, new_pcb, exec}
use nachos_system_calls.Ptable.{
  Ptable, max_process, create_table, find_slot, runs_in, Outcome, returns, leave, exec_in,
  exec_child, exec_with_parent, exec_first, exec_body, exec_round, exec_update,
}
use nachos_system_calls.Ptable.Slots.{
  IsValid, HasParent, AllLinked, AllLinked-set, find_slot-some, all_clear, set_same, set-set,
}

-- The new control block after Exec.
pub record Started (l : Loader) (pid : ℕ) (ppid : ℤ) (c : Pcb) : Type 0 where
  pub id : c.process_id ≡ pos pid
  pub parent : c.parent_id ≡ ppid
  pub thread : c.thread ≡ some l.new_thread
  pub joinsem : c.joinsem ≡ new_semaphore 0

block : List ℕ → ℕ → ℤ → Option ℕ → Pcb
block name pid ppid thread = record {
  process_name = strncpy 50 name;
  process_id = pos pid;
  parent_id = ppid;
  numwait = pos 0;
  exitcode = pos 0;
  thread = thread;
  joinsem = record { value = 0; queue = [] };
  exitsem = record { value = 0; queue = [] };
  multex = record { value = 1; queue = [] };
}

-- Exec on a new block: its mutex is free, so it never sleeps.
exec_opens :
    (l : Loader) (garbage name : List ℕ) (k : Sched) (pid : ℕ) (ppid : ℤ)
    → l.opens name ≡ true
    → l.loads name ≡ true
    → (k' : Sched) × (c : Pcb) × (exec l k (new_pcb garbage) (some name) (pos pid) ppid
        ≡ some (Pcb.returns k' c (pos 0)))
      × Started l pid ppid c
unfolding exec new_pcb new_semaphore p v block
exec_opens l garbage name k pid (negsuc zero) o e = (
  record k { current = l.new_thread },
  block name pid (negsuc 0) (some l.new_thread),
  rw (o, e),
  started,
)
  where
    started : Started l pid (negsuc 0) (block name pid (negsuc 0) (some l.new_thread))
    started = record { id = refl; parent = refl; thread = refl; joinsem = refl }
exec_opens l garbage name k pid (negsuc (suc n)) o e = (
  ready_to_run k l.new_thread,
  block name pid (negsuc (suc n)) (some l.new_thread),
  rw (o, e),
  started,
)
  where
    started : Started l pid (negsuc (suc n)) (block name pid (negsuc (suc n)) (some l.new_thread))
    started = record { id = refl; parent = refl; thread = refl; joinsem = refl }
exec_opens l garbage name k pid (pos n) o e =
    (ready_to_run k l.new_thread, block name pid (pos n) (some l.new_thread), rw (o, e), started)
  where
    started : Started l pid (pos n) (block name pid (pos n) (some l.new_thread))
    started = record { id = refl; parent = refl; thread = refl; joinsem = refl }

exec_missing :
    (l : Loader) (garbage name : List ℕ) (k : Sched) (pid : ℕ) (ppid : ℤ)
    → l.opens name ≡ false
    → (k' : Sched) × (c : Pcb) × (exec l k (new_pcb garbage) (some name) (pos pid) ppid
        ≡ some (Pcb.returns k' c (negsuc 0)))
unfolding exec new_pcb new_semaphore p v block
exec_missing l garbage name k pid ppid o = (k, block name pid ppid none, rw o)

-- Why a call of ExecUpdate returns -1.
pub data Refused (l : Loader) (current_name : List ℕ) (k : Sched) (pt : Ptable) (name : List ℕ)
    : Type 0 where
  itself : strncmp_eq 49 current_name name ≡ true → Refused l current_name k pt name
  orphan : find_slot (runs_in k.current) pt.pcb ≡ none → Refused l current_name k pt name
  full : first_clear (map is_some pt.pcb) ≡ none → Refused l current_name k pt name
  missing : l.opens name ≡ false → Refused l current_name k pt name

-- The parent that a new process gets: none in an empty table, else the slot of the caller.
pub data Parent (k : Sched) (pt : Ptable) : ℤ → Type 0 where
  root : num_false (map is_some pt.pcb) ≡ max_process → Parent k pt (negsuc 0)
  caller : {j : ℕ} → find_slot (runs_in k.current) pt.pcb ≡ some j → Parent k pt (pos j)

-- What ExecUpdate does: it always returns. Either nothing is added to the table, or one empty slot
-- holds the new process.
pub data Executes (l : Loader) (current_name : List ℕ) (k : Sched) (pt : Ptable) (name : List ℕ)
    : Outcome → Type 0 where
  refuses :
      {k' : Sched} {pt' : Ptable}
      → IsValid pt'
      → pt'.pcb ≡ pt.pcb
      → Refused l current_name k pt name
      → Executes l current_name k pt name (returns k' pt' (negsuc 0))
  adds :
      {k' : Sched} {pt' : Ptable} {pid : ℕ} {ppid : ℤ} {c : Pcb}
      → IsValid pt'
      → l.opens name ≡ true
      → get_elem? pt.pcb pid ≡ some none
      → pt'.pcb ≡ set pt.pcb pid (some c)
      → Started l pid ppid c
      → Parent k pt ppid
      → Executes l current_name k pt name (returns k' pt' (pos pid))

value-v : (k : Sched) (n : ℕ) (q : List ℕ) → (v k (record { value = n; queue = q })).1.value ≡ n + 1
unfolding v
value-v k n [] = refl
value-v k n (t ∷ q) = refl

-- While bmsem is held its value is 0, and every way out gives it back.
unlock :
    (k : Sched) (pt : Ptable)
    → Tracks max_process pt.bm pt.pcb
    → pt.bmsem.value ≡ 0
    → AllLinked pt.pcb
    → IsValid (record pt { bmsem = (v k pt.bmsem).1 })
unlock k pt t e h = record {
  tracks = t;
  unlocked = value-v k pt.bmsem.value pt.bmsem.queue ∙ ap (λ n. n + 1) e;
  linked = h;
}

HasParent-Parent : (k : Sched) (pt : Ptable) (ppid : ℤ) → Parent k pt ppid → HasParent pt.pcb ppid
HasParent-Parent k pt _ (root e) = inl refl
HasParent-Parent k pt _ (caller {j} e) =
    let (c, g, _) = find_slot-some (runs_in k.current) pt.pcb j e in inr (j, refl, (c, g))

module _ (l : Loader) (garbage current_name name : List ℕ) (k : Sched) (pt : Ptable)
    (valid : IsValid pt) (loads : l.loads name ≡ true) (s : Semaphore) (held : s.value ≡ 0) where
  refused :
      (bm : BitMap)
      → Tracks max_process bm pt.pcb
      → (k' : Sched) → Refused l current_name k pt name
      → Executes l current_name k pt name (leave k' (record pt { bm = bm; bmsem = s }) (negsuc 0))
  unfolding leave
  refused bm t k' r =
      refuses (unlock k' (record pt { bm = bm; bmsem = s }) t held valid.linked) refl r

  exec_in_lem :
      (bm : BitMap) (pid : ℕ) (ppid : ℤ)
      → Bitmap.View.IsValid bm
      → bm.num_bits ≡ pt.bm.num_bits
      → bits bm ≡ set (bits pt.bm) pid true
      → get_elem? pt.pcb pid ≡ some none
      → Parent k pt ppid
      → (o : Outcome) × (exec_in l garbage k (record pt { bm = bm; bmsem = s }) name pid ppid
          ≡ some o)
        × Executes l current_name k pt name o
  unfolding exec_in leave
  exec_in_lem bm pid ppid vb nb sb slot parent = elim (Bool-cases (l.opens name)) [
    | inl o ↦
        let (k', c, e, st) = exec_opens l garbage name k pid ppid o loads in
        let xs = set pt.pcb pid (some c) in
        let q : HasParent pt.pcb c.parent_id =
          subst (HasParent pt.pcb) (sym st.parent) (HasParent-Parent k pt ppid parent) in
        (
          leave k' (record { pcb = xs; bm = bm; bmsem = s }) (pos pid),
          rw (slot, e),
          adds
              (unlock k' (record { pcb = xs; bm = bm; bmsem = s })
                (Tracks-write pid (some c) valid.tracks vb nb sb) held
                (AllLinked-set pt.pcb pid c (lt_of_get_elem? pt.pcb pid slot) valid.linked st.id q))
              o slot refl st parent,
        )
    | inr o ↦
        let (k', c, e) = exec_missing l garbage name k pid ppid o in
        let (b, eb, v', n, sb') = clear_lem pid vb (in_map bm nb slot) in
        let t =
          Tracks-write pid none valid.tracks v' (n ∙ nb)
            (sb' ∙ ap (λ ys. set ys pid false) sb ∙ set-set (bits pt.bm) pid true false) in
        (
          leave k' (record { pcb = set pt.pcb pid none; bm = b; bmsem = s }) (negsuc 0),
          rw (slot, e, eb),
          rw (set_same pt.pcb pid none slot) (
              refused b (subst (Tracks max_process b) (set_same pt.pcb pid none slot) t) k'
                (missing o)),
        )
  ]
    where
      in_map :
          (bm : BitMap)
          → bm.num_bits ≡ pt.bm.num_bits
          → get_elem? pt.pcb pid ≡ some none
          → pid < bm.num_bits
      in_map bm e g =
          omega (arith, lt_of_get_elem? pt.pcb pid g, valid.tracks.slots, valid.tracks.size)

  from_parent :
      (o : Option ℕ)
      → find_slot (runs_in k.current) pt.pcb ≡ o
      → (r : Outcome) × (exec_with_parent l garbage k (record pt { bmsem = s }) name o ≡ some r)
        × Executes l current_name k pt name r
  unfolding exec_with_parent exec_child leave
  from_parent none e =
      (leave k (record pt { bmsem = s }) (negsuc 0), refl, refused pt.bm valid.tracks k (orphan e))
  from_parent (some j) e = elim (Option-cases (first_clear (map is_some pt.pcb))) [
    | inl f ↦ (
      leave k (record pt { bmsem = s }) (negsuc 0),
      rw (find_full valid.tracks.bitmap (ap first_clear valid.tracks.used ∙ f)),
      refused pt.bm valid.tracks k (full f),
    )
    | inr (i, f) ↦
        let (b, eb, vb, n, sb) =
          find_free i valid.tracks.bitmap (ap first_clear valid.tracks.used ∙ f) in
        rw eb (exec_in_lem b i (pos j) vb n sb (first_clear_slot pt.pcb i f) (caller e))
  ]

  first_process :
      num_false (map is_some pt.pcb) ≡ max_process
      → (r : Outcome) × (exec_first l garbage k (record pt { bmsem = s }) name ≡ some r)
        × Executes l current_name k pt name r
  unfolding exec_first
  first_process e =
      let (b, eb, vb, n, sb) = mark_lem 0 valid.tracks.bitmap (omega (arith, valid.tracks.size)) in
      let slot =
        all_clear pt.pcb 0 (e ∙ sym valid.tracks.slots) (omega (arith, valid.tracks.slots)) in
      rw eb (exec_in_lem b 0 (negsuc 0) vb n sb slot (root e))

  body_lem :
      (r : Outcome) × (exec_body l garbage current_name k (record pt { bmsem = s }) (some name)
        ≡ some r)
      × Executes l current_name k pt name r
  unfolding exec_body
  body_lem =
      let count =
        num_clear_lem valid.tracks.bitmap ∙ ap (λ xs. some (num_false xs)) valid.tracks.used in
      elim (Bool-cases (num_false (map is_some pt.pcb) == max_process)) [
        | inl e ↦ rw (count, e) (first_process ((==_iff _ _).0 e))
        | inr e ↦ elim (Bool-cases (strncmp_eq 49 current_name name)) [
          | inl same ↦ (
            leave k (record pt { bmsem = s }) (negsuc 0),
            rw (count, e, same),
            refused pt.bm valid.tracks k (itself same),
          )
          | inr other ↦
              rw (count, e, other) (from_parent (find_slot (runs_in k.current) pt.pcb) refl)
        ]
      ]

p-free : (t : ℕ) (s : Semaphore) → s.value ≡ 1 → p t s ≡ (took, record s { value = 0 })
unfolding p
p-free t s e = ground arith

-- ExecUpdate on a valid table, for a program that loads: it neither sleeps nor aborts, gives bmsem
-- back on every way out, keeps the table valid, and either adds one process, in an empty slot, or
-- returns -1 with the table unchanged for one of the four reasons.
pub exec_update-Executes :
    (l : Loader) (garbage current_name name : List ℕ) (k : Sched) (pt : Ptable)
    → IsValid pt
    → l.loads name ≡ true
    → (o : Outcome) × (exec_update l garbage current_name k pt (some name) ≡ some o)
      × Executes l current_name k pt name o
unfolding exec_update exec_round
exec_update-Executes l garbage current_name name k pt v loads =
    rw (p-free k.current pt.bmsem v.unlocked)
      (body_lem l garbage current_name name k pt v loads (record pt.bmsem { value = 0 }) refl)

-- The constructor returns a valid table without a process.
pub create_table-IsValid :
    (storage : List ℕ)
    → length storage ≡ div_round_up max_process 32
    → All IsWord storage
    → (pt : Ptable) × (create_table storage ≡ some pt)
      × IsValid pt
      × (pt.pcb ≡ replicate max_process none)
unfolding create_table new_semaphore
create_table-IsValid storage l w =
    let (b, e, v, n, s) = create_lem storage max_process l w in
    (
      record { pcb = replicate max_process none; bm = b; bmsem = new_semaphore 1 },
      rw e,
      record { tracks = Tracks-empty v n s; unlocked = refl; linked = no_process max_process },
      refl,
    )
  where
    no_process : (n : ℕ) → AllLinked (replicate n none)
    no_process zero i c e = cc
    no_process (suc n) zero c e = cc
    no_process (suc n) (suc i) c e = absurd (none_at n i e)
      where
        none_at : (m j : ℕ) → get_elem? (replicate m none) j ≡ some (some c) → ⊥
        none_at zero j h = cc
        none_at (suc m) zero h = cc
        none_at (suc m) (suc j) h = none_at m j h
