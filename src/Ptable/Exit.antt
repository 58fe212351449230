-- ===== src/Ptable/Exit.antt =====
-- ExitUpdate and JoinUpdate on a valid table.
use mathlib.Core.Option.{some-injective}
use nachos_system_calls.Prelude.{
  ℕ, ◌+◌, ◌≡◌, refl, none, some, List, [], ◌∷◌, get_elem?, set, map, ℤ, pos, negsuc, arith,
  Option-cases, inl, inr, ◌∙◌, sym, subst, lt_of_get_elem?,
}
use nachos_system_calls.Bitmap.Slots.{is_some, Tracks-replace}
use nachos_system_calls.Semaphore.{Sched, p, v}
use nachos_system_calls.Pcb.{Pcb, join_release, set_exit_code}
use nachos_system_calls.Ptable.{
  Ptable, find_slot, runs_in, Outcome, returns, halts, finishes, exit_to, exit_from, exit_update,
}
use nachos_system_calls.Ptable.Slots.{IsValid, HasParent, AllLinked-set, find_slot-some}

-- A control block is replaced by one of the same process.
pub replace-IsValid :
    (pt : Ptable) (i : ℕ) (c d : Pcb)
    → IsValid pt
    → get_elem? pt.pcb i ≡ some (some c)
    → d.process_id ≡ c.process_id
    → d.parent_id ≡ c.parent_id
    → IsValid (record pt { pcb = set pt.pcb i (some d) })
replace-IsValid pt i c d h e p q =
    let (own, parent) = h.linked i c e in
    record {
      tracks = Tracks-replace i d c e h.tracks;
      unlocked = h.unlocked;
      linked =
          AllLinked-set pt.pcb i d (lt_of_get_elem? pt.pcb i e) h.linked (p ∙ own)
            (subst (HasParent pt.pcb) (sym q) parent);
    }

-- The block of the parent after the exit of a child.
pub record Released (c d : Pcb) (ecd : ℤ) : Type 0 where
  pub id : d.process_id ≡ c.process_id
  pub parent : d.parent_id ≡ c.parent_id
  pub thread : d.thread ≡ c.thread
  pub code : d.exitcode ≡ ecd
  pub given : d.joinsem.value ≡ c.joinsem.value + 1

join_release-Released :
    (k : Sched) (c : Pcb) (ecd : ℤ) (q : List ℕ)
    → c.joinsem.queue ≡ q
    → Released c (join_release k (set_exit_code c ecd)).1 ecd
unfolding join_release set_exit_code v
join_release-Released k c ecd [] e = ground arith
join_release-Released k c ecd (t ∷ q) e = ground arith

-- What ExitUpdate does.
pub data Exits (k : Sched) (pt : Ptable) (ecd : ℤ) : Outcome → Type 0 where
  -- the caller is not in the table
  stranger : find_slot (runs_in k.current) pt.pcb ≡ none → Exits k pt ecd (returns k pt (negsuc 0))
  -- the caller is the first process
  first :
      {w : ℕ} {c : Pcb}
      → find_slot (runs_in k.current) pt.pcb ≡ some w
      → get_elem? pt.pcb w ≡ some (some c)
      → c.parent_id ≡ negsuc 0
      → Exits k pt ecd halts
  -- the parent's block is given the code and a unit of joinsem, and nothing else changes
  child :
      {w j : ℕ} {c d d' : Pcb} {k' : Sched}
      → find_slot (runs_in k.current) pt.pcb ≡ some w
      → get_elem? pt.pcb w ≡ some (some c)
      → c.parent_id ≡ pos j
      → get_elem? pt.pcb j ≡ some (some d)
      → Released d d' ecd
      → Exits k pt ecd (finishes k' (record pt { pcb = set pt.pcb j (some d') }))

exit_from_lem :
    (k : Sched) (pt : Ptable) (ecd : ℤ) (w : ℕ) (c : Pcb)
    → IsValid pt
    → find_slot (runs_in k.current) pt.pcb ≡ some w
    → get_elem? pt.pcb w ≡ some (some c)
    → HasParent pt.pcb c.parent_id
    → (o : Outcome) × (exit_to k pt c.parent_id ecd ≡ some o) × Exits k pt ecd o
unfolding exit_to
exit_from_lem k pt ecd w c h f g (inl e) = (halts, rw e, first f g e)
exit_from_lem k pt ecd w c h f g (inr (j, e, (d, u))) =
    let r = join_release k (set_exit_code d ecd) in
    (
      finishes r.0 (record pt { pcb = set pt.pcb j (some r.1) }),
      rw (e, u),
      child f g e u (join_release-Released k d ecd d.joinsem.queue refl),
    )

-- ExitUpdate on a valid table never follows a null pointer: an unknown caller gets -1, the first
-- process halts the machine, and any other hands its code to its parent, which is in the table.
pub exit_update-Exits :
    (k : Sched) (pt : Ptable) (ecd : ℤ)
    → IsValid pt
    → (o : Outcome) × (exit_update k pt ecd ≡ some o) × Exits k pt ecd o
unfolding exit_update exit_from
exit_update-Exits k pt ecd h = elim (Option-cases (find_slot (runs_in k.current) pt.pcb)) [
  | inl f ↦ (returns k pt (negsuc 0), rw (f, exit_from), stranger f)
  | inr (w, f) ↦
      let (c, g, _) = find_slot-some (runs_in k.current) pt.pcb w f in
      rw (f, exit_from, g) (exit_from_lem k pt ecd w c h f g (h.linked w c g).1)
]

-- The slots in use, and the bitmap, after a call are those before it.
pub record Keeps (pt pt' : Ptable) : Type 0 where
  pub valid : IsValid pt'
  pub used : map is_some pt'.pcb ≡ map is_some pt.pcb
  pub bitmap : pt'.bm ≡ pt.bm

pub replace-Keeps :
    (pt : Ptable) (i : ℕ) (c d : Pcb)
    → IsValid pt
    → get_elem? pt.pcb i ≡ some (some c)
    → d.process_id ≡ c.process_id
    → d.parent_id ≡ c.parent_id
    → Keeps pt (record pt { pcb = set pt.pcb i (some d) })
replace-Keeps pt i c d h e p q =
    let v' = replace-IsValid pt i c d h e p q in
    record { valid = v'; used = sym v'.tracks.used ∙ h.tracks.used; bitmap = refl }

Exits-Keeps :
    {k k' : Sched} {pt pt' : Ptable} {ecd : ℤ}
    → IsValid pt
    → Exits k pt ecd (finishes k' pt')
    → Keeps pt pt'
Exits-Keeps {pt = pt} h (child {j = j} {d = d} {d' = d'} f g e u r) =
    replace-Keeps pt j d d' h u r.id r.parent

-- An ExitUpdate that ends its thread keeps the table valid, and leaves the used slots and the
-- bitmap as they were: the process that exits keeps its slot.
pub exit_update-Keeps :
    (k k' : Sched) (pt pt' : Ptable) (ecd : ℤ)
    → IsValid pt
    → exit_update k pt ecd ≡ some (finishes k' pt')
    → Keeps pt pt'
exit_update-Keeps k k' pt pt' ecd h e =
    let (o, e', x) = exit_update-Exits k pt ecd h in
    Exits-Keeps h (subst (Exits k pt ecd) (some-injective _ _ (sym e' ∙ e)) x)
