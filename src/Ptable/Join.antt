-- ===== src/Ptable/Join.antt =====
-- JoinUpdate on a valid table, and what an exit does to a parent that joins.
use mathlib.Core.Option.{some-injective}
use nachos_system_calls.Prelude.{
  ℕ, ◌+◌, ◌-◌, ◌<◌, ◌≡◌, refl, true, false, some, [], ◌∷◌, ◌++◌, get_elem?, set, ℤ, pos, negsuc,
  arith, ltb, lt→ltb, ◌==◌, Bool-cases, Option-cases, inl, inr, ap, ◌∙◌, sym, subst,
  lt_of_get_elem?, get_elem?-set_self,
}
use nachos_system_calls.Semaphore.{Sched, p}
use nachos_system_calls.Pcb.{Pcb, join_wait, join_wait_again, incr}
use nachos_system_calls.Ptable.{
  Ptable, find_slot, runs_in, Outcome, returns, sleeps, finishes, is_child, join_self, join_from,
  join_update, join_resume, after_join, exit_update,
}
use nachos_system_calls.Ptable.Slots.{IsValid, find_slot-some}
use nachos_system_calls.Ptable.Exit.{
  Keeps, replace-Keeps, replace-IsValid, Exits, child, exit_update-Exits,
}

-- One round of the caller's wait on its own joinsem, in slot `w`.
pub data Waits (k : Sched) (pt : Ptable) (w : ℕ) : Outcome → Type 0 where
  -- a unit was there: the caller returns the code in its own block
  takes :
      (c d : Pcb)
      → get_elem? pt.pcb w ≡ some (some c)
      → c.joinsem.value ≡ d.joinsem.value + 1
      → d.exitcode ≡ c.exitcode
      → Keeps pt (record pt { pcb = set pt.pcb w (some d) })
      → Waits k pt w (returns k (record pt { pcb = set pt.pcb w (some d) }) c.exitcode)
  -- none was: the caller is put at the end of the queue
  blocks :
      (c d : Pcb)
      → get_elem? pt.pcb w ≡ some (some c)
      → c.joinsem.value ≡ 0
      → d.joinsem.queue ≡ c.joinsem.queue ++ (k.current ∷ [])
      → Keeps pt (record pt { pcb = set pt.pcb w (some d) })
      → Waits k pt w (sleeps k (record pt { pcb = set pt.pcb w (some d) }))

after_join_lem :
    (k : Sched) (pt : Ptable) (w : ℕ) (c : Pcb) (n : ℤ)
    → IsValid pt
    → get_elem? pt.pcb w ≡ some (some c)
    → Waits k pt w (
        after_join k pt w
          (let (r, s) = p k.current c.joinsem in (r, record c { numwait = n; joinsem = s })))
unfolding after_join p
after_join_lem k pt w c n h e = elim (Bool-cases (c.joinsem.value == 0)) [
  | inl z ↦ rw z (blocks c asleep e (ground arith) refl (replace-Keeps pt w c asleep h e refl refl))
  | inr z ↦ rw z (takes c taken e (ground arith) refl (replace-Keeps pt w c taken h e refl refl))
]
  where
    asleep : Pcb
    asleep = record c {
      numwait = n;
      joinsem = record c.joinsem { queue = c.joinsem.queue ++ (k.current ∷ []) };
    }

    taken : Pcb
    taken = record c { numwait = n; joinsem = record c.joinsem { value = c.joinsem.value - 1 } }

-- What JoinUpdate does.
pub data Joins (k : Sched) (pt : Ptable) (pid : ℤ) : Outcome → Type 0 where
  -- the caller is not in the table, or the target is not a child of it below 10
  refuses :
      ((n w : ℕ)
        → pid ≡ pos n
        → n < 10
        → find_slot (runs_in k.current) pt.pcb ≡ some w
        → is_child pt n w ≡ false)
      → Joins k pt pid (returns k pt (negsuc 0))
  waits :
      {n w : ℕ} {o : Outcome}
      → pid ≡ pos n
      → n < 10
      → find_slot (runs_in k.current) pt.pcb ≡ some w
      → is_child pt n w ≡ true
      → Waits k pt w o
      → Joins k pt pid o

join_self_lem :
    (k : Sched) (pt : Ptable) (w : ℕ) (c : Pcb)
    → IsValid pt
    → get_elem? pt.pcb w ≡ some (some c)
    → (o : Outcome) × (join_self k pt w ≡ some o) × Waits k pt w o
unfolding join_self join_wait
join_self_lem k pt w c h e = (_, rw e, after_join_lem k pt w c (incr c.numwait) h e)

-- The next round, when the thread in slot `w` has been woken.
pub join_resume-Waits :
    (k : Sched) (pt : Ptable) (w : ℕ) (c : Pcb)
    → IsValid pt
    → get_elem? pt.pcb w ≡ some (some c)
    → (o : Outcome) × (join_resume k pt w ≡ some o) × Waits k pt w o
unfolding join_resume join_wait_again
join_resume-Waits k pt w c h e = (_, rw e, after_join_lem k pt w c c.numwait h e)

-- JoinUpdate on a valid table: if the caller is not in the table or the target is not a child of it
-- below 10, -1 with no change; otherwise one round of P on the caller's own joinsem.
pub join_update-Joins :
    (k : Sched) (pt : Ptable) (pid : ℤ)
    → IsValid pt
    → (o : Outcome) × (join_update k pt pid ≡ some o) × Joins k pt pid o
unfolding join_update join_from
join_update-Joins k pt (negsuc n) h =
    (returns k pt (negsuc 0), refl, refuses (λ m w e. absurd (ground arith)))
join_update-Joins k pt (pos n) h = elim (Bool-cases (ltb n 10)) [
  | inr e ↦ (returns k pt (negsuc 0), rw e, refuses (λ m w p l. absurd (ground arith)))
  | inl e ↦ elim (Option-cases (find_slot (runs_in k.current) pt.pcb)) [
    | inl f ↦ (
      returns k pt (negsuc 0),
      rw (e, f, join_from),
      refuses (λ m w p l g. absurd (ground arith)),
    )
    | inr (w, f) ↦ elim (Bool-cases (is_child pt n w)) [
      | inr c ↦ (
        returns k pt (negsuc 0),
        rw (e, f, join_from, c),
        refuses (λ m v p l g. same m v p g f c),
      )
      | inl c ↦
          let (b, g, _) = find_slot-some (runs_in k.current) pt.pcb w f in
          let (o, j, x) = join_self_lem k pt w b h g in
          (o, rw (e, f, join_from, c) j, waits refl (ground arith) f c x)
    ]
  ]
]
  where
    same :
        (m v : ℕ) {w : ℕ}
        → pos n ≡ pos m
        → find_slot (runs_in k.current) pt.pcb ≡ some v
        → find_slot (runs_in k.current) pt.pcb ≡ some w
        → is_child pt n w ≡ false
        → is_child pt m v ≡ false
    same m v p g f c = cc

-- A unit that is there is taken.
Waits-ready :
    {k : Sched} {pt : Ptable} {w : ℕ} {o : Outcome} (c : Pcb)
    → get_elem? pt.pcb w ≡ some (some c)
    → 0 < c.joinsem.value
    → Waits k pt w o
    → (pt' : Ptable) × (o ≡ returns k pt' c.exitcode)
Waits-ready {k} {pt} {w} c e l (takes b d g _ _ _) =
    let s : b ≡ c = ground arith in
    let pt' : Ptable = record pt { pcb = set pt.pcb w (some d) } in
    (pt', ap (λ (x : Pcb). returns k pt' x.exitcode) s)
Waits-ready c e l (blocks b d g z _ _) = let s : b ≡ c = ground arith in absurd (ground arith)

Exits-code :
    {k k' : Sched} {pt pt' : Ptable} {ecd : ℤ} {a w : ℕ} (c : Pcb)
    → IsValid pt
    → find_slot (runs_in k.current) pt.pcb ≡ some a
    → get_elem? pt.pcb a ≡ some (some c)
    → c.parent_id ≡ pos w
    → Exits k pt ecd (finishes k' pt')
    → IsValid pt'
      × ((d : Pcb) × (get_elem? pt'.pcb w ≡ some (some d))
          × (0 < d.joinsem.value)
          × (d.exitcode ≡ ecd))
Exits-code {pt = pt} {w = w} c h f g e
      (child {w = x} {j = j} {c = b} {d = d₁} {d' = d'} f' g' e' u r) =
    let s : b ≡ c = ground (arith, ap (get_elem? pt.pcb) (some-injective _ _ (sym f' ∙ f))) in
    let t : j ≡ w = ground arith in
    (
      replace-IsValid pt j d₁ d' h u r.id r.parent,
      (
        d',
        rw (← t) (get_elem?-set_self pt.pcb j (some d') (lt_of_get_elem? pt.pcb j u)),
        omega (arith, r.given),
        r.code,
      ),
    )

-- Once any child has exited, the JoinUpdate of its parent for any child in the table returns at
-- once with the code of the child that exited: a join does not wait for its target.
pub join_takes_any :
    (k k' kp : Sched) (pt pt' : Ptable) (ecd : ℤ) (a w b : ℕ) (c : Pcb)
    → IsValid pt
    → find_slot (runs_in k.current) pt.pcb ≡ some a
    → get_elem? pt.pcb a ≡ some (some c)
    → c.parent_id ≡ pos w
    → exit_update k pt ecd ≡ some (finishes k' pt')
    → b < 10
    → find_slot (runs_in kp.current) pt'.pcb ≡ some w
    → is_child pt' b w ≡ true
    → (pt'' : Ptable) × (join_update kp pt' (pos b) ≡ some (returns kp pt'' ecd))
unfolding join_update join_from
join_takes_any k k' kp pt pt' ecd a w b c h f g e x l fp ch =
    let (o, e', y) = exit_update-Exits k pt ecd h in
    let (h', (d, u, pos_v, code)) =
      Exits-code c h f g e (subst (Exits k pt ecd) (some-injective _ _ (sym e' ∙ x)) y) in
    let (o', j, wt) = join_self_lem kp pt' w d h' u in
    let (pt'', s) = Waits-ready d u pos_v wt in
    (pt'', rw (lt→ltb b 10 l, fp, join_from, ch) (j ∙ ap some (s ∙ ap (returns kp pt'') code)))
