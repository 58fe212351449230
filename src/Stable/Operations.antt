-- ===== src/Stable/Operations.antt =====
-- Create, Wait and Signal against the map.
use nachos_system_calls.Prelude.{
  ℕ, ◌≡◌, refl, true, Option, none, some, List, get_elem?, set, map, arith, if◌then◌else◌,
  Option-cases, inl, inr, ◌⊎◌, ℤ, pos, negsuc, replicate, length, ap, ◌∙◌, All,
}
use nachos_system_calls.CString.{strncmp_eq, strncmp_eq-strncpy, strncmp_eq_refl}
use nachos_system_calls.Bitmap.{div_round_up}
use nachos_system_calls.Bitmap.View.{IsWord}
use nachos_system_calls.Bitmap.Slots.{
  is_some, Tracks, first_clear_slot, Tracks-empty, Tracks-write, Tracks-replace,
}
use nachos_system_calls.Bitmap.Search.{first_clear, create_lem, find_full, find_free}
use nachos_system_calls.Semaphore.{Sched, Semaphore, new_semaphore, Round, took, slept, p, v}
use nachos_system_calls.Stable.{
  Sem, Stable, max_semaphore, create_table, find_name, new_sem, put_at, create, create_new, Wait,
  returns, sleeps, wait, wait_on, wait_found, after_round, signal, signal_found,
}
use nachos_system_calls.Stable.Map.{
  lookup, lookup_of_find_none, find_name-some, lookup-set_found, lookup-set_free,
}

-- The bitmap marks exactly the slots in use.
abbrev pub IsValid : Stable → Type 0
IsValid st = Tracks max_semaphore st.bm st.semtab

-- The constructor returns a valid table without a semaphore.
pub create_table-lookup :
    (storage : List ℕ)
    → length storage ≡ div_round_up max_semaphore 32
    → All IsWord storage
    → (st : Stable) × (create_table storage ≡ some st)
      × IsValid st
      × ((m : List ℕ) → lookup st.semtab m ≡ none)
unfolding create_table
create_table-lookup storage l w =
    let (b, e, v, n, s) = create_lem storage max_semaphore l w in
    (
      record { bm = b; semtab = replicate max_semaphore none },
      rw e,
      Tracks-empty v n s,
      λ m. lookup_of_find_none (replicate max_semaphore none) m (unfold find_name in refl),
    )

put_at_lem :
    (st : Stable) (i : ℕ) (x y : Option Sem)
    → get_elem? st.semtab i ≡ some x
    → put_at st i y ≡ some (record st { semtab = set st.semtab i y })
unfolding put_at
put_at_lem st i x y e = rw e

-- What Create does.
pub data Creates (st : Stable) (name : List ℕ) (init : ℕ) : Stable → ℤ → Type 0 where
  -- a semaphore of that name exists
  exists : {s : Semaphore} → lookup st.semtab name ≡ some s → Creates st name init st (negsuc 0)
  -- every slot is in use
  full :
      lookup st.semtab name ≡ none
      → first_clear (map is_some st.semtab) ≡ none
      → Creates st name init st (negsuc 0)
  -- the map has the new semaphore, and is otherwise unchanged
  made :
      {st' : Stable}
      → lookup st.semtab name ≡ none
      → ((m : List ℕ)
          → lookup st'.semtab m
            ≡ (if strncmp_eq 49 name m then some (new_semaphore init) else lookup st.semtab m))
      → Creates st name init st' (pos 0)

new_sem-name : (name : List ℕ) (init : ℕ) → strncmp_eq 49 (new_sem name init).sem_name name ≡ true
unfolding new_sem
new_sem-name name init = strncmp_eq-strncpy 49 50 name name (omega arith) ∙ strncmp_eq_refl 49 name

new_sem-sem : (name : List ℕ) (init : ℕ) → (new_sem name init).sem ≡ new_semaphore init
unfolding new_sem
new_sem-sem name init = refl

create_new_lem :
    (st : Stable) (name : List ℕ) (init : ℕ)
    → IsValid st
    → find_name st.semtab name ≡ none
    → (o : Option ℕ) → first_clear (map is_some st.semtab) ≡ o
    → (st' : Stable) × (r : ℤ) × (create_new st name init none ≡ some (st', r))
      × IsValid st'
      × Creates st name init st' r
unfolding create_new
create_new_lem st name init h f none e = (
  st,
  negsuc 0,
  rw (find_full h.bitmap (ap first_clear h.used ∙ e)),
  h,
  full (lookup_of_find_none st.semtab name f) e,
)
create_new_lem st name init h f (some i) e =
    let slot = first_clear_slot st.semtab i e in
    let (b, eb, vb, n, s) = find_free i h.bitmap (ap first_clear h.used ∙ e) in
    let st' : Stable = record { bm = b; semtab = set st.semtab i (some (new_sem name init)) } in
    (
      st',
      pos 0,
      rw (eb, put_at_lem (record st { bm = b }) i none (some (new_sem name init)) slot),
      Tracks-write i (some (new_sem name init)) h vb n s,
      made (lookup_of_find_none st.semtab name f) (λ m.
          lookup-set_free st.semtab name m i (new_sem name init) f slot (new_sem-name name init)
          ∙ ap (λ x. if strncmp_eq 49 name m then some x else lookup st.semtab m)
              (new_sem-sem name init)),
    )

-- Create on a valid table: it fails with -1 and no change if the name is taken or no slot is free,
-- and otherwise adds the semaphore and returns 0. A name is what strncmp reads of it, 49 bytes.
pub create-Creates :
    (st : Stable) (name : List ℕ) (init : ℕ)
    → IsValid st
    → (st' : Stable) × (r : ℤ) × (create st (some name) (pos init) ≡ some (st', r))
      × IsValid st'
      × Creates st name init st' r
unfolding create
create-Creates st name init v = elim (Option-cases (find_name st.semtab name)) [
  | inl e ↦ rw e (create_new_lem st name init v e (first_clear (map is_some st.semtab)) refl)
  | inr (i, e) ↦
      let (s, _, _, l) = find_name-some st.semtab name i e in
      (st, negsuc 0, rw (e, create_new), v, exists l)
]

-- What Wait does by thread `t`, with the outcome of one round of P.
pub data Waits (t : ℕ) (st : Stable) (name : List ℕ) : Wait → Type 0 where
  unknown : lookup st.semtab name ≡ none → Waits t st name (returns st (negsuc 0))
  acquires :
      {s s' : Semaphore} {st' : Stable}
      → lookup st.semtab name ≡ some s
      → p t s ≡ (took, s')
      → ((m : List ℕ)
          → lookup st'.semtab m ≡ (if strncmp_eq 49 name m then some s' else lookup st.semtab m))
      → Waits t st name (returns st' (pos 0))
  blocks :
      {s s' : Semaphore} {st' : Stable} {i : ℕ}
      → lookup st.semtab name ≡ some s
      → p t s ≡ (slept, s')
      → ((m : List ℕ)
          → lookup st'.semtab m ≡ (if strncmp_eq 49 name m then some s' else lookup st.semtab m))
      → Waits t st name (sleeps st' i)

abbrev pub table_of : Wait → Stable
table_of (returns st r) = st
table_of (sleeps st i) = st

after_round_lem :
    (t : ℕ) (st : Stable) (name : List ℕ) (i : ℕ) (s : Sem) (o : Round × Semaphore)
    → IsValid st
    → find_name st.semtab name ≡ some i
    → get_elem? st.semtab i ≡ some (some s)
    → strncmp_eq 49 s.sem_name name ≡ true
    → lookup st.semtab name ≡ some s.sem
    → p t s.sem ≡ o
    → (w : Wait) × (after_round st i s.sem_name o ≡ some w)
      × IsValid (table_of w)
      × Waits t st name w
unfolding after_round
after_round_lem t st name i s (took, s') h f g k l e =
    let x : Sem = record { sem_name = s.sem_name; sem = s' } in
    (
      returns (record st { semtab = set st.semtab i (some x) }) (pos 0),
      rw (put_at_lem st i (some s) (some x) g),
      Tracks-replace i x s g h,
      acquires l e (λ m. lookup-set_found st.semtab name m i x f k),
    )
after_round_lem t st name i s (slept, s') h f g k l e =
    let x : Sem = record { sem_name = s.sem_name; sem = s' } in
    (
      sleeps (record st { semtab = set st.semtab i (some x) }) i,
      rw (put_at_lem st i (some s) (some x) g),
      Tracks-replace i x s g h,
      blocks l e (λ m. lookup-set_found st.semtab name m i x f k),
    )

-- Wait on a valid table keeps it valid: -1 and no change for an unknown name, else one round of P
-- on the semaphore of that name, the map being otherwise unchanged.
pub wait_lem :
    (t : ℕ) (st : Stable) (name : List ℕ)
    → IsValid st
    → (w : Wait) × (wait t st (some name) ≡ some w) × IsValid (table_of w) × Waits t st name w
unfolding wait wait_found wait_on
wait_lem t st name h = elim (Option-cases (find_name st.semtab name)) [
  | inl e ↦
      (returns st (negsuc 0), rw (e, wait_found), h, unknown (lookup_of_find_none st.semtab name e))
  | inr (i, e) ↦
      let (s, g, k, l) = find_name-some st.semtab name i e in
      rw (e, wait_found, g) (after_round_lem t st name i s (p t s.sem) h e g k l refl)
]

-- Signal on a valid table keeps it valid: -1 and no change for an unknown name, else V on the
-- semaphore of that name, the map being otherwise unchanged.
pub signal_lem :
    (k : Sched) (st : Stable) (name : List ℕ)
    → IsValid st
    → ((lookup st.semtab name ≡ none) × (signal k st (some name) ≡ some (k, st, negsuc 0)))
      ⊎ ((s : Semaphore) × (st' : Stable) × (lookup st.semtab name ≡ some s)
          × (signal k st (some name) ≡ some ((v k s).0, st', pos 0))
          × IsValid st'
          × ((m : List ℕ)
              → lookup st'.semtab m
                ≡ (if strncmp_eq 49 name m then some (v k s).1 else lookup st.semtab m)))
unfolding signal signal_found
signal_lem k st name h = elim (Option-cases (find_name st.semtab name)) [
  | inl e ↦ inl (lookup_of_find_none st.semtab name e, rw (e, signal_found))
  | inr (i, e) ↦
      let (s, g, c, l) = find_name-some st.semtab name i e in
      let x : Sem = record s { sem = (v k s.sem).1 } in
      inr (
        s.sem,
        record st { semtab = set st.semtab i (some x) },
        l,
        rw (e, signal_found, g),
        Tracks-replace i x s g h,
        λ m. lookup-set_found st.semtab name m i x e c,
      )
]
