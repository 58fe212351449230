-- ===== src/Thread/Meanwhile.antt =====
-- What happens to the control block of a thread that does not have the processor.
use mathlib.Core.Option.{some-injective}
use nachos_system_calls.Prelude.{
  ℕ, zero, suc, ◌≡◌, ◌≢◌, sym, ap, subst, ◌∙◌, none, some, List, [], ◌∷◌, get_elem?,
  lt_of_get_elem?, get_elem?-set_self, get_elem?-set_ne, set, ℕ_discrete, >>=-eq-some, arith, ◌++◌,
  Option,
}
use nachos_system_calls.AddrSpace.{AddrSpace}
use nachos_system_calls.Machine.{Machine}
use nachos_system_calls.Thread.{
  ThreadStatus, running, Thread, Threads, save_user_state, restore_user_state, shared, set_status,
  save_current, restore_current, run_out, resume,
}

get_elem?-append :
    (xs : List Thread) (x : Thread) (i : ℕ) {t : Thread}
    → get_elem? xs i ≡ some t
    → get_elem? (xs ++ x ∷ []) i ≡ some t
get_elem?-append [] x i e = absurd (ground (arith, e))
get_elem?-append (y ∷ xs) x zero e = e
get_elem?-append (y ∷ xs) x (suc i) e = get_elem?-append xs x i e

-- What may happen while thread `a` does not have the processor: any run of the machine, any change
-- of the lists and of the blocks of other threads, new threads, a new status for any thread, and
-- the switches of other threads, the one to `a` too.
pub data Meanwhile (a : ℕ) (k : Threads) : Threads → Type 0 where
  at_first : Meanwhile a k k
  machine_runs :
      (x : Threads) (m : Machine) → Meanwhile a k x → Meanwhile a k (record x { machine = m })
  lists_change :
      (x : Threads) (list : List ℕ) (destroyed : Option ℕ)
      → Meanwhile a k x
      → Meanwhile a k (record x { ready_list = list; to_be_destroyed = destroyed })
  block_changes :
      (x : Threads) (i : ℕ) (t : Thread)
      → i ≢ a
      → Meanwhile a k x
      → Meanwhile a k (record x { threads = set x.threads i t })
  creates :
      (x : Threads) (t : Thread)
      → Meanwhile a k x
      → Meanwhile a k (record x { threads = x.threads ++ t ∷ [] })
  status_changes :
      (x y : Threads) (i : ℕ) (status : ThreadStatus)
      → Meanwhile a k x
      → set_status x i status ≡ some y
      → Meanwhile a k y
  switches :
      (x y : Threads) (b : ℕ)
      → Meanwhile a k x
      → x.current ≢ a
      → run_out x b ≡ some y
      → Meanwhile a k y
  resumes : (x y : Threads) → Meanwhile a k x → x.current ≢ a → resume x ≡ some y → Meanwhile a k y

module _ (a : ℕ) (regs : List ℕ) (space : Option AddrSpace) where
  -- The registers and the space in the block of thread `a`.
  abbrev pub Holds : Threads → Type 0
  Holds x =
      (t : Thread) × (get_elem? x.threads a ≡ some t)
      × (t.user_registers ≡ regs)
      × (t.space ≡ space)

  set-Holds :
      (x : Threads) (i : ℕ) (t : Thread)
      → i ≢ a
      → Holds x
      → Holds (record x { threads = set x.threads i t })
  set-Holds x i t differ (u, e, p, q) = (u, get_elem?-set_ne x.threads t differ ∙ e, p, q)

  set_status-Holds :
      (x y : Threads) (i : ℕ) (status : ThreadStatus)
      → Holds x
      → set_status x i status ≡ some y
      → Holds y
  unfolding set_status
  set_status-Holds x y i status (u, e, p, q) h =
      let (t, f, g) = >>=-eq-some (get_elem? x.threads i) _ h in
      subst Holds (some-injective _ _ g) (elim (ℕ_discrete i a) [
        | no n ↦ set-Holds x i (record t { status = status }) n (u, e, p, q)
        | yes z ↦
            let v : Thread = record t { status = status } in
            let same : t ≡ u = some-injective _ _ (sym f ∙ ap (get_elem? x.threads) z ∙ e) in
            (
              v,
              ap (get_elem? (set x.threads i v)) (sym z)
                  ∙ get_elem?-set_self x.threads i v (lt_of_get_elem? x.threads i f),
              ap (λ (w : Thread). w.user_registers) same ∙ p,
              ap (λ (w : Thread). w.space) same ∙ q,
            )
      ])

  save_current-Holds :
      (x y : Threads) (t : Thread) (o : Option AddrSpace)
      → x.current ≢ a
      → Holds x
      → save_current x t o ≡ some y
      → Holds y
  unfolding save_current
  save_current-Holds x y t none n h e = subst Holds (some-injective _ _ e) h
  save_current-Holds x y t (some s) n h e =
      let (t', f, g) = >>=-eq-some (save_user_state x.machine t) _ e in
      subst Holds (some-injective _ _ g)
        (set-Holds x x.current (record t' { space = some (shared s x.machine.page_table) }) n h)

  run_out-Holds : (x y : Threads) (b : ℕ) → x.current ≢ a → Holds x → run_out x b ≡ some y → Holds y
  unfolding run_out
  run_out-Holds x y b n h e =
      let (t, f, g) = >>=-eq-some (get_elem? x.threads x.current) _ e in
      let (z, f', g') = >>=-eq-some (save_current x t t.space) _ g in
      set_status-Holds (record z { current = b }) y b running
        (save_current-Holds x z t t.space n h f') g'

  restore_current-Holds :
      (x y : Threads) (t : Thread) (o : Option AddrSpace)
      → Holds x
      → restore_current x t o ≡ some y
      → Holds y
  unfolding restore_current
  restore_current-Holds x y t none h e = subst Holds (some-injective _ _ e) h
  restore_current-Holds x y t (some s) h e =
      let (m, f, g) = >>=-eq-some (restore_user_state t x.machine) _ e in
      subst Holds (some-injective _ _ g) h

  resume-Holds : (x y : Threads) → Holds x → resume x ≡ some y → Holds y
  unfolding resume
  resume-Holds x y h e =
      let (t, f, g) = >>=-eq-some (get_elem? x.threads x.current) _ e in
      restore_current-Holds (record x { to_be_destroyed = none }) y t t.space h g

  -- Nothing that happens meanwhile touches them.
  pub Meanwhile-Holds : {k x : Threads} → Holds k → Meanwhile a k x → Holds x
  Meanwhile-Holds h at_first = h
  Meanwhile-Holds h (machine_runs x m r) = Meanwhile-Holds h r
  Meanwhile-Holds h (lists_change x l d r) = Meanwhile-Holds h r
  Meanwhile-Holds h (block_changes x i t n r) = set-Holds x i t n (Meanwhile-Holds h r)
  Meanwhile-Holds h (creates x t r) =
      let (u, e, p, q) = Meanwhile-Holds h r in (u, get_elem?-append x.threads t a e, p, q)
  Meanwhile-Holds h (status_changes x y i s r e) = set_status-Holds x y i s (Meanwhile-Holds h r) e
  Meanwhile-Holds h (switches x y b r n e) = run_out-Holds x y b n (Meanwhile-Holds h r) e
  Meanwhile-Holds h (resumes x y r n e) = resume-Holds x y (Meanwhile-Holds h r) e
