-- ===== src/LinkedList/Loop.antt =====
-- The loop of SortedInsert in code/threads/list.cc, and the walk to the last element.
use nachos_system_calls.Prelude.{
  ℕ, zero, suc, ◌<◌, ◌≡◌, ◌≢◌, refl, sym, ap, ◌∙◌, subst, true, false, some, List, [], ◌∷◌, ◌++◌,
  length, arith, ◌==◌, if◌then◌else◌, ◌>>=◌, lt_int, Bool-cases, inl, inr,
}
use nachos_system_calls.LinkedList.{Heap, write, set_next, insert_loop}
use nachos_system_calls.LinkedList.Chain.{
  Cell, node, Absent, Chain, last_from, Chain-agree, write_self, write_ne, write-Agrees, load_lem,
  set_next_lem, Absent-append,
}
use nachos_system_calls.LinkedList.Sorted.{insert}

-- Insertion by key into the cells.
abbrev pub insert_cell : Cell → List Cell → List Cell
insert_cell = insert (λ (c : Cell). c.key)

Absent-insert :
    (a : ℕ) (x : Cell) (cs : List Cell) → Absent a cs → x.addr ≢ a → Absent a (insert_cell x cs)
Absent-insert a x [] f g = (g, tt)
Absent-insert a x (c ∷ cs) f g = elim (Bool-cases (lt_int x.key c.key)) [
  | inl e ↦ rw e (g, f)
  | inr e ↦ rw e (f.0, Absent-insert a x cs f.1 g)
]

-- A new element: its cell, at an address that is not NULL and not in the list, is in the heap.
pub record IsNew (h : Heap) (x : Cell) (cs : List Cell) : Type 0 where
  pub there : h x.addr ≡ some (node 0 x)
  pub non_null : x.addr ≢ 0
  pub absent : Absent x.addr cs

-- What the loop leaves, from the cell `c` on.
pub record Inserted (h : Heap) (x c : Cell) (cs : List Cell) (r : Heap × ℕ) : Type 0 where
  pub chain : Chain r.0 c.addr (c ∷ insert_cell x cs)
  pub last : r.1 ≡ last_from c.addr (insert_cell x cs)
  pub others : (a : ℕ) → Absent a (c ∷ cs) → a ≢ x.addr → r.0 a ≡ h a

at_end :
    (h : Heap) (x c : Cell) (last : ℕ)
    → h c.addr ≡ some (node 0 c)
    → c.addr ≢ 0
    → last ≡ c.addr
    → IsNew h x (c ∷ [])
    → (r : Heap × ℕ) × ((set_next h last x.addr >>= λ h₁. some (h₁, x.addr)) ≡ some r)
      × Inserted h x c [] r
at_end h x c last q z l new =
    let h₁ = write h c.addr (some (node x.addr c)) in
    (
      (h₁, x.addr),
      rw (l, set_next_lem h c.addr x.addr (node 0 c) z q) refl,
      record {
        chain = (
          refl,
          z,
          ((λ e. new.absent.0 (sym e)), tt),
          (
            x.addr,
            write_self h c.addr (some (node x.addr c)),
            (
              refl,
              new.non_null,
              tt,
              (
                0,
                write_ne h c.addr x.addr (some (node x.addr c)) (λ e. new.absent.0 (sym e))
                    ∙ new.there,
                refl,
              ),
            ),
          ),
        );
        last = refl;
        others = λ a f g. write_ne h c.addr a (some (node x.addr c)) (λ e. f.0 (sym e));
      },
    )

-- A new element in front of `n`, where the chain goes on.
pub linked :
    (h : Heap) (x : Cell) (cs : List Cell) (n : ℕ)
    → IsNew h x cs
    → Chain h n cs
    → Chain (write h x.addr (some (node n x))) x.addr (x ∷ cs)
linked h x cs n new ch =
    let h₁ = write h x.addr (some (node n x)) in
    (
      refl,
      new.non_null,
      new.absent,
      (
        n,
        write_self h x.addr (some (node n x)),
        Chain-agree h h₁ cs n (write-Agrees h x.addr (some (node n x)) cs new.absent) ch,
      ),
    )

between :
    (h : Heap) (x c d : Cell) (ds : List Cell) (n last : ℕ)
    → h c.addr ≡ some (node n c)
    → c.addr ≢ 0
    → Absent c.addr (d ∷ ds)
    → Chain h n (d ∷ ds)
    → last ≡ last_from c.addr (d ∷ ds)
    → lt_int x.key d.key ≡ true
    → IsNew h x (c ∷ d ∷ ds)
    → (r : Heap × ℕ) × ((set_next h x.addr n >>= λ h₁.
          set_next h₁ c.addr x.addr >>= λ h₂. some (h₂, last))
        ≡ some r)
      × Inserted h x c (d ∷ ds) r
between h x c d ds n last q z a ch l lt new =
    let h₁ = write h x.addr (some (node n x)) in
    let h₂ = write h₁ c.addr (some (node x.addr c)) in
    let rest : IsNew h x (d ∷ ds) = record {
      there = new.there;
      non_null = new.non_null;
      absent = new.absent.1;
    } in
    let away : x.addr ≢ c.addr = λ e. new.absent.0 (sym e) in
    let q₁ = write_ne h x.addr c.addr (some (node n x)) new.absent.0 ∙ q in
    (
      (h₂, last),
      rw
          (
            set_next_lem h x.addr n (node 0 x) new.non_null new.there,
            set_next_lem h₁ c.addr x.addr (node n c) z q₁,
          )
          refl,
      record {
        chain = rw lt (
          refl,
          z,
          (away, a),
          (
            x.addr,
            write_self h₁ c.addr (some (node x.addr c)),
            Chain-agree h₁ h₂ (x ∷ d ∷ ds) x.addr
                (write-Agrees h₁ c.addr (some (node x.addr c)) (x ∷ d ∷ ds) (away, a))
                (linked h x (d ∷ ds) n rest ch),
          ),
        );
        last = rw lt l;
        others = λ b f g.
            write_ne h₁ c.addr b (some (node x.addr c)) (λ e. f.0 (sym e))
            ∙ write_ne h x.addr b (some (node n x)) g;
      },
    )

pub insert_loop_lem :
    (fuel : ℕ) (h : Heap) (x c : Cell) (cs : List Cell) (last : ℕ)
    → length cs < fuel
    → Chain h c.addr (c ∷ cs)
    → last ≡ last_from c.addr cs
    → IsNew h x (c ∷ cs)
    → (r : Heap × ℕ) × (insert_loop fuel h last x.addr x.key c.addr ≡ some r) × Inserted h x c cs r
unfolding insert_loop
insert_loop_lem zero h x c cs last f ch l new = absurd (omega arith)
insert_loop_lem (suc k) h x c [] last f (e, z, a, (n, q, m)) l new =
    let q' : h c.addr ≡ some (node 0 c) = q ∙ ap (λ v. some (node v c)) m in
    let (r, t, u) = at_end h x c last q' z l new in (r, rw (load_lem h c.addr z, q') t, u)
insert_loop_lem (suc k) h x c (d ∷ ds) last f (e, z, a, (n, q, ch)) l new =
    let (m, w, b, (n', q₁, ch')) = ch in
    let here : insert_loop (suc k) h last x.addr x.key c.addr ≡ (
        if lt_int x.key d.key
        then (set_next h x.addr n >>= λ h₁. set_next h₁ c.addr x.addr >>= λ h₂. some (h₂, last))
        else insert_loop k h last x.addr x.key n) =
      rw (load_lem h c.addr z, q, not_null n w, q₁) refl in
    elim (Bool-cases (lt_int x.key d.key)) [
      | inl lt ↦
          let (r, t, u) = between h x c d ds n last q z a ch l lt new in (r, here ∙ rw lt t, u)
      | inr ge ↦
          let rest : IsNew h x (d ∷ ds) = record {
            there = new.there;
            non_null = new.non_null;
            absent = new.absent.1;
          } in
          let at_d = subst (λ v. Chain h v (d ∷ ds)) m ch in
          let (r, t, u) = insert_loop_lem k h x d ds last (omega (arith, f)) at_d l rest in
          (r, here ∙ rw (ge, m) t, passed r u ge)
    ]
  where
    not_null : (p : ℕ) → p ≢ 0 → (p == 0) ≡ false
    not_null p z = ground arith

    passed :
        (r : Heap × ℕ)
        → Inserted h x d ds r
        → lt_int x.key d.key ≡ false
        → Inserted h x c (d ∷ ds) r
    passed r u ge = record {
      chain = rw ge (
        refl,
        z,
        (a.0, Absent-insert c.addr x ds a.1 (λ e. new.absent.0 (sym e))),
        (d.addr, u.others c.addr a new.absent.0 ∙ q ∙ ap (λ v. some (node v c)) ch.0, u.chain),
      );
      last = rw ge u.last;
      others = λ b f g. u.others b f.1 g;
    }

-- `last->next = x`, from the cell `c` on.
pub append_last :
    (h : Heap) (x c : Cell) (cs : List Cell)
    → Chain h c.addr (c ∷ cs)
    → IsNew h x (c ∷ cs)
    → (h' : Heap) × (set_next h (last_from c.addr cs) x.addr ≡ some h')
      × Chain h' c.addr (c ∷ cs ++ (x ∷ []))
      × ((a : ℕ) → Absent a (c ∷ cs) → a ≢ x.addr → h' a ≡ h a)
append_last h x c [] (e, z, a, (n, q, m)) new =
    let v = some (node x.addr c) in
    (
      write h c.addr v,
      set_next_lem h c.addr x.addr (node n c) z q,
      (
        refl,
        z,
        ((λ e. new.absent.0 (sym e)), tt),
        (
          x.addr,
          write_self h c.addr v,
          (
            refl,
            new.non_null,
            tt,
            (0, write_ne h c.addr x.addr v (λ e. new.absent.0 (sym e)) ∙ new.there, refl),
          ),
        ),
      ),
      λ a f g. write_ne h c.addr a v (λ e. f.0 (sym e)),
    )
append_last h x c (d ∷ ds) (e, z, a, (n, q, ch)) new =
    let rest : IsNew h x (d ∷ ds) = record {
      there = new.there;
      non_null = new.non_null;
      absent = new.absent.1;
    } in
    let at_d = subst (λ v. Chain h v (d ∷ ds)) ch.0 ch in
    let (h', t, u, o) = append_last h x d ds at_d rest in
    (
      h',
      t,
      (
        refl,
        z,
        Absent-append c.addr (d ∷ ds) (x ∷ []) a ((λ e. new.absent.0 (sym e)), tt),
        (d.addr, o c.addr a new.absent.0 ∙ q ∙ ap (λ v. some (node v c)) ch.0, u),
      ),
      λ b f g. o b f.1 g,
    )
