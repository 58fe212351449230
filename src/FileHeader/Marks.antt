-- ===== src/FileHeader/Marks.antt =====
-- Bits that are set one after the other, each clear before, and cleared again.
use nachos_system_calls.Prelude.{
  ◌+◌, get_or, length, length-set, All, ◌≤◌, ◌<◌, ℕ, zero, suc, ◌≡◌, ◌≢◌, refl, Bool, true, false,
  some, List, [], ◌∷◌, set, get_elem?, get_elem?-set_self, get_elem?-set_ne, arith, ap, ◌∙◌, sym,
  subst,
}
use nachos_system_calls.Bitmap.Search.{num_false}
use nachos_system_calls.Bitmap.Clear.{in_range, get_elem?-take, was_clear}

-- The bits at these places are clear in `bs`, and setting them in turn gives `bs'`.
abbrev pub Marks : List Bool → List ℕ → List Bool → Type 0
Marks bs [] bs' = bs ≡ bs'
Marks bs (f ∷ fs) bs' = (get_elem? bs f ≡ some false) × Marks (set bs f true) fs bs'

pub Marks-used :
    (bs bs' : List Bool) (fs : List ℕ) (f : ℕ)
    → Marks bs fs bs'
    → get_elem? bs f ≡ some true
    → get_elem? bs' f ≡ some true
Marks-used bs bs' [] f m h = subst (λ x. get_elem? x f ≡ some true) m h
Marks-used bs bs' (g ∷ fs) f m h = Marks-used (set bs g true) bs' fs f m.1 (get_elem?-take bs g f h)

pub Marks-length : (bs bs' : List Bool) (fs : List ℕ) → Marks bs fs bs' → length bs' ≡ length bs
Marks-length bs bs' [] m = ap length (sym m)
Marks-length bs bs' (f ∷ fs) (c, m) = Marks-length (set bs f true) bs' fs m ∙ length-set bs f true

pub Marks-below :
    (bs bs' : List Bool) (fs : List ℕ) (n : ℕ)
    → length bs ≤ n
    → Marks bs fs bs'
    → All (λ f. f < n) fs
Marks-below bs bs' [] n l m = tt
Marks-below bs bs' (f ∷ fs) n l (c, m) = (
  omega (arith, in_range bs f c, l),
  Marks-below (set bs f true) bs' fs n (omega (arith, length-set bs f true, l)) m,
)

pub set-set_self :
    (bs : List Bool) (f : ℕ) (v : Bool)
    → get_elem? bs f ≡ some false
    → set (set bs f v) f false ≡ bs
set-set_self [] f v h = refl
set-set_self (b ∷ bs) zero v h = ap (λ c. c ∷ bs) (ground (arith, h))
set-set_self (b ∷ bs) (suc f) v h = ap (λ cs. b ∷ cs) (set-set_self bs f v h)

pub set-set_ne :
    (bs : List Bool) (f g : ℕ) (v w : Bool) → f ≢ g → set (set bs f v) g w ≡ set (set bs g w) f v
set-set_ne [] f g v w h = refl
set-set_ne (b ∷ bs) zero zero v w h = absurd (h refl)
set-set_ne (b ∷ bs) zero (suc g) v w h = refl
set-set_ne (b ∷ bs) (suc f) zero v w h = refl
set-set_ne (b ∷ bs) (suc f) (suc g) v w h =
    ap (λ cs. b ∷ cs) (set-set_ne bs f g v w (λ e. h (ap suc e)))

-- A bit that is set is not a clear one.
pub apart :
    (bs : List Bool) (f g : ℕ)
    → get_elem? bs f ≡ some false
    → get_elem? (set bs f true) g ≡ some false
    → f ≢ g
apart bs f g h k e = absurd (
    ground (
      arith,
      get_elem?-set_self bs f true (in_range bs f h),
      subst (λ x. get_elem? (set bs f true) x ≡ some false) (sym e) k,
    ))

-- The first bit cleared again: the others are set as if it had never been.
pub Marks-clear :
    (bs bs' : List Bool) (fs : List ℕ) (f : ℕ)
    → get_elem? bs f ≡ some false
    → Marks (set bs f true) fs bs'
    → Marks bs fs (set bs' f false)
Marks-clear bs bs' [] f h m = sym (set-set_self bs f true h) ∙ ap (λ x. set x f false) m
Marks-clear bs bs' (g ∷ fs) f h (k, m) =
    let d = apart bs f g h k in
    (
      was_clear bs f g k,
      Marks-clear (set bs g true) bs' fs f (get_elem?-set_ne bs true (λ e. d (sym e)) ∙ h)
          (subst (λ x. Marks x fs bs') (set-set_ne bs f g true true d) m),
    )

num_false-set_clear :
    (bs : List Bool) (f : ℕ)
    → get_elem? bs f ≡ some false
    → suc (num_false (set bs f true)) ≡ num_false bs
num_false-set_clear [] f h = absurd (ground (arith, h))
num_false-set_clear (b ∷ bs) zero h = ground (arith, h)
num_false-set_clear (b ∷ bs) (suc f) h = omega (arith, num_false-set_clear bs f h)

pub Marks-num_false :
    (bs bs' : List Bool) (fs : List ℕ) → Marks bs fs bs' → num_false bs ≡ length fs + num_false bs'
Marks-num_false bs bs' [] m = ap num_false m ∙ omega arith
Marks-num_false bs bs' (f ∷ fs) (c, m) =
    omega (arith, num_false-set_clear bs f c, Marks-num_false (set bs f true) bs' fs m)

-- The places one by one: each is clear before and set after, and no two are the same.
pub Marks-was_clear :
    (bs bs' : List Bool) (fs : List ℕ) (i : ℕ)
    → Marks bs fs bs'
    → i < length fs
    → get_elem? bs (get_or fs i 0) ≡ some false
Marks-was_clear bs bs' [] i m l = absurd (omega (arith, l))
Marks-was_clear bs bs' (f ∷ fs) zero m l = m.0
Marks-was_clear bs bs' (f ∷ fs) (suc i) m l =
    was_clear bs f (get_or fs i 0) (Marks-was_clear (set bs f true) bs' fs i m.1 (omega (arith, l)))

pub Marks-marked :
    (bs bs' : List Bool) (fs : List ℕ) (i : ℕ)
    → Marks bs fs bs'
    → i < length fs
    → get_elem? bs' (get_or fs i 0) ≡ some true
Marks-marked bs bs' [] i m l = absurd (omega (arith, l))
Marks-marked bs bs' (f ∷ fs) zero m l =
    Marks-used (set bs f true) bs' fs f m.1 (get_elem?-set_self bs f true (in_range bs f m.0))
Marks-marked bs bs' (f ∷ fs) (suc i) m l =
    Marks-marked (set bs f true) bs' fs i m.1 (omega (arith, l))

pub Marks-distinct :
    (bs bs' : List Bool) (fs : List ℕ) (i j : ℕ)
    → Marks bs fs bs'
    → i < length fs
    → j < length fs
    → get_or fs i 0 ≡ get_or fs j 0
    → i ≡ j
Marks-distinct bs bs' [] i j m l k e = absurd (omega (arith, l))
Marks-distinct bs bs' (f ∷ fs) zero zero m l k e = refl
Marks-distinct bs bs' (f ∷ fs) zero (suc j) m l k e = absurd (
    apart bs f (get_or fs j 0) m.0 (Marks-was_clear (set bs f true) bs' fs j m.1 (omega (arith, k)))
      e)
Marks-distinct bs bs' (f ∷ fs) (suc i) zero m l k e = absurd (
    apart bs f (get_or fs i 0) m.0 (Marks-was_clear (set bs f true) bs' fs i m.1 (omega (arith, l)))
      (sym e))
Marks-distinct bs bs' (f ∷ fs) (suc i) (suc j) m l k e =
    ap suc (Marks-distinct (set bs f true) bs' fs i j m.1 (omega (arith, l)) (omega (arith, k)) e)
