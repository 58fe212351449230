-- ===== src/Bitmap/Clear.antt =====
-- Clear bits, and the marking of one.
use nachos_system_calls.Prelude.{
  ℕ, zero, suc, ◌≤◌, ◌<◌, ◌≡◌, refl, Bool, true, false, some, List, [], ◌∷◌, set, length, get_elem?,
  get_elem?-set_self, get_elem?-set_ne, length-set, arith, ◌∙◌, sym, subst, ℕ_discrete,
  Option-cases, inl, inr,
}
use nachos_system_calls.Bitmap.Search.{first_clear, num_false}

pub first_clear_total : (bs : List Bool) → 1 ≤ num_false bs → (f : ℕ) × (first_clear bs ≡ some f)
first_clear_total [] h = absurd (omega arith)
first_clear_total (false ∷ bs) h = (0, refl)
first_clear_total (true ∷ bs) h =
    let (f, e) = first_clear_total bs (omega arith) in (suc f, rw e refl)

pub num_false-set :
    (bs : List Bool) (f : ℕ)
    → first_clear bs ≡ some f
    → suc (num_false (set bs f true)) ≡ num_false bs
num_false-set [] f h = absurd (ground arith)
num_false-set (false ∷ bs) zero h = omega arith
num_false-set (false ∷ bs) (suc f) h = absurd (ground arith)
num_false-set (true ∷ bs) zero h = elim (Option-cases (first_clear bs)) [
  | inl e ↦ absurd (ground arith)
  | inr (j, e) ↦ absurd (ground arith)
]
num_false-set (true ∷ bs) (suc f) h = omega (arith, num_false-set bs f (ground arith))

pub first_clear-get_elem? :
    (bs : List Bool) (f : ℕ) → first_clear bs ≡ some f → get_elem? bs f ≡ some false
first_clear-get_elem? [] f h = absurd (ground arith)
first_clear-get_elem? (false ∷ bs) zero h = refl
first_clear-get_elem? (false ∷ bs) (suc f) h = absurd (ground arith)
first_clear-get_elem? (true ∷ bs) zero h = elim (Option-cases (first_clear bs)) [
  | inl e ↦ absurd (ground arith)
  | inr (j, e) ↦ absurd (ground arith)
]
first_clear-get_elem? (true ∷ bs) (suc f) h = first_clear-get_elem? bs f (ground arith)

pub in_range : (bs : List Bool) (f : ℕ) {b : Bool} → get_elem? bs f ≡ some b → f < length bs
in_range [] f h = absurd (ground arith)
in_range (x ∷ bs) zero h = omega arith
in_range (x ∷ bs) (suc f) h = omega (arith, in_range bs f h)

pub get_elem?-take :
    (bs : List Bool) (g f : ℕ)
    → get_elem? bs f ≡ some true
    → get_elem? (set bs g true) f ≡ some true
get_elem?-take bs g f h = elim (ℕ_discrete g f) [
  | yes e ↦
      subst (λ x. get_elem? (set bs x true) f ≡ some true) (sym e)
        (get_elem?-set_self bs f true (in_range bs f h))
  | no d ↦ get_elem?-set_ne bs true d ∙ h
]

pub was_clear :
    (bs : List Bool) (g f : ℕ)
    → get_elem? (set bs g true) f ≡ some false
    → get_elem? bs f ≡ some false
was_clear bs g f h = elim (ℕ_discrete g f) [
  | yes e ↦ absurd (ground (arith, was_set e))
  | no d ↦ sym (get_elem?-set_ne bs true d) ∙ h
]
  where
    was_set : g ≡ f → get_elem? (set bs g true) f ≡ some true
    was_set e =
        subst (λ x. get_elem? (set bs x true) f ≡ some true) (sym e)
          (get_elem?-set_self bs f true
            (subst (λ n. f < n) (length-set bs g true) (in_range (set bs g true) f h)))
