-- ===== src/Prelude/Lists.antt =====
-- Lists measured and indexed by native numbers, under the library's names.
use Prim.Native.Nat.{ℕ, zero, suc, ◌+◌, ◌-◌, ◌<◌, ◌≤◌, min}
use mathlib.Core.Path.{◌≡◌, refl, ap, ap₂, ◌∙◌}
use nachos_system_calls.Prelude.Tests.{◌==◌, if◌then◌else◌}
use mathlib.Core.Logic.{◌≢◌}
use mathlib.Core.List.{List, [], ◌∷◌, ◌++◌, map}
use mathlib.Core.Option.{Option, none, some}
use native.Mathlib.Omega.{arith}

module _ {ℓ} {A : Type ℓ} where
  abbrev pub length : List A → ℕ
  length [] = 0
  length (x ∷ xs) = suc (length xs)

  abbrev pub get_elem? : List A → ℕ → Option A
  get_elem? [] i = none
  get_elem? (x ∷ xs) zero = some x
  get_elem? (x ∷ xs) (suc i) = get_elem? xs i

  -- A write out of bounds changes nothing.
  abbrev pub set : List A → ℕ → A → List A
  set [] i v = []
  set (x ∷ xs) zero v = v ∷ xs
  set (x ∷ xs) (suc i) v = x ∷ set xs i v

  pub length-append : (xs ys : List A) → length (xs ++ ys) ≡ length xs + length ys
  length-append [] ys = omega arith
  length-append (x ∷ xs) ys = omega (arith, length-append xs ys)

module _ {ℓ} {A : Type ℓ} where
  pub length-set : (xs : List A) (i : ℕ) (v : A) → length (set xs i v) ≡ length xs
  length-set [] i v = refl
  length-set (x ∷ xs) zero v = refl
  length-set (x ∷ xs) (suc i) v = ap suc (length-set xs i v)

  pub get_elem?-set_self :
      (xs : List A) (i : ℕ) (v : A) → i < length xs → get_elem? (set xs i v) i ≡ some v
  get_elem?-set_self [] i v h = elim h [ ]
  get_elem?-set_self (x ∷ xs) zero v h = refl
  get_elem?-set_self (x ∷ xs) (suc i) v h = get_elem?-set_self xs i v (omega arith)

  pub get_elem?-set_ne :
      (xs : List A) {i j : ℕ} (v : A) → i ≢ j → get_elem? (set xs i v) j ≡ get_elem? xs j
  get_elem?-set_ne [] v h = refl
  get_elem?-set_ne (x ∷ xs) {i = zero} {j = zero} v h = absurd (h refl)
  get_elem?-set_ne (x ∷ xs) {i = zero} {j = suc j} v h = refl
  get_elem?-set_ne (x ∷ xs) {i = suc i} {j = zero} v h = refl
  get_elem?-set_ne (x ∷ xs) {i = suc i} {j = suc j} v h = get_elem?-set_ne xs v (λ e. h (ap suc e))

module _ {ℓ} {A : Type ℓ} where
  abbrev pub get_or : List A → ℕ → A → A
  get_or [] i d = d
  get_or (x ∷ xs) zero d = x
  get_or (x ∷ xs) (suc i) d = get_or xs i d

  abbrev pub take : ℕ → List A → List A
  take zero xs = []
  take (suc n) [] = []
  take (suc n) (x ∷ xs) = x ∷ take n xs

  abbrev pub drop : ℕ → List A → List A
  drop zero xs = xs
  drop (suc n) [] = []
  drop (suc n) (x ∷ xs) = drop n xs

  abbrev pub replicate : ℕ → A → List A
  replicate zero a = []
  replicate (suc n) a = a ∷ replicate n a

  pub take-append-drop : (n : ℕ) (xs : List A) → take n xs ++ drop n xs ≡ xs
  take-append-drop zero xs = refl
  take-append-drop (suc n) [] = refl
  take-append-drop (suc n) (x ∷ xs) = rw (take-append-drop n xs)

  pub length-take : (n : ℕ) (xs : List A) → length (take n xs) ≡ min n (length xs)
  length-take zero xs = omega arith
  length-take (suc n) [] = omega arith
  length-take (suc n) (x ∷ xs) = omega (arith, length-take n xs)

  pub length-drop : (n : ℕ) (xs : List A) → length (drop n xs) ≡ length xs - n
  length-drop zero xs = omega arith
  length-drop (suc n) [] = omega arith
  length-drop (suc n) (x ∷ xs) = omega (arith, length-drop n xs)

  pub length-replicate : (n : ℕ) (a : A) → length (replicate n a) ≡ n
  length-replicate zero a = refl
  length-replicate (suc n) a = ap suc (length-replicate n a)

  pub length-map {κ} : {B : Type κ} (xs : List A) (f : A → B) → length (map f xs) ≡ length xs
  length-map [] f = refl
  length-map (x ∷ xs) f = ap suc (length-map xs f)

module _ {ℓ} {A : Type ℓ} where
  pub get_elem?-eq-get_or :
      (xs : List A) (i : ℕ) (d : A) → i < length xs → get_elem? xs i ≡ some (get_or xs i d)
  get_elem?-eq-get_or [] i d h = absurd (omega arith)
  get_elem?-eq-get_or (x ∷ xs) zero d h = refl
  get_elem?-eq-get_or (x ∷ xs) (suc i) d h = get_elem?-eq-get_or xs i d (omega arith)

  pub get_elem?-eq-none : (xs : List A) (i : ℕ) → length xs ≤ i → get_elem? xs i ≡ none
  get_elem?-eq-none [] i h = refl
  get_elem?-eq-none (x ∷ xs) zero h = absurd (omega arith)
  get_elem?-eq-none (x ∷ xs) (suc i) h = get_elem?-eq-none xs i (omega arith)

  pub lt_of_get_elem? : (xs : List A) (i : ℕ) {a : A} → get_elem? xs i ≡ some a → i < length xs
  lt_of_get_elem? [] i h = cc
  lt_of_get_elem? (x ∷ xs) zero h = omega arith
  lt_of_get_elem? (x ∷ xs) (suc i) h = omega (arith, lt_of_get_elem? xs i h)

  pub get_or-set_self :
      (xs : List A) (i : ℕ) (v d : A) → i < length xs → get_or (set xs i v) i d ≡ v
  get_or-set_self [] i v d h = absurd (omega arith)
  get_or-set_self (x ∷ xs) zero v d h = refl
  get_or-set_self (x ∷ xs) (suc i) v d h = get_or-set_self xs i v d (omega arith)

  pub get_or-set_ne :
      (xs : List A) (i j : ℕ) (v d : A) → i ≢ j → get_or (set xs i v) j d ≡ get_or xs j d
  get_or-set_ne [] i j v d h = refl
  get_or-set_ne (x ∷ xs) zero zero v d h = absurd (h refl)
  get_or-set_ne (x ∷ xs) zero (suc j) v d h = refl
  get_or-set_ne (x ∷ xs) (suc i) zero v d h = refl
  get_or-set_ne (x ∷ xs) (suc i) (suc j) v d h = get_or-set_ne xs i j v d (λ e. h (ap suc e))

  -- The list `f i, f (i + 1), …` of length `k`.
  abbrev pub tabulate : ℕ → ℕ → (ℕ → A) → List A
  tabulate zero i f = []
  tabulate (suc k) i f = f i ∷ tabulate k (i + 1) f

  pub length-tabulate : (k i : ℕ) (f : ℕ → A) → length (tabulate k i f) ≡ k
  length-tabulate zero i f = refl
  length-tabulate (suc k) i f = ap suc (length-tabulate k (i + 1) f)

  pub tabulate_congr :
      (k i : ℕ) (f g : ℕ → A)
      → ((j : ℕ) → i ≤ j → j < i + k → f j ≡ g j)
      → tabulate k i f ≡ tabulate k i g
  tabulate_congr zero i f g h = refl
  tabulate_congr (suc k) i f g h =
      ap₂ ◌∷◌ (h i (omega arith) (omega arith))
        (tabulate_congr k (i + 1) f g (λ j p q. h j (omega arith) (omega arith)))

  pub get_elem?-tabulate :
      (k i n : ℕ) (f : ℕ → A) → n < k → get_elem? (tabulate k i f) n ≡ some (f (i + n))
  get_elem?-tabulate zero i n f h = absurd (omega arith)
  get_elem?-tabulate (suc k) i zero f h = ap (λ m. some (f m)) (omega arith)
  get_elem?-tabulate (suc k) i (suc n) f h =
      get_elem?-tabulate k (i + 1) n f (omega arith) ∙ ap (λ m. some (f m)) (omega arith)

  pub get_elem?-tabulate_zero :
      (k n : ℕ) (f : ℕ → A) → n < k → get_elem? (tabulate k 0 f) n ≡ some (f n)
  get_elem?-tabulate_zero k n f h =
      let e : 0 + n ≡ n = omega arith in get_elem?-tabulate k 0 n f h ∙ ap (λ m. some (f m)) e

  pub tabulate-const : (k i : ℕ) (a : A) → tabulate k i (λ j. a) ≡ replicate k a
  tabulate-const zero i a = refl
  tabulate-const (suc k) i a = ap (λ xs. a ∷ xs) (tabulate-const k (i + 1) a)

  pub set-tabulate :
      (k i n : ℕ) (f : ℕ → A) (v : A)
      → set (tabulate k i f) n v ≡ tabulate k i (λ j. if i + n == j then v else f j)
  set-tabulate zero i n f v = refl
  set-tabulate (suc k) i zero f v =
      ap₂ ◌∷◌ (ground arith)
        (tabulate_congr k (i + 1) f (λ j. if i + 0 == j then v else f j) (λ j p q. ground arith))
  set-tabulate (suc k) i (suc n) f v = ap₂ ◌∷◌ (ground arith) (
      set-tabulate k (i + 1) n f v
      ∙ tabulate_congr k (i + 1) (λ j. if i + 1 + n == j then v else f j)
          (λ j. if i + suc n == j then v else f j) (λ j p q. ground arith))

  pub tabulate-get_or :
      (i : ℕ) (xs : List A) (d : A) → tabulate (length xs) i (λ j. get_or xs (j - i) d) ≡ xs
  tabulate-get_or i [] d = refl
  tabulate-get_or i (x ∷ xs) d = ap₂ ◌∷◌ (ap (λ n. get_or (x ∷ xs) n d) (same i)) (
      tabulate_congr (length xs) (i + 1) (λ j. get_or (x ∷ xs) (j - i) d)
        (λ j. get_or xs (j - (i + 1)) d) (λ j p q. ap (λ n. get_or (x ∷ xs) n d) (next j p))
      ∙ tabulate-get_or (i + 1) xs d)
    where
      same : (i : ℕ) → i - i ≡ 0
      same i = omega arith

      next : (j : ℕ) → i + 1 ≤ j → j - i ≡ suc (j - (i + 1))
      next j p = omega (arith, p)

  abbrev pub All {κ} : (A → Type κ) → List A → Type κ
  All P [] = Unit
  All P (x ∷ xs) = P x × All P xs

  pub All-set {κ} :
      (P : A → Type κ) (xs : List A) (i : ℕ) (v : A) → All P xs → P v → All P (set xs i v)
  All-set P [] i v h p = h
  All-set P (x ∷ xs) zero v h p = (p, h.1)
  All-set P (x ∷ xs) (suc i) v h p = (h.0, All-set P xs i v h.1 p)

  pub All-get_or {κ} :
      (P : A → Type κ) (xs : List A) (i : ℕ) (d : A) → All P xs → P d → P (get_or xs i d)
  All-get_or P [] i d h p = p
  All-get_or P (x ∷ xs) zero d h p = h.0
  All-get_or P (x ∷ xs) (suc i) d h p = All-get_or P xs i d h.1 p

module _ {ℓ} {A : Type ℓ} where
  pub get_elem?_total : (xs : List A) (i : ℕ) → i < length xs → (a : A) × (get_elem? xs i ≡ some a)
  get_elem?_total [] i h = absurd (omega arith)
  get_elem?_total (x ∷ xs) zero h = (x, refl)
  get_elem?_total (x ∷ xs) (suc i) h = get_elem?_total xs i (omega arith)
