-- ===== src/Bitmap/Slots.antt =====
-- A table of pointers beside a bitmap of its used slots, as the semaphore and process tables keep.
use nachos_system_calls.Prelude.{
  ℕ, zero, suc, ◌≡◌, refl, Bool, true, false, Option, none, some, List, [], ◌∷◌, get_elem?, set,
  map, arith, Option-cases, inl, inr, replicate, length, length-set, length-replicate, ap, ◌∙◌, sym,
}
use nachos_system_calls.Bitmap.{BitMap}
use nachos_system_calls.Bitmap.View.{IsValid, bits}
use nachos_system_calls.Bitmap.Search.{first_clear}

module _ {ℓ} {A : Type ℓ} where
  abbrev pub is_some : Option A → Bool
  is_some none = false
  is_some (some s) = true

map-replicate-none {ℓ} :
    (A : Type ℓ) (n : ℕ) → map (is_some {A = A}) (replicate n none) ≡ replicate n false
map-replicate-none A zero = refl
map-replicate-none A (suc n) = ap (λ r. false ∷ r) (map-replicate-none A n)

module _ {ℓ} {A : Type ℓ} where
  -- The bitmap marks exactly the slots of the table that are in use.
  pub record Tracks (n : ℕ) (b : BitMap) (xs : List (Option A)) : Type 0 where
    pub bitmap : IsValid b
    pub size : b.num_bits ≡ n
    pub slots : length xs ≡ n
    pub used : bits b ≡ map is_some xs

  -- The first clear bit is an empty slot.
  pub first_clear_slot :
      (xs : List (Option A)) (i : ℕ)
      → first_clear (map is_some xs) ≡ some i
      → get_elem? xs i ≡ some none
  first_clear_slot [] i h = cc
  first_clear_slot (none ∷ xs) i h = ground arith
  first_clear_slot (some x ∷ xs) zero h = elim (Option-cases (first_clear (map is_some xs))) [
    | inl e ↦ cc
    | inr (j, e) ↦ absurd (ground arith)
  ]
  first_clear_slot (some x ∷ xs) (suc i) h = first_clear_slot xs i (ground arith)

  pub map-set :
      (xs : List (Option A)) (i : ℕ) (s : Option A)
      → map is_some (set xs i s) ≡ set (map is_some xs) i (is_some s)
  map-set [] i s = refl
  map-set (x ∷ xs) zero s = refl
  map-set (x ∷ xs) (suc i) s = ap (λ r. is_some x ∷ r) (map-set xs i s)

  set-map_used :
      (xs : List (Option A)) (i : ℕ) (s t : A)
      → get_elem? xs i ≡ some (some t)
      → map is_some (set xs i (some s)) ≡ map is_some xs
  set-map_used [] i s t e = refl
  set-map_used (none ∷ xs) zero s t e = cc
  set-map_used (some x ∷ xs) zero s t e = refl
  set-map_used (x ∷ xs) (suc i) s t e = ap (λ r. is_some x ∷ r) (set-map_used xs i s t e)

  pub Tracks-empty :
      {n : ℕ} {b : BitMap}
      → IsValid b
      → b.num_bits ≡ n
      → bits b ≡ replicate n false
      → Tracks n b (replicate n none)
  Tracks-empty {n} v e s = record {
    bitmap = v;
    size = e;
    slots = length-replicate n none;
    used = s ∙ sym (map-replicate-none A n);
  }

  -- A slot and its bit are written together.
  pub Tracks-write :
      {n : ℕ} {b b' : BitMap} {xs : List (Option A)} (i : ℕ) (s : Option A)
      → Tracks n b xs
      → IsValid b'
      → b'.num_bits ≡ b.num_bits
      → bits b' ≡ set (bits b) i (is_some s)
      → Tracks n b' (set xs i s)
  Tracks-write {xs = xs} i s t v m e = record {
    bitmap = v;
    size = m ∙ t.size;
    slots = length-set xs i s ∙ t.slots;
    used = e ∙ ap (λ ys. set ys i (is_some s)) t.used ∙ sym (map-set xs i s);
  }

  -- An object in use is replaced.
  pub Tracks-replace :
      {n : ℕ} {b : BitMap} {xs : List (Option A)} (i : ℕ) (s t : A)
      → get_elem? xs i ≡ some (some t)
      → Tracks n b xs
      → Tracks n b (set xs i (some s))
  Tracks-replace {xs = xs} i s t e h = record {
    bitmap = h.bitmap;
    size = h.size;
    slots = length-set xs i (some s) ∙ h.slots;
    used = h.used ∙ sym (set-map_used xs i s t e);
  }
