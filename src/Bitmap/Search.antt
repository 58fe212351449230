-- ===== src/Bitmap/Search.antt =====
-- Find, NumClear and the constructor, which walk over the whole map.
use mathlib.Core.Option
use nachos_system_calls.Prelude.{
  ℕ, zero, suc, ◌+◌, ◌<◌, ◌≡◌, refl, Bool, true, false, Option, some, none, List, [], ◌∷◌, set,
  length, ℤ, pos, negsuc, tabulate, tabulate_congr, tabulate-const, replicate, All, if◌then◌else◌,
  arith, ◌∙◌, ap, subst, Bool-cases, inl, inr,
}
use nachos_system_calls.Bitmap.{
  BitMap, bits_in_word, div_round_up, clear_from, create, find_from, find, num_clear_from,
  num_clear,
}
use nachos_system_calls.Bitmap.View.{IsValid, IsWord, bits, is_set}
use nachos_system_calls.Bitmap.Update.{mark_lem, clear_lem, test-is_set, is_set_of_set}

-- The place of the first clear bit.
abbrev pub first_clear : List Bool → Option ℕ
first_clear [] = none
first_clear (false ∷ xs) = some 0
first_clear (true ∷ xs) = Option.map suc (first_clear xs)

abbrev pub num_false : List Bool → ℕ
num_false [] = 0
num_false (x ∷ xs) = (if x then 0 else 1) + num_false xs

-- Bit `n` was taken: the call returned its number, and it is marked now.
abbrev pub Takes : BitMap → ℕ → Option (BitMap × ℤ) → Type 0
Takes b n r =
    (b' : BitMap) × (r ≡ some (b', pos n))
    × IsValid b'
    × (b'.num_bits ≡ b.num_bits)
    × (bits b' ≡ set (bits b) n true)

-- What a search from bit `i` on returns, by what the list of those bits says.
abbrev pub Finds : BitMap → ℕ → Option (BitMap × ℤ) → Option ℕ → Type 0
Finds b i r none = r ≡ some (b, negsuc 0)
Finds b i r (some n) = Takes b (i + n) r

Finds-map :
    (b : BitMap) (i : ℕ) (r : Option (BitMap × ℤ)) (o : Option ℕ)
    → Finds b (i + 1) r o
    → Finds b i r (Option.map suc o)
Finds-map b i r none h = h
Finds-map b i r (some n) h =
    let e : i + 1 + n ≡ i + suc n = omega arith in subst (λ m. Takes b m r) e h

find_from_lem :
    (k i : ℕ) (b : BitMap)
    → i + k ≡ b.num_bits
    → IsValid b
    → Finds b i (find_from k i b) (first_clear (tabulate k i (is_set b)))
unfolding find_from
find_from_lem zero i b e v = refl
find_from_lem (suc k) i b e v = elim (Bool-cases (is_set b i)) [
  | inl used ↦
      rw (test-is_set i v (omega arith), used)
        (Finds-map b i (find_from k (i + 1) b) (first_clear (tabulate k (i + 1) (is_set b)))
          (find_from_lem k (i + 1) b (omega arith) v))
  | inr free ↦
      let (b', e', v', n', s') = mark_lem i v (omega arith) in
      let z : i + 0 ≡ i = omega arith in
      rw (test-is_set i v (omega arith), free, z, e') (b', refl, v', n', s')
]

-- Find on a valid map takes the first clear bit, marking it and no other and keeping the map
-- valid, and returns -1 with no change only if every bit is set.
pub find_lem : {b : BitMap} → IsValid b → Finds b 0 (find b) (first_clear (bits b))
unfolding find
find_lem {b} v = find_from_lem b.num_bits 0 b (omega arith) v

num_clear_from_lem :
    (k i : ℕ) (b : BitMap) (c : ℕ)
    → i + k ≡ b.num_bits
    → IsValid b
    → num_clear_from k i b c ≡ some (c + num_false (tabulate k i (is_set b)))
unfolding num_clear_from
num_clear_from_lem zero i b c e v = ap some (omega arith)
num_clear_from_lem (suc k) i b c e v =
    rw (test-is_set i v (omega arith))
      (num_clear_from_lem k (i + 1) b _ (omega arith) v ∙ ap some (ground arith))

-- NumClear on a valid map returns the number of its clear bits.
pub num_clear_lem : {b : BitMap} → IsValid b → num_clear b ≡ some (num_false (bits b))
unfolding num_clear
num_clear_lem {b} v = num_clear_from_lem b.num_bits 0 b 0 (omega arith) v ∙ ap some (omega arith)

clear_from_lem :
    (k i : ℕ) (b : BitMap)
    → i + k ≡ b.num_bits
    → IsValid b
    → ((j : ℕ) → j < i → is_set b j ≡ false)
    → (b' : BitMap) × (clear_from k i b ≡ some b')
      × IsValid b'
      × (b'.num_bits ≡ b.num_bits)
      × ((j : ℕ) → j < b.num_bits → is_set b' j ≡ false)
unfolding clear_from
clear_from_lem zero i b e v h = (b, refl, v, refl, λ j l. h j (omega arith))
clear_from_lem (suc k) i b e v h =
    let (b₁, e₁, v₁, n₁, s₁) = clear_lem i v (omega arith) in
    let (b₂, e₂, v₂, n₂, s₂) =
      clear_from_lem k (i + 1) b₁ (omega arith) v₁
        (λ j l. is_set_of_set b b₁ i j false n₁ s₁ (omega arith) ∙ ground (arith, h j)) in
    (b₂, rw e₁ e₂, v₂, n₂ ∙ n₁, λ j l. s₂ j (omega arith))

-- Whatever the new storage holds, the constructor returns a valid map with every bit clear.
pub create_lem :
    (storage : List ℕ) (nitems : ℕ)
    → length storage ≡ div_round_up nitems bits_in_word
    → All IsWord storage
    → (b : BitMap) × (create storage nitems ≡ some b)
      × IsValid b
      × (b.num_bits ≡ nitems)
      × (bits b ≡ replicate nitems false)
unfolding create
create_lem storage n l w =
    let (b, e, v, m, s) =
      clear_from_lem n 0 raw (omega arith) raw-IsValid (λ j h. absurd (omega arith)) in
    (
      b,
      e,
      v,
      m,
      tabulate_congr b.num_bits 0 (is_set b) (λ j. false) (λ j _ h. s j (omega arith))
          ∙ tabulate-const b.num_bits 0 false
          ∙ ap (λ k. replicate k false) m,
    )
  where
    raw : BitMap
    raw = record { num_bits = n; num_words = div_round_up n bits_in_word; map = storage }

    raw-IsValid : IsValid raw
    raw-IsValid = record { words = refl; storage = l; small = w }

-- The two outcomes of Find, as its callers meet them.
pub find_full : {b : BitMap} → IsValid b → first_clear (bits b) ≡ none → find b ≡ some (b, negsuc 0)
find_full {b} v e = subst (Finds b 0 (find b)) e (find_lem v)

pub find_free :
    {b : BitMap} (n : ℕ) → IsValid b → first_clear (bits b) ≡ some n → Takes b n (find b)
find_free {b} n v e =
    let z : 0 + n ≡ n = omega arith in
    subst (λ m. Takes b m (find b)) z (subst (Finds b 0 (find b)) e (find_lem v))
