-- ===== src/Bitmap/View.antt =====
-- What a bitmap stands for: the list of its bits.
use nachos_system_calls.Prelude.{
  ℕ, ◌+◌, ◌/◌, ◌%◌, ◌^◌, ◌<◌, ◌≡◌, refl, Bool, some, List, get_or, set, length, tabulate, All,
  All-set, All-get_or, ◌==◌, if◌then◌else◌, arith, get_elem?-eq-get_or, get_or-set_self,
  get_or-set_ne, length-set, set-tabulate, tabulate_congr, ◌∙◌, sym, ap, ℕ_discrete,
}
use nachos_system_calls.Bitmap.{BitMap, bits_in_word, div_round_up, update_word}
use nachos_system_calls.Bitmap.Words.{bit}

abbrev pub is_set : BitMap → ℕ → Bool
is_set b n = bit (get_or b.map (n / bits_in_word) 0) (n % bits_in_word)

-- Bits 0, 1, …, num_bits - 1.
abbrev pub bits : BitMap → List Bool
bits b = tabulate b.num_bits 0 (is_set b)

abbrev pub IsWord : ℕ → Type 0
IsWord w = w < 2 ^ bits_in_word

-- There are words enough, each of 32 bits.
pub record IsValid (b : BitMap) : Type 0 where
  pub words : b.num_words ≡ div_round_up b.num_bits bits_in_word
  pub storage : length b.map ≡ b.num_words
  pub small : All IsWord b.map

pub word_in_range :
    {b : BitMap} (n : ℕ) → IsValid b → n < b.num_bits → n / bits_in_word < length b.map
word_in_range {b} n v h = ground arith

-- What a function must do to a word to write `v` to bit `n`.
pub record Writes (n : ℕ) (v : Bool) (f : ℕ → ℕ) : Type 0 where
  pub small : (w : ℕ) → IsWord w → IsWord (f w)
  pub bits : (w k : ℕ) → IsWord w → k < bits_in_word → bit (f w) k ≡ (if n == k then v else bit w k)

module _ {b : BitMap} (n : ℕ) (v : Bool) (f : ℕ → ℕ) (valid : IsValid b) (h : n < b.num_bits)
    (writes : Writes (n % bits_in_word) v f) where
  abbrev word : ℕ
  word = get_or b.map (n / bits_in_word) 0

  abbrev written : BitMap
  written = record b { map = set b.map (n / bits_in_word) (f word) }

  word-IsWord : IsWord word
  word-IsWord = All-get_or IsWord b.map (n / bits_in_word) 0 valid.small (omega arith)

  is_set-written : (k : ℕ) → is_set written k ≡ (if n == k then v else is_set b k)
  is_set-written k = elim (ℕ_discrete (n / bits_in_word) (k / bits_in_word)) [
    | yes e ↦
        rw (← e, get_or-set_self b.map (n / bits_in_word) (f word) 0 (word_in_range n valid h))
          (writes.bits word (k % bits_in_word) word-IsWord (omega arith) ∙ same e)
    | no d ↦
        rw (get_or-set_ne b.map (n / bits_in_word) (k / bits_in_word) (f word) 0 d)
          (ground (arith, λ (e : n ≡ k). d (ap (λ j. j / bits_in_word) e)))
  ]
    where
      same :
          n / bits_in_word ≡ k / bits_in_word
          → (if n % bits_in_word == k % bits_in_word then v else bit word (k % bits_in_word))
            ≡ (if n == k then v else bit word (k % bits_in_word))
      same e = ground arith

  pub update_word_lem :
      (b' : BitMap) × (update_word b (n / bits_in_word) f ≡ some b')
      × IsValid b'
      × (b'.num_bits ≡ b.num_bits)
      × (bits b' ≡ set (bits b) n v)
  unfolding update_word
  update_word_lem = (
    written,
    rw (get_elem?-eq-get_or b.map (n / bits_in_word) 0 (word_in_range n valid h)),
    record {
      words = valid.words;
      storage = length-set b.map (n / bits_in_word) (f word) ∙ valid.storage;
      small =
          All-set IsWord b.map (n / bits_in_word) (f word) valid.small
            (writes.small word word-IsWord);
    },
    refl,
    tabulate_congr b.num_bits 0 (is_set written) (λ k. if 0 + n == k then v else is_set b k)
          (λ k _ _. ground (arith, is_set-written k))
        ∙ sym (set-tabulate b.num_bits 0 n (is_set b) v),
  )
