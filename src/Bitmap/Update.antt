-- ===== src/Bitmap/Update.antt =====
-- Mark, Clear and Test on one bit.
use Prim.Native.Nat.{bit_and, bit_or}
use nachos_system_calls.Prelude.{
  ℕ, ◌+◌, ◌/◌, ◌%◌, ◌≤◌, ◌<◌, ◌≡◌, refl, Bool, true, false, some, none, get_or, set, get_elem?, ℤ,
  pos, negsuc, lt→ltb, ◌==◌, if◌then◌else◌, arith, get_elem?-eq-get_or, get_elem?-tabulate_zero,
  set-tabulate, ◌∙◌, sym, ap,
}
use nachos_system_calls.Bitmap.{BitMap, bits_in_word, mask, inv_mask, in_range, mark, clear, test}
use nachos_system_calls.Bitmap.View.{IsValid, Writes, bits, is_set, word_in_range, update_word_lem}
use nachos_system_calls.Bitmap.Words.{
  bit-bit_and, bit-bit_or, bit-pow, bit-inv, bit_or-lt, bit_and-le, bit_and-pow, pow-lt,
}

mask-Writes : (n : ℕ) → Writes (n % bits_in_word) true (λ w. bit_or w (mask n))
mask-Writes n = record {
  small = λ w h.
      bit_or-lt bits_in_word w (mask n) h (pow-lt (n % bits_in_word) bits_in_word (omega arith));
  bits = λ w k h l. rw (bit-bit_or w (mask n) k, bit-pow (n % bits_in_word) k) (ground arith);
}

inv_mask-Writes : (n : ℕ) → Writes (n % bits_in_word) false (λ w. bit_and w (inv_mask n))
inv_mask-Writes n = record {
  small = λ w h. omega (arith, bit_and-le w (inv_mask n));
  bits = λ w k h l.
      rw (bit-bit_and w (inv_mask n) k, bit-inv bits_in_word (n % bits_in_word) k (omega arith) l)
        (ground arith);
}

in_range-pos : (b : BitMap) (n : ℕ) → n < b.num_bits → in_range b (pos n) ≡ some n
unfolding in_range
in_range-pos b n h = rw (lt→ltb _ _ h)

-- Mark on a bit of a valid map succeeds, keeps the map valid, and sets that bit and no other.
pub mark_lem :
    {b : BitMap} (n : ℕ)
    → IsValid b
    → n < b.num_bits
    → (b' : BitMap) × (mark b (pos n) ≡ some b')
      × IsValid b'
      × (b'.num_bits ≡ b.num_bits)
      × (bits b' ≡ set (bits b) n true)
unfolding mark
mark_lem {b} n v h = rw (in_range-pos b n h) (update_word_lem n true _ v h (mask-Writes n))

-- Clear on a bit of a valid map succeeds, keeps the map valid, and clears that bit and no other.
pub clear_lem :
    {b : BitMap} (n : ℕ)
    → IsValid b
    → n < b.num_bits
    → (b' : BitMap) × (clear b (pos n) ≡ some b')
      × IsValid b'
      × (b'.num_bits ≡ b.num_bits)
      × (bits b' ≡ set (bits b) n false)
unfolding clear
clear_lem {b} n v h = rw (in_range-pos b n h) (update_word_lem n false _ v h (inv_mask-Writes n))

pub test-is_set :
    {b : BitMap} (n : ℕ) → IsValid b → n < b.num_bits → test b (pos n) ≡ some (is_set b n)
unfolding test
test-is_set {b} n v h = rw (
  in_range-pos b n h,
  get_elem?-eq-get_or b.map (n / bits_in_word) 0 (word_in_range n v h),
  bit_and-pow (n % bits_in_word) (get_or b.map (n / bits_in_word) 0),
)

-- Test on a bit of a valid map returns that bit.
pub test_lem :
    {b : BitMap} (n : ℕ) → IsValid b → n < b.num_bits → test b (pos n) ≡ get_elem? (bits b) n
test_lem {b} n v h = test-is_set n v h ∙ sym (get_elem?-tabulate_zero b.num_bits n (is_set b) h)

-- What a write to one bit means for each bit.
pub is_set_of_set :
    (b b' : BitMap) (n j : ℕ) (v : Bool)
    → b'.num_bits ≡ b.num_bits
    → bits b' ≡ set (bits b) n v
    → j < b.num_bits
    → is_set b' j ≡ (if n == j then v else is_set b j)
is_set_of_set b b' n j v e h l = ground (
  arith,
  get_elem?-tabulate_zero b'.num_bits j (is_set b') (omega arith),
  ap (λ xs. get_elem? xs j) (h ∙ set-tabulate b.num_bits 0 n (is_set b) v),
  get_elem?-tabulate_zero b.num_bits j (λ k. if 0 + n == k then v else is_set b k) l,
)

-- Outside the map Mark, Clear and Test all stop at their assertion.
pub out_of_range :
    (b : BitMap) (which : ℤ)
    → ((n : ℕ) → which ≡ pos n → b.num_bits ≤ n)
    → (mark b which ≡ none) × (clear b which ≡ none) × (test b which ≡ none)
unfolding mark clear test in_range
out_of_range b (pos n) h = ground (arith, h n refl)
out_of_range b (negsuc n) h = (refl, refl, refl)
