-- ===== src/Bitmap.antt =====
-- code/userprog/bitmap.cc and bitmap.h: an array of bits over an array of 32-bit words.
pub mod Words
pub mod View
pub mod Update
pub mod Search
pub mod Clear
pub mod Slots
mod Tests
use Prim.Native.Nat.{bit_and, bit_or}
use nachos_system_calls.Prelude.{
  ℕ, zero, suc, ◌+◌, ◌-◌, ◌/◌, ◌%◌, ◌^◌, Bool, true, false, Option, none, some, List, get_elem?,
  set, replicate, ltb, ◌==◌, if◌then◌else◌, ℤ, pos, negsuc, ◌>>=◌, ◌>>◌, assert_that,
}

abbrev pub bits_in_word : ℕ
bits_in_word = 32

-- `divRoundUp(n, s)` of threads/utility.h.
abbrev pub div_round_up : ℕ → ℕ → ℕ
div_round_up n s = n / s + (if n % s == 0 then 0 else 1)

pub record BitMap : Type 0 where
  pub num_bits : ℕ
  pub num_words : ℕ
  pub map : List ℕ

-- `1 << (which % BitsInWord)`.
abbrev pub mask : ℕ → ℕ
mask n = 2 ^ (n % bits_in_word)

-- `~(1 << (which % BitsInWord))`, as the unsigned word that it is converted to.
abbrev pub inv_mask : ℕ → ℕ
inv_mask n = 2 ^ bits_in_word - 1 - mask n

-- `map[which / BitsInWord] = f(map[which / BitsInWord])`; no such word is a fault.
pub update_word : BitMap → ℕ → (ℕ → ℕ) → Option BitMap
update_word b i f = get_elem? b.map i >>= λ w. some (record b { map = set b.map i (f w) })

in_range : BitMap → ℤ → Option ℕ
in_range b (negsuc n) = none
in_range b (pos n) = if ltb n b.num_bits then some n else none

unfoldable pub mark : BitMap → ℤ → Option BitMap
unfolding in_range update_word
mark b which = do n ← in_range b which; update_word b (n / bits_in_word) (λ w. bit_or w (mask n))

unfoldable pub clear : BitMap → ℤ → Option BitMap
unfolding in_range update_word
clear b which = do
  n ← in_range b which
  update_word b (n / bits_in_word) (λ w. bit_and w (inv_mask n))

unfoldable pub test : BitMap → ℤ → Option Bool
unfolding in_range
test b which = do
  n ← in_range b which
  w ← get_elem? b.map (n / bits_in_word)
  some (if bit_and w (mask n) == 0 then false else true)

-- The loop of the constructor: `k` rounds are left, from bit `i` on.
clear_from : ℕ → ℕ → BitMap → Option BitMap
clear_from zero i b = some b
clear_from (suc k) i b = clear b (pos i) >>= clear_from k (i + 1)

-- The constructor; `storage` is what `new` returns, `num_words` words of any contents.
pub create : List ℕ → ℕ → Option BitMap
unfolding clear_from
create storage nitems =
    clear_from nitems 0
      (record { num_bits = nitems; num_words = div_round_up nitems bits_in_word; map = storage })

-- The loop of `Find`, from bit `i` on.
find_from : ℕ → ℕ → BitMap → Option (BitMap × ℤ)
find_from zero i b = some (b, negsuc 0)
find_from (suc k) i b = test b (pos i) >>= λ used. elim used [
  | true ↦ find_from k (i + 1) b
  | false ↦ mark b (pos i) >>= λ b'. some (b', pos i)
]

unfoldable pub find : BitMap → Option (BitMap × ℤ)
unfolding find_from
find b = find_from b.num_bits 0 b

num_clear_from : ℕ → ℕ → BitMap → ℕ → Option ℕ
num_clear_from zero i b count = some count
num_clear_from (suc k) i b count =
    test b (pos i) >>= λ used. num_clear_from k (i + 1) b (if used then count else count + 1)

unfoldable pub num_clear : BitMap → Option ℕ
unfolding num_clear_from
num_clear b = num_clear_from b.num_bits 0 b 0
