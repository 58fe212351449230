-- ===== src/Mips/Words.antt =====
-- The operators that code/machine/mipssim.cc applies to words.
pub mod Signs
use Prim.Native.Nat.{bit_and, bit_xor}
use nachos_system_calls.Prelude.{
  ℕ, ◌+◌, ◌-◌, ◌*◌, ◌/◌, ◌%◌, ◌^◌, Bool, true, false, not, ◌==◌, ltb, leb, if◌then◌else◌, lt_int,
}
use nachos_system_calls.Machine.{signed}

-- `a + b` and `a - b` on int and unsigned.
abbrev pub add : ℕ → ℕ → ℕ
add a b = (a + b) % 2 ^ 32

abbrev pub sub : ℕ → ℕ → ℕ
sub a b = (a + 2 ^ 32 - b) % 2 ^ 32

abbrev pub complement : ℕ → ℕ
complement a = 2 ^ 32 - 1 - a

-- `a << n`.
abbrev pub shift_left : ℕ → ℕ → ℕ
shift_left a n = a * 2 ^ n % 2 ^ 32

-- `a >> n` on an int: the sign fills the upper bits. Here `n` is below 32.
abbrev pub shift_right : ℕ → ℕ → ℕ
shift_right a n = if ltb a (2 ^ 31) then a / 2 ^ n else a / 2 ^ n + (2 ^ 32 - 2 ^ (32 - n))

-- `a & SIGN_BIT`, as a test.
pub sign_bit : ℕ → Bool
sign_bit a = not (bit_and a 0x80000000 == 0)

-- `(a ^ b) & SIGN_BIT`.
unfoldable pub signs_differ : ℕ → ℕ → Bool
unfolding sign_bit
signs_differ a b = sign_bit (bit_xor a b)

-- `a < b` on int.
abbrev pub lt_signed : ℕ → ℕ → Bool
lt_signed a b = lt_int (signed a) (signed b)

-- `-a` on an int, for a word that is not 0 too.
abbrev pub negate : ℕ → ℕ
negate a = (2 ^ 32 - a) % 2 ^ 32

-- `a / b` and `a % b` on int, cut off towards 0, for `b` other than 0.
magnitude : ℕ → ℕ
magnitude a = if ltb a (2 ^ 31) then a else 2 ^ 32 - a

pub quotient : ℕ → ℕ → ℕ
unfolding magnitude sign_bit
quotient a b =
    let q = magnitude a / magnitude b in
    if ltb a (2 ^ 31)
    then (if ltb b (2 ^ 31) then q else negate q)
    else (if ltb b (2 ^ 31) then negate q else q)

pub remainder : ℕ → ℕ → ℕ
unfolding magnitude
remainder a b = let r = magnitude a % magnitude b in if ltb a (2 ^ 31) then r else negate r
