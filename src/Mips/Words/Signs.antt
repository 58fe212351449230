-- ===== src/Mips/Words/Signs.antt =====
-- The sign bits of words, and what the tests of code/machine/mipssim.cc on them say.
use Prim.Native.Nat.{bit_and, bit_or, bit_xor}
use native.Mathlib.Nat.{pow-suc}
use nachos_system_calls.Prelude.{
  ℕ, zero, suc, ◌+◌, ◌*◌, ◌/◌, ◌%◌, ◌^◌, ◌<◌, ◌≤◌, ◌≡◌, Bool, true, false, ◌==◌, leb, ltb, ◌-◌,
  if◌then◌else◌, arith, ap, ap₂, ◌∙◌,
}
use nachos_system_calls.Bitmap.Words.{bit, last_and, last_or, bit-bit_xor, xor, pow-pos}
use nachos_system_calls.Mips.Words.{sign_bit, signs_differ}

pub bit_and-zero : (n x : ℕ) → x ≤ n → bit_and x 0 ≡ 0
bit_and-zero zero zero h = omega (arith, last_and 0 0)
bit_and-zero zero (suc x) h = absurd (omega arith)
bit_and-zero (suc n) x h = omega (arith, last_and x 0, bit_and-zero n (x / 2) (omega arith))

-- `x & (1 << n)`.
pub bit_and-pow : (n x : ℕ) → bit_and x (2 ^ n) ≡ (if bit x n then 2 ^ n else 0)
bit_and-pow zero x = ground (arith, last_and x 1, bit_and-zero (x / 2) (x / 2) (omega arith))
bit_and-pow (suc n) x =
    let h : 2 ^ suc n / 2 ≡ 2 ^ n = omega (arith, pow-suc 2 n) in
    let step : bit_and x (2 ^ suc n) ≡ 2 * bit_and (x / 2) (2 ^ n) =
      omega (arith, last_and x (2 ^ suc n), ap (λ v. bit_and (x / 2) v) h, pow-suc 2 n) in
    step ∙ rw (bit_and-pow n (x / 2)) (ground (arith, pow-suc 2 n))

-- `x & 1`, and `x & 0xfffffffe` as a test.
pub bit_and-one : (x : ℕ) → bit_and x 1 ≡ x % 2
bit_and-one x = omega (arith, last_and x 1, bit_and-zero (x / 2) (x / 2) (omega arith))

bit_and-mask_fuel : (n x : ℕ) → x < 2 ^ n → bit_and x (2 ^ n - 1) ≡ x
bit_and-mask_fuel zero x h = omega (arith, bit_and-zero x x (omega arith))
bit_and-mask_fuel (suc n) x h =
    let e : (2 ^ suc n - 1) / 2 ≡ 2 ^ n - 1 = omega (arith, pow-suc 2 n, pow-pos n) in
    omega (
      arith,
      last_and x (2 ^ suc n - 1),
      ap (λ v. bit_and (x / 2) v) e,
      bit_and-mask_fuel n (x / 2) (omega (arith, pow-suc 2 n)),
      pow-suc 2 n,
      pow-pos n,
    )

pub bit_and-upper : (x : ℕ) → x < 2 ^ 32 → (bit_and x 0xfffffffe == 0) ≡ ltb x 2
bit_and-upper x h =
    ground (arith, last_and x 0xfffffffe, bit_and-mask_fuel 31 (x / 2) (omega arith))

bit_or-zero : (n x : ℕ) → x ≤ n → bit_or x 0 ≡ x
bit_or-zero zero zero h = omega (arith, last_or 0 0)
bit_or-zero zero (suc x) h = absurd (omega arith)
bit_or-zero (suc n) x h = omega (arith, last_or x 0, bit_or-zero n (x / 2) (omega arith))

-- `x | 1` for an even `x`.
pub bit_or-one : (x : ℕ) → x % 2 ≡ 0 → bit_or x 1 ≡ x + 1
bit_or-one x h = omega (arith, last_or x 1, bit_or-zero (x / 2) (x / 2) (omega arith), h)

pub top_bit : (n a : ℕ) → a < 2 ^ suc n → bit a n ≡ leb (2 ^ n) a
top_bit zero a h = ground arith
top_bit (suc n) a h =
    top_bit n (a / 2) (omega (arith, pow-suc 2 (suc n))) ∙ ground (arith, pow-suc 2 n)

pub sign_bit_lem : (a : ℕ) → a < 2 ^ 32 → sign_bit a ≡ leb (2 ^ 31) a
unfolding sign_bit
sign_bit_lem a h = go (bit a 31) (bit_and-pow 31 a) (top_bit 31 a h)
  where
    go :
        (b : Bool)
        → bit_and a 0x80000000 ≡ (if b then 0x80000000 else 0)
        → b ≡ leb (2 ^ 31) a
        → sign_bit a ≡ leb (2 ^ 31) a
    go true e p = rw e p
    go false e p = rw e p

pub signs_differ_lem :
    (a b : ℕ) → a < 2 ^ 32 → b < 2 ^ 32 → signs_differ a b ≡ xor (leb (2 ^ 31) a) (leb (2 ^ 31) b)
unfolding signs_differ sign_bit
signs_differ_lem a b h l =
    go (bit (bit_xor a b) 31) (bit_and-pow 31 (bit_xor a b))
      (bit-bit_xor a b 31 ∙ ap₂ xor (top_bit 31 a h) (top_bit 31 b l))
  where
    go :
        (c : Bool)
        → bit_and (bit_xor a b) 0x80000000 ≡ (if c then 0x80000000 else 0)
        → c ≡ xor (leb (2 ^ 31) a) (leb (2 ^ 31) b)
        → signs_differ a b ≡ xor (leb (2 ^ 31) a) (leb (2 ^ 31) b)
    go true e p = rw e p
    go false e p = rw e p

pub sign_test : (x : ℕ) → x < 2 ^ 32 → (bit_and x 0x80000000 == 0) ≡ ltb x (2 ^ 31)
unfolding sign_bit
sign_test x h = ground (arith, sign_bit_lem x h)
