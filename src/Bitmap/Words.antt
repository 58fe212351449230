-- ===== src/Bitmap/Words.antt =====
-- Single bits of a number, and how `&` and `|` act on them.
use Prim.Native.Nat.{
  digits, differ, bit_and, bit_or, bit_xor, bit_and-bitwise, bit_or-bitwise, bit_xor-bitwise,
}
use native.Mathlib.Nat.{pow-suc}
use nachos_system_calls.Prelude.{
  ℕ, zero, suc, ◌+◌, ◌-◌, ◌*◌, ◌/◌, ◌%◌, ◌^◌, ◌≤◌, ◌<◌, min, max, ◌≡◌, refl, Bool, true, false, not,
  ◌&&◌, ◌||◌, ◌==◌, if◌then◌else◌, arith,
}

-- Bit `k` of `w`.
abbrev pub bit : ℕ → ℕ → Bool
bit w zero = w % 2 == 1
bit w (suc k) = bit (w / 2) k

-- An operation that the library defines digit by digit, with the first number as fuel: any more
-- fuel gives the same, so the lowest digit can be split off.
module _ (op low : ℕ → ℕ → ℕ) (rest : ℕ → ℕ)
    (def : (a b : ℕ) → op a b ≡ digits rest low a a b) where
  more_fuel : (k n a b : ℕ) → n ≤ k → a ≤ n → digits rest low n a b ≡ digits rest low a a b
  more_fuel k n zero b h l = empty n
    where
      empty : (m : ℕ) → digits rest low m zero b ≡ digits rest low zero zero b
      empty zero = refl
      empty (suc m) = refl
  more_fuel k zero (suc a) b h l = absurd (omega arith)
  more_fuel zero (suc n) (suc a) b h l = absurd (omega arith)
  more_fuel (suc k) (suc n) (suc a) b h l =
      let c = suc a / 2 in
      let d = b / 2 in
      let longer = more_fuel k n c d (omega arith) (omega arith) in
      let shorter = more_fuel k a c d (omega arith) (omega arith) in omega (arith, longer, shorter)

  op-zero : (b : ℕ) → op 0 b ≡ rest b
  op-zero b = def 0 b

  op_step : (a b : ℕ) → op (suc a) b ≡ op (suc a / 2) (b / 2) * 2 + low (suc a % 2) (b % 2)
  op_step a b =
      let c = suc a / 2 in
      let half = more_fuel a a c (b / 2) (omega arith) (omega arith) in
      omega (arith, def (suc a) b, def (suc a / 2) (b / 2), half)

none_and : (v : ℕ) → bit_and 0 v ≡ 0
none_and = op-zero bit_and min (λ c. zero) bit_and-bitwise

none_or : (v : ℕ) → bit_or 0 v ≡ v
none_or = op-zero bit_or max (λ c. c) bit_or-bitwise

-- The operations work on the last bit and on the others apart.
pub last_and : (w v : ℕ) → min (w % 2) (v % 2) + 2 * bit_and (w / 2) (v / 2) ≡ bit_and w v
last_and zero v = omega (none_and v, none_and (v / 2), arith)
last_and (suc w) v = let e = op_step bit_and min (λ c. zero) bit_and-bitwise w v in omega (e, arith)

pub last_or : (w v : ℕ) → max (w % 2) (v % 2) + 2 * bit_or (w / 2) (v / 2) ≡ bit_or w v
last_or zero v = omega (none_or v, none_or (v / 2), arith)
last_or (suc w) v = let e = op_step bit_or max (λ c. c) bit_or-bitwise w v in omega (e, arith)

none_xor : (v : ℕ) → bit_xor 0 v ≡ v
none_xor = op-zero bit_xor differ (λ c. c) bit_xor-bitwise

digit_xor : ℕ → ℕ → ℕ
digit_xor w v = differ (w % 2) (v % 2)

digit_xor-zero : (v : ℕ) → digit_xor 0 v ≡ v % 2
unfolding digit_xor
digit_xor-zero v = refl

last_xor : (w v : ℕ) → digit_xor w v + 2 * bit_xor (w / 2) (v / 2) ≡ bit_xor w v
unfolding digit_xor
last_xor zero v = omega (none_xor v, none_xor (v / 2), arith)
last_xor (suc w) v = let e = op_step bit_xor differ (λ c. c) bit_xor-bitwise w v in omega (e, arith)

digit_xor-lt : (w v : ℕ) → digit_xor w v < 2
unfolding digit_xor
digit_xor-lt w v = small (w % 2) (v % 2) (omega arith) (omega arith)
  where
    small : (a b : ℕ) → a < 2 → b < 2 → differ a b < 2
    small zero b h l = l
    small (suc zero) zero h l = h
    small (suc zero) (suc zero) h l = omega arith
    small (suc zero) (suc (suc b)) h l = absurd (omega arith)
    small (suc (suc a)) b h l = absurd (omega arith)

pub half-bit_xor : (a b : ℕ) → bit_xor a b / 2 ≡ bit_xor (a / 2) (b / 2)
half-bit_xor a b = omega (arith, last_xor a b, digit_xor-lt a b)

-- Whether two bits differ.
abbrev pub xor : Bool → Bool → Bool
xor true b = not b
xor false b = b

pub bit-bit_xor : (a b k : ℕ) → bit (bit_xor a b) k ≡ xor (bit a k) (bit b k)
unfolding digit_xor
bit-bit_xor a b (suc k) = rw half-bit_xor (bit-bit_xor (a / 2) (b / 2) k)
bit-bit_xor a b zero =
    low (a % 2) (b % 2) (bit_xor a b % 2) (omega arith) (omega arith)
      (omega (arith, last_xor a b, digit_xor-lt a b))
  where
    low : (x y z : ℕ) → x < 2 → y < 2 → z ≡ differ x y → (z == 1) ≡ xor (x == 1) (y == 1)
    low zero y z h l e = ground arith
    low (suc zero) zero z h l e = ground arith
    low (suc zero) (suc zero) z h l e = ground arith
    low (suc zero) (suc (suc y)) z h l e = absurd (omega arith)
    low (suc (suc x)) y z h l e = absurd (omega arith)

pub half-bit_and : (a b : ℕ) → bit_and a b / 2 ≡ bit_and (a / 2) (b / 2)
half-bit_and a b = omega (arith, last_and a b)

pub half-bit_or : (a b : ℕ) → bit_or a b / 2 ≡ bit_or (a / 2) (b / 2)
half-bit_or a b = omega (arith, last_or a b)

pub bit-bit_and : (a b k : ℕ) → bit (bit_and a b) k ≡ bit a k && bit b k
bit-bit_and a b zero = ground (arith, last_and a b)
bit-bit_and a b (suc k) = rw half-bit_and (bit-bit_and (a / 2) (b / 2) k)

pub bit-bit_or : (a b k : ℕ) → bit (bit_or a b) k ≡ bit a k || bit b k
bit-bit_or a b zero = ground (arith, last_or a b)
bit-bit_or a b (suc k) = rw half-bit_or (bit-bit_or (a / 2) (b / 2) k)

-- The word with bit `n` alone.
pub bit-pow : (n k : ℕ) → bit (2 ^ n) k ≡ (n == k)
bit-pow zero zero = refl
bit-pow zero (suc k) = ground (arith, bit-zero k)
  where
    bit-zero : (j : ℕ) → bit 0 j ≡ false
    bit-zero zero = refl
    bit-zero (suc j) = bit-zero j
bit-pow (suc n) zero = ground (arith, pow-suc 2 n)
bit-pow (suc n) (suc k) =
    let e : 2 ^ suc n / 2 ≡ 2 ^ n = omega (arith, pow-suc 2 n) in rw (e, bit-pow n k) (ground arith)

pub pow-pos : (m : ℕ) → 1 ≤ 2 ^ m
pow-pos zero = omega arith
pow-pos (suc m) = omega (arith, pow-suc 2 m, pow-pos m)

pub pow-lt : (n m : ℕ) → n < m → 2 ^ n < 2 ^ m
pow-lt n zero h = absurd (omega arith)
pow-lt zero (suc m) h = omega (arith, pow-suc 2 m, pow-pos m)
pow-lt (suc n) (suc m) h = omega (arith, pow-suc 2 m, pow-suc 2 n, pow-lt n m (omega arith))

bit-ones : (m k : ℕ) → k < m → bit (2 ^ m - 1) k ≡ true
bit-ones zero k h = absurd (omega arith)
bit-ones (suc m) zero h = ground (arith, pow-suc 2 m, pow-pos m)
bit-ones (suc m) (suc k) h =
    let e : (2 ^ suc m - 1) / 2 ≡ 2 ^ m - 1 = omega (arith, pow-suc 2 m, pow-pos m) in
    rw (e, bit-ones m k (omega arith))

-- All bits below `m` but bit `n`.
pub bit-inv : (m n k : ℕ) → n < m → k < m → bit (2 ^ m - 1 - 2 ^ n) k ≡ not (n == k)
bit-inv zero n k h l = absurd (omega arith)
bit-inv (suc m) zero zero h l = ground (arith, pow-suc 2 m, pow-pos m)
bit-inv (suc m) zero (suc k) h l =
    let e : (2 ^ suc m - 1 - 1) / 2 ≡ 2 ^ m - 1 = omega (arith, pow-suc 2 m, pow-pos m) in
    rw (e, bit-ones m k (omega arith)) (ground arith)
bit-inv (suc m) (suc n) zero h l =
    ground (arith, pow-suc 2 m, pow-suc 2 n, pow-lt n m (omega arith))
bit-inv (suc m) (suc n) (suc k) h l =
    let e : (2 ^ suc m - 1 - 2 ^ suc n) / 2 ≡ 2 ^ m - 1 - 2 ^ n =
      omega (arith, pow-suc 2 m, pow-suc 2 n, pow-lt n m (omega arith)) in
    rw (e, bit-inv m n k (omega arith) (omega arith)) (ground arith)

pub bit_or-lt : (m a b : ℕ) → a < 2 ^ m → b < 2 ^ m → bit_or a b < 2 ^ m
bit_or-lt zero zero zero h l = omega (arith, none_or 0)
bit_or-lt zero (suc a) b h l = absurd (omega arith)
bit_or-lt zero zero (suc b) h l = absurd (omega arith)
bit_or-lt (suc m) a b h l =
    omega (arith, pow-suc 2 m, last_or a b, bit_or-lt m (a / 2) (b / 2) half_a half_b)
  where
    half_a : a / 2 < 2 ^ m
    half_a = omega (arith, pow-suc 2 m)

    half_b : b / 2 < 2 ^ m
    half_b = omega (arith, pow-suc 2 m)

bit_and-le_fuel : (n a b : ℕ) → a ≤ n → bit_and a b ≤ a
bit_and-le_fuel n zero b h = omega (arith, none_and b)
bit_and-le_fuel zero (suc a) b h = absurd (omega arith)
bit_and-le_fuel (suc n) (suc a) b h =
    omega (arith, last_and (suc a) b, bit_and-le_fuel n (suc a / 2) (b / 2) (omega arith))

pub bit_and-le : (a b : ℕ) → bit_and a b ≤ a
bit_and-le a b = bit_and-le_fuel a a b (omega arith)

-- The test of `a & (1 << n)` reads bit `n`.
bit_and-no_bits : (bound a : ℕ) → a < bound → bit_and a 0 ≡ 0
bit_and-no_bits zero a h = absurd (omega arith)
bit_and-no_bits (suc bound) zero h = none_and 0
bit_and-no_bits (suc bound) (suc a) h =
    let halved = bit_and-no_bits bound (suc a / 2) (omega arith) in
    omega (arith, last_and (suc a) 0, halved)

pub bit_and-pow : (n a : ℕ) → (if bit_and a (2 ^ n) == 0 then false else true) ≡ bit a n
bit_and-pow zero a = ground (arith, last_and a 1, bit_and-no_bits (a / 2 + 1) (a / 2) (omega arith))
bit_and-pow (suc n) a = rw (← bit_and-pow n (a / 2)) (ground (arith, last_and a (2 ^ suc n), e, z))
  where
    e : 2 ^ suc n / 2 ≡ 2 ^ n
    e = omega (arith, pow-suc 2 n)

    z : 2 ^ suc n % 2 ≡ 0
    z = omega (arith, pow-suc 2 n)
