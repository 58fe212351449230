-- ===== src/Mips/Mult/Product.antt =====
-- Mult computes the product of 64 bits.
use Prim.Native.Nat.{bit_and, bit_or}
use native.Mathlib.Nat.{pow-suc, add-mul, mul_assoc, mod-add-mod}
use nachos_system_calls.Prelude.{
  ℕ, zero, suc, ◌+◌, ◌-◌, ◌*◌, ◌/◌, ◌%◌, ◌^◌, ◌<◌, ◌≤◌, ◌≡◌, refl, Bool, true, false, ◌||◌, ◌==◌,
  ltb, leb, if◌then◌else◌, arith, Bool-cases, inl, inr, ap, ◌∙◌, sym, ℤ, pos, negsuc, neg, ◌*ℤ◌,
}
use nachos_system_calls.Machine.{signed}
use nachos_system_calls.Mips.Words.{negate, shift_left, shift_right}
use nachos_system_calls.Mips.Words.Signs.{bit_and-one, bit_and-upper, bit_or-one, sign_test}
use nachos_system_calls.Mips.Mult.{add_double, shift_double, mult_loop, negate_double, mult}

abbrev two_words : ℕ
two_words = 2 ^ 64

-- The number that a double word stands for.
abbrev pub double : ℕ × ℕ → ℕ
double (hi, lo) = hi * 2 ^ 32 + lo

-- The number in the last `k` bits.
abbrev pub low : ℕ → ℕ → ℕ
low zero a = 0
low (suc k) a = a % 2 + 2 * low k (a / 2)

low-zero : (k : ℕ) → low k 0 ≡ 0
low-zero zero = refl
low-zero (suc k) = omega (arith, low-zero k)

low-small : (k a : ℕ) → a < 2 ^ k → low k a ≡ a
low-small zero a h = omega arith
low-small (suc k) a h = omega (arith, low-small k (a / 2) (omega (arith, pow-suc 2 k)))

low-add : (k j a : ℕ) → k ≤ j → low k (a + 2 ^ j) ≡ low k a
low-add zero j a h = refl
low-add (suc k) zero a h = absurd (omega arith)
low-add (suc k) (suc j) a h =
    let e : (a + 2 ^ suc j) / 2 ≡ a / 2 + 2 ^ j = omega (arith, pow-suc 2 j) in
    rw (e, low-add k j (a / 2) (omega arith)) (omega (arith, pow-suc 2 j))

-- The sign that fills the upper bits is never read.
low-shift_right : (k a : ℕ) → k ≤ 31 → low k (shift_right a 1) ≡ low k (a / 2)
low-shift_right k a h = elim (Bool-cases (ltb a (2 ^ 31))) [
  | inl t ↦ rw t refl
  | inr t ↦ rw t (low-add k 31 (a / 2) h)
]

mod-add-mul : (v w t : ℕ) → (v + (w % two_words) * t) % two_words ≡ (v + w * t) % two_words
mod-add-mul v w t =
    let q = w / two_words in
    let r = w % two_words in
    let e : w * t ≡ two_words * (q * t) + r * t =
      ap (λ x. x * t) (split w)
      ∙ add-mul (two_words * q) r t
      ∙ ap (λ x. x + r * t) (mul_assoc two_words q t) in
    omega (arith, e)
  where
    split : (x : ℕ) → x ≡ two_words * (x / two_words) + x % two_words
    split x = omega arith

abbrev AreWords : ℕ × ℕ → Type 0
AreWords (hi, lo) = (hi < 2 ^ 32) × (lo < 2 ^ 32)

double-shift_double :
    (b : ℕ × ℕ)
    → AreWords b
    → (double (shift_double b) ≡ 2 * double b % two_words) × AreWords (shift_double b)
unfolding shift_double
double-shift_double (b_hi, b_lo) (h, l) =
    let e : bit_or (shift_left b_hi 1) 1 ≡ shift_left b_hi 1 + 1 =
      bit_or-one (shift_left b_hi 1) (omega arith) in
    go (bit_and b_lo 0x80000000 == 0) (sign_test b_lo l) e
  where
    go :
        (c : Bool)
        → c ≡ ltb b_lo (2 ^ 31)
        → bit_or (shift_left b_hi 1) 1 ≡ shift_left b_hi 1 + 1
        → (double (if c then shift_left b_hi 1 else bit_or (shift_left b_hi 1) 1, shift_left b_lo 1)
            ≡ 2 * double (b_hi, b_lo) % two_words)
          × AreWords
              (if c then shift_left b_hi 1 else bit_or (shift_left b_hi 1) 1, shift_left b_lo 1)
    go true p e = ground arith
    go false p e = ground arith

double-add_double :
    (r b : ℕ × ℕ)
    → AreWords r
    → AreWords b
    → (double (add_double r b) ≡ (double r + double b) % two_words) × AreWords (add_double r b)
unfolding add_double
double-add_double (hi, lo) (b_hi, b_lo) (h, l) (p, q) = ground arith

-- A round in numbers, for a bit that is 0 and one that is 1.
even_round :
    (v w x t u d : ℕ)
    → x ≡ 2 * w % two_words
    → u ≡ t
    → d ≡ 0
    → (v + x * u) % two_words ≡ (v + w * (d + 2 * t)) % two_words
even_round v w x t u d e f g =
    rw (e, f, g) (mod-add-mul v (2 * w) t ∙ ap (λ y. (v + y) % two_words) (twice w t))
  where
    twice : (w t : ℕ) → 2 * w * t ≡ w * (0 + 2 * t)
    twice w t = grind arith

odd_round :
    (v v' w x t u d : ℕ)
    → v' ≡ (v + w) % two_words
    → x ≡ 2 * w % two_words
    → u ≡ t
    → d ≡ 1
    → (v' + x * u) % two_words ≡ (v + w * (d + 2 * t)) % two_words
odd_round v v' w x t u d c e f g =
    rw (c, e, f, g)
      (mod-add-mod (v + w) two_words ((2 * w % two_words) * t)
        ∙ mod-add-mul (v + w) (2 * w) t
        ∙ ap (λ y. y % two_words) (sum v w t))
  where
    sum : (v w t : ℕ) → v + w + 2 * w * t ≡ v + w * (1 + 2 * t)
    sum v w t = grind arith

-- The loop adds `b` times the bits of `a` that are left.
mult_loop_lem :
    (k a : ℕ) (b r : ℕ × ℕ)
    → k ≤ 32
    → a < 2 ^ 32
    → AreWords b
    → AreWords r
    → (double (mult_loop k a b r) ≡ (double r + double b * low k a) % two_words)
      × AreWords (mult_loop k a b r)
unfolding mult_loop
mult_loop_lem zero a b r n p q s = (omega arith, s)
mult_loop_lem (suc k) a b r n p q s =
    let (e, wb) = double-shift_double b q in
    let (f, wr) = double-add_double r b s q in
    let t = low k (a / 2) in
    let u = low-shift_right k a (omega arith) in
    let sh = shift_right a 1 in
    elim (Bool-cases (bit_and a 1 == 0)) [
      | inl even ↦
          let (g, w) = mult_loop_lem k sh (shift_double b) r (omega arith) (shift_lt a p) wb s in
          rw even (g ∙ even_round (double r) (double b) _ t _ (a % 2) e u (even_bit a even), w)
      | inr odd ↦ elim (Bool-cases (bit_and a 0xfffffffe == 0)) [
        | inl last ↦
            rw (odd, last)
              (
                f ∙ ap (λ y. (double r + y) % two_words) (sym (last_round a (double b) p odd last)),
                wr,
              )
        | inr more ↦
            let (g, w) =
              mult_loop_lem k sh (shift_double b) (add_double r b) (omega arith) (shift_lt a p) wb
                wr in
            rw (odd, more)
              (g ∙ odd_round (double r) _ (double b) _ t _ (a % 2) f e u (odd_bit a odd), w)
      ]
    ]
  where
    shift_lt : (a : ℕ) → a < 2 ^ 32 → shift_right a 1 < 2 ^ 32
    shift_lt a p = ground arith

    last_round :
        (a v : ℕ)
        → a < 2 ^ 32
        → (bit_and a 1 == 0) ≡ false
        → (bit_and a 0xfffffffe == 0) ≡ true
        → v * (a % 2 + 2 * low k (a / 2)) ≡ v
    last_round a v h o l =
        let small : a ≡ 1 = ground (arith, bit_and-one a, bit_and-upper a h) in
        rw small (omega (arith, ap (λ y. v * (1 + 2 * y)) (low-zero k)))

    even_bit : (a : ℕ) → (bit_and a 1 == 0) ≡ true → a % 2 ≡ 0
    even_bit a h = ground (arith, bit_and-one a)

    odd_bit : (a : ℕ) → (bit_and a 1 == 0) ≡ false → a % 2 ≡ 1
    odd_bit a h = ground (arith, bit_and-one a)

negate_double_lem :
    (r : ℕ × ℕ) → AreWords r → double (negate_double r) ≡ (two_words - double r) % two_words
unfolding negate_double
negate_double_lem (hi, lo) (h, l) = ground arith

-- The product of two integers as a number of 64 bits.
abbrev pub product : ℤ → ℕ
product (pos n) = n % two_words
product (negsuc n) = two_words - 1 - n % two_words

product-neg : (x : ℕ) → product (neg (pos x)) ≡ (two_words - x % two_words) % two_words
product-neg zero = refl
product-neg (suc x) = omega arith

module _ (x y : ℕ) (h : x < 2 ^ 32) (l : y < 2 ^ 32) where
  whole_loop :
      (double (mult_loop 32 x (0, y) (0, 0)) ≡ x * y % two_words)
      × AreWords (mult_loop 32 x (0, y) (0, 0))
  whole_loop =
      let (e, w) =
        mult_loop_lem 32 x (0, y) (0, 0) (omega arith) h (omega arith, l) (omega arith) in
      (e ∙ ap (λ z. z % two_words) (ap (λ z. 0 + (0 + y) * z) (low-small 32 x h) ∙ turn x y), w)
    where
      turn : (x y : ℕ) → 0 + (0 + y) * x ≡ x * y
      turn x y = grind arith

  positive : double (mult_loop 32 x (0, y) (0, 0)) ≡ product (pos (x * y))
  positive = whole_loop.0

  negative : double (negate_double (mult_loop 32 x (0, y) (0, 0))) ≡ product (neg (pos (x * y)))
  negative =
      negate_double_lem _ whole_loop.1
      ∙ ap (λ z. (two_words - z) % two_words) whole_loop.0
      ∙ sym (product-neg (x * y))

signed-pos : (a : ℕ) → leb (2 ^ 31) a ≡ false → signed a ≡ pos a
signed-pos a h = ground arith

signed-negsuc : (a : ℕ) → leb (2 ^ 31) a ≡ true → signed a ≡ negsuc (2 ^ 32 - 1 - a)
signed-negsuc a h = ground arith

-- For a negative word, `-a` is the magnitude of its int.
negate_lem : (a : ℕ) → a < 2 ^ 32 → leb (2 ^ 31) a ≡ true → negate a ≡ 2 ^ 32 - 1 - a + 1
negate_lem a l h = ground arith

zero-mul : (z : ℤ) → product (pos 0 *ℤ z) ≡ 0
zero-mul (pos n) = omega arith
zero-mul (negsuc n) = let e : 0 * (n + 1) ≡ 0 = omega arith in rw e refl

mul-zero : (z : ℤ) → product (z *ℤ pos 0) ≡ 0
mul-zero (pos n) = omega arith
mul-zero (negsuc n) = let e : (n + 1) * 0 ≡ 0 = omega arith in rw e refl

zero_product :
    (a b : ℕ)
    → (a == 0) || (b == 0) ≡ true
    → (0 ≡ product (signed a *ℤ signed b)) × (0 ≡ product (pos (a * b)))
zero_product zero b h = (sym (zero-mul (signed b)), omega arith)
zero_product (suc a) zero h = (sym (mul-zero (signed (suc a))), omega arith)
zero_product (suc a) (suc b) h = absurd (ground arith)

mult-signed :
    (a b : ℕ)
    → a < 2 ^ 32
    → b < 2 ^ 32
    → (a == 0) || (b == 0) ≡ false
    → double (mult a b true) ≡ product (signed a *ℤ signed b)
unfolding mult
mult-signed a b h l z = elim (Bool-cases (leb (2 ^ 31) a)) [
  | inr p ↦ elim (Bool-cases (leb (2 ^ 31) b)) [
    | inr q ↦ rw (z, p, q, signed-pos a p, signed-pos b q) (positive a b h l)
    | inl q ↦
        rw (z, p, q, signed-pos a p, signed-negsuc b q, negate_lem b l q)
          (negative a (2 ^ 32 - 1 - b + 1) h (ground arith))
  ]
  | inl p ↦ elim (Bool-cases (leb (2 ^ 31) b)) [
    | inr q ↦
        rw (z, p, q, signed-negsuc a p, signed-pos b q, negate_lem a h p)
          (negative (2 ^ 32 - 1 - a + 1) b (ground arith) l)
    | inl q ↦
        rw (z, p, q, signed-negsuc a p, signed-negsuc b q, negate_lem a h p, negate_lem b l q)
          (positive (2 ^ 32 - 1 - a + 1) (2 ^ 32 - 1 - b + 1) (ground arith) (ground arith))
  ]
]

-- MULT and MULTU put the product of the ints, or of the unsigned numbers, into HI and LO, modulo
-- 2 ^ 64.
pub mult-product :
    (a b : ℕ)
    → a < 2 ^ 32
    → b < 2 ^ 32
    → (double (mult a b true) ≡ product (signed a *ℤ signed b))
      × (double (mult a b false) ≡ product (pos (a * b)))
unfolding mult
mult-product a b h l = elim (Bool-cases ((a == 0) || (b == 0))) [
  | inl z ↦ rw z (zero_product a b z)
  | inr z ↦ (mult-signed a b h l z, rw z (positive a b h l))
]
