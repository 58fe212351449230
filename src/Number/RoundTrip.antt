-- ===== src/Number/RoundTrip.antt =====
-- SC_ReadInt reads what SC_PrintInt writes, and the numbers whose digits fill the whole buffer.
use native.Mathlib.Nat.{pow-suc}
use nachos_system_calls.Prelude.{
  ℕ, zero, suc, ◌+◌, ◌-◌, ◌*◌, ◌/◌, ◌%◌, ◌^◌, ◌≤◌, ◌<◌, ◌≡◌, refl, true, false, none, some, List,
  [], ◌∷◌, ◌++◌, length, drop, arith, ltb, leb, ◌==◌, ap, ◌∙◌, sym, ℤ, pos, negsuc, ◌>>=◌,
}
use nachos_system_calls.Number.{
  max_int_length, reverse_digits, print_digits, print_int, skip_blanks, number_loop, finish,
  parse_from, parse_int,
}
use nachos_system_calls.Number.Print.{
  le_digits, rev_onto, number_of, AreDigits, length-le_digits, length-le_digits_lt,
  le_digits-AreDigits, number_of-le_digits, digit_loop_lem, reverse_digits_lem,
}

length-drop : (k : ℕ) (xs : List ℕ) → k ≤ length xs → k + length (drop k xs) ≡ length xs
length-drop zero xs h = omega arith
length-drop (suc k) [] h = absurd (omega arith)
length-drop (suc k) (x ∷ xs) h = omega (arith, length-drop k xs (omega arith))

positive-le_digits : (f n : ℕ) → 1 ≤ length (le_digits (suc f) n)
positive-le_digits f n = omega arith

le_pow : (f : ℕ) → 1 ≤ 10 ^ f
le_pow zero = omega arith
le_pow (suc f) = omega (arith, pow-suc 10 f, le_pow f)

long-le_digits : (f n : ℕ) → 10 ^ f ≤ n → suc f ≤ length (le_digits (suc f) n)
long-le_digits zero n h = omega arith
long-le_digits (suc f) n h =
    ground (arith, long-le_digits f (n / 10) (omega (arith, pow-suc 10 f)), pow-suc 10 f, le_pow f)

add_zero : (m : ℕ) → 0 + m ≡ m
add_zero m = omega arith

print_digits_lem :
    (s : List ℕ) (n : ℕ)
    → length s ≡ max_int_length
    → n < 10 ^ 9
    → print_digits s n ≡ some (rev_onto (le_digits 10 n) [])
unfolding print_digits
print_digits_lem s n e h =
    let ds = le_digits 10 n in
    rw (digit_loop_lem 10 n 0 [] s (omega arith) refl (sym e) (omega arith)) (
      from_zero (length ds) (ds ++ drop (length ds) s)
      ∙ reverse_digits_lem ds (drop (length ds) s) (positive-le_digits 9 n)
          (length-le_digits_lt 10 9 n (omega arith) h)
          (length-drop (length ds) s (omega (arith, length-le_digits 10 n, e)) ∙ e))
  where
    from_zero : (k : ℕ) (xs : List ℕ) → reverse_digits (0 + k, xs) ≡ reverse_digits (k, xs)
    from_zero k xs = rw (add_zero k) refl

print_digits_overrun :
    (s : List ℕ) (n : ℕ)
    → length s ≡ max_int_length
    → 10 ^ 9 ≤ n
    → n < 10 ^ 10
    → print_digits s n ≡ none
unfolding print_digits reverse_digits
print_digits_overrun s n e p h =
    rw (digit_loop_lem 10 n 0 [] s (omega arith) refl (sym e) h)
      (full (le_digits 10 n) (omega (arith, long-le_digits 9 n p)))
  where
    full :
        (ds : List ℕ)
        → 10 ≤ length ds
        → reverse_digits (0 + length ds, ds ++ drop (length ds) s) ≡ none
    full ds q = ground arith

AreDigits-rev_onto :
    (ds tail : List ℕ) → AreDigits ds → AreDigits tail → AreDigits (rev_onto ds tail)
AreDigits-rev_onto [] tail h t = t
AreDigits-rev_onto (d ∷ ds) tail (p, q, r) t = AreDigits-rev_onto ds (d ∷ tail) r (p, q, t)

rev_onto-append : (ds xs ys : List ℕ) → rev_onto ds xs ++ ys ≡ rev_onto ds (xs ++ ys)
rev_onto-append [] xs ys = refl
rev_onto-append (d ∷ ds) xs ys = rev_onto-append ds (d ∷ xs) ys

length-rev_onto : (ds xs : List ℕ) → length (rev_onto ds xs) ≡ length ds + length xs
length-rev_onto [] xs = omega arith
length-rev_onto (d ∷ ds) xs = omega (arith, length-rev_onto ds (d ∷ xs))

sub_zero : (m : ℕ) → m - 0 ≡ m
sub_zero m = omega arith

pred_suc : (m : ℕ) → suc m - (0 + 1) ≡ m
pred_suc m = omega arith

add_suc : (k m : ℕ) → suc k + m ≡ k + suc m
add_suc k m = omega arith

digit_read :
    (d : ℕ) (tail : List ℕ) (m v : ℕ)
    → 48 ≤ d
    → d ≤ 57
    → (d - 48) + 10 * v < 2 ^ 32
    → number_loop (suc m) (d ∷ tail) v ≡ number_loop m tail ((d - 48) + 10 * v)
unfolding number_loop
digit_read d tail m v p q b =
    let a : leb 48 d ≡ true = ground arith in
    let c : leb d 57 ≡ true = ground arith in
    let e : (v * 10 + d % 16) % 2 ^ 32 ≡ (d - 48) + 10 * v = omega arith in rw (a, c, e) refl

-- The loop reads the digits back.
number_loop-rev_onto :
    (ds tail : List ℕ) (m : ℕ)
    → AreDigits ds
    → number_of ds < 2 ^ 32
    → number_loop (length ds + m) (rev_onto ds tail) 0 ≡ number_loop m tail (number_of ds)
unfolding number_loop
number_loop-rev_onto [] tail m h b = rw (add_zero m) refl
number_loop-rev_onto (d ∷ ds) tail m (p, q, r) b =
    rw (add_suc (length ds) m, number_loop-rev_onto ds (d ∷ tail) (suc m) r (omega arith))
      (digit_read d tail m (number_of ds) p q b)

-- The first character of a number, a digit, is neither a blank nor a sign.
parse_digits :
    (xs : List ℕ) (n : ℕ)
    → 1 ≤ length xs
    → AreDigits xs
    → (tail : List ℕ)
    → parse_int (xs ++ tail) (pos n) ≡ (number_loop n (xs ++ tail) 0 >>= λ r. some (finish false r))
unfolding parse_int skip_blanks parse_from
parse_digits [] n p h tail = absurd (omega arith)
parse_digits (x ∷ xs) n p (q, r, t) tail =
    let a : (x == 32) ≡ false = ground arith in
    let b : (x == 9) ≡ false = ground arith in
    let c : (x == 45) ≡ false = ground arith in rw (a, b, c, sub_zero n) refl

-- The word that a register holds for an int.
abbrev pub word : ℤ → ℕ
word (pos n) = n
word (negsuc n) = 2 ^ 32 - 1 - n

abbrev pub magnitude : ℤ → ℕ
magnitude (pos n) = n
magnitude (negsuc n) = n + 1

-- Digits, in front of anything else, read as their number.
read_digits :
    (ds tail : List ℕ) (n : ℕ)
    → AreDigits ds
    → number_of ds ≡ n
    → n < 10 ^ 9
    → number_loop (length (rev_onto ds [])) (rev_onto ds [] ++ tail) 0 ≡ some (some n)
unfolding number_loop
read_digits ds tail n a e h =
    rw
      (
        rev_onto-append ds [] tail,
        length-rev_onto ds [],
        number_loop-rev_onto ds tail 0 a (omega arith),
        e,
      )
      refl

read_positive :
    (ds tail : List ℕ) (n : ℕ)
    → 1 ≤ length ds
    → AreDigits ds
    → number_of ds ≡ n
    → n < 10 ^ 9
    → parse_int (rev_onto ds [] ++ tail) (pos (length (rev_onto ds []))) ≡ some n
unfolding finish
read_positive ds tail n l a e h =
    let xs = rev_onto ds [] in
    rw
      (
        parse_digits xs (length xs) (omega (arith, length-rev_onto ds []))
            (AreDigits-rev_onto ds [] a tt) tail,
        read_digits ds tail n a e h,
      )
      refl

read_negative :
    (ds tail : List ℕ) (n : ℕ)
    → AreDigits ds
    → number_of ds ≡ n + 1
    → n + 1 < 10 ^ 9
    → parse_int ((45 ∷ rev_onto ds []) ++ tail) (pos (length (45 ∷ rev_onto ds [])))
      ≡ some (2 ^ 32 - 1 - n)
unfolding parse_int skip_blanks parse_from finish
read_negative ds tail n a e h =
    rw (pred_suc (length (rev_onto ds [])), read_digits ds tail (n + 1) a e h)
      (ap (λ r. some r) (omega arith))

-- For an int of at most nine digits PrintInt writes characters from which ReadInt gets it back,
-- whatever stands behind them in its buffer.
pub print_int-parse_int :
    (s : List ℕ) (z : ℤ) (tail : List ℕ)
    → length s ≡ max_int_length
    → magnitude z < 10 ^ 9
    → (out : List ℕ) × (print_int s z ≡ some out)
      × (parse_int (out ++ tail) (pos (length out)) ≡ some (word z))
unfolding print_int
print_int-parse_int s (pos n) tail e h =
    let ds = le_digits 10 n in
    (
      rev_onto ds [],
      print_digits_lem s n e h,
      read_positive ds tail n (positive-le_digits 9 n) (le_digits-AreDigits 10 n)
          (number_of-le_digits 10 n (omega arith)) h,
    )
print_int-parse_int s (negsuc n) tail e h =
    let ds = le_digits 10 (n + 1) in
    let small : ltb n (2 ^ 31 - 1) ≡ true = ground arith in
    (
      45 ∷ rev_onto ds [],
      rw (small, print_digits_lem s (n + 1) e h),
      read_negative ds tail n (le_digits-AreDigits 10 (n + 1))
          (number_of-le_digits 10 (n + 1) (omega arith)) h,
    )

-- An int of ten digits, but the least, whose opposite is not an int, overruns the buffer, whatever
-- its sign.
pub print_int_overrun :
    (s : List ℕ) (z : ℤ)
    → length s ≡ max_int_length
    → 10 ^ 9 ≤ magnitude z
    → magnitude z < 2 ^ 31
    → print_int s z ≡ none
unfolding print_int
print_int_overrun s (pos n) e p h = print_digits_overrun s n e p (omega arith)
print_int_overrun s (negsuc n) e p h =
    let small : ltb n (2 ^ 31 - 1) ≡ true = ground arith in
    rw (small, print_digits_overrun s (n + 1) e p (omega arith)) refl
