-- ===== src/Mips/Mult.antt =====
-- code/machine/mipssim.cc: Mult, by shifting and adding.
pub mod Product
use Prim.Native.Nat.{bit_and, bit_or}
use nachos_system_calls.Prelude.{
  ℕ, zero, suc, ◌+◌, ◌-◌, ◌*◌, ◌%◌, ◌^◌, Bool, true, false, not, ◌&&◌, ◌||◌, ◌==◌, ltb, leb,
  if◌then◌else◌,
}
use nachos_system_calls.Mips.Words.{add, complement, negate, shift_left, shift_right}

-- A double word is (hi, lo). `lo += bLo`, the carry, and `hi += bHi`.
unfoldable pub add_double : ℕ × ℕ → ℕ × ℕ → ℕ × ℕ
add_double (hi, lo) (b_hi, b_lo) =
    let lo' = add lo b_lo in (add (if ltb lo' b_lo then add hi 1 else hi) b_hi, lo')

-- The shift of (bHi, bLo) to the left.
unfoldable pub shift_double : ℕ × ℕ → ℕ × ℕ
shift_double (b_hi, b_lo) =
    let top = shift_left b_hi 1 in
    (if bit_and b_lo 0x80000000 == 0 then top else bit_or top 1, shift_left b_lo 1)

-- The loop over the bits of `a`, `k` rounds from here on; `b` is shifted and `r` is the sum so far.
unfoldable pub mult_loop : ℕ → ℕ → ℕ × ℕ → ℕ × ℕ → ℕ × ℕ
mult_loop zero a b r = r
mult_loop (suc k) a b r =
    let even = bit_and a 1 == 0 in
    let r' = if even then r else add_double r b in
    let rest = mult_loop k (shift_right a 1) (shift_double b) r' in
    if not even && (bit_and a 0xfffffffe == 0) then r' else rest

-- The complement of the double word.
unfoldable pub negate_double : ℕ × ℕ → ℕ × ℕ
negate_double (hi, lo) =
    let hi' = complement hi in
    let lo' = add (complement lo) 1 in (if lo' == 0 then add hi' 1 else hi', lo')

-- The result, (hi, lo).
unfoldable pub mult : ℕ → ℕ → Bool → ℕ × ℕ
mult a b signed_arith =
    let a_negative = signed_arith && leb (2 ^ 31) a in
    let b_negative = signed_arith && leb (2 ^ 31) b in
    let a' = if a_negative then negate a else a in
    let b' = if b_negative then negate b else b in
    let product = mult_loop 32 a' (0, b') (0, 0) in
    if (a == 0) || (b == 0)
    then (0, 0)
    else (if (if a_negative then not b_negative else b_negative)
        then negate_double product
        else product)
