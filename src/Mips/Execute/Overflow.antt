-- ===== src/Mips/Execute/Overflow.antt =====
-- The tests for overflow of ADD, ADDI and SUB.
use nachos_system_calls.Prelude.{
  ℕ, ◌^◌, ◌<◌, ◌≡◌, refl, Bool, not, ◌&&◌, Option, some, leb, if◌then◌else◌, arith, Bool-cases, inl,
  inr, ◌∙◌, ℤ, ◌+ℤ◌, neg, fits,
}
use nachos_system_calls.Bitmap.Words.{xor}
use nachos_system_calls.Machine.{Machine, signed, to_unsigned, overflow_exception}
use nachos_system_calls.Mips.{Instruction, op_add, op_addi, op_sub}
use nachos_system_calls.Mips.Words.{add, sub, signs_differ}
use nachos_system_calls.Mips.Words.Signs.{signs_differ_lem}
use nachos_system_calls.Mips.Cases.{reg, put, Switched, raises, ends, checked}
use nachos_system_calls.Mips.Execute.{switch_op}

-- The result of an operation on ints, or the exception.
abbrev pub int_result : Machine → ℕ → ℤ → ℕ → Option Switched
int_result m i z pc =
    if fits z then ends (put m i (to_unsigned z)) pc else some (raises overflow_exception 0 m)

add_test :
    (a b : ℕ)
    → a < 2 ^ 32
    → b < 2 ^ 32
    → not (xor (leb (2 ^ 31) a) (leb (2 ^ 31) b)) && xor (leb (2 ^ 31) a) (leb (2 ^ 31) (add a b))
      ≡ not (fits (signed a +ℤ signed b))
add_test a b h l = ground arith

addi_test :
    (a b : ℕ)
    → a < 2 ^ 32
    → b < 2 ^ 32
    → not (xor (leb (2 ^ 31) a) (leb (2 ^ 31) b)) && xor (leb (2 ^ 31) b) (leb (2 ^ 31) (add a b))
      ≡ not (fits (signed a +ℤ signed b))
addi_test a b h l = ground arith

add_word : (a b : ℕ) → a < 2 ^ 32 → b < 2 ^ 32 → add a b ≡ to_unsigned (signed a +ℤ signed b)
add_word a b h l = ground arith

sub_test :
    (a b : ℕ)
    → a < 2 ^ 32
    → b < 2 ^ 32
    → xor (leb (2 ^ 31) a) (leb (2 ^ 31) b) && xor (leb (2 ^ 31) a) (leb (2 ^ 31) (sub a b))
      ≡ not (fits (signed a +ℤ neg (signed b)))
sub_test a b h l = ground arith

sub_word : (a b : ℕ) → a < 2 ^ 32 → b < 2 ^ 32 → sub a b ≡ to_unsigned (signed a +ℤ neg (signed b))
sub_word a b h l = ground arith

checked_lem :
    (overflow : Bool) (m : Machine) (i v : ℕ) (z : ℤ) (pc : ℕ)
    → overflow ≡ not (fits z)
    → v ≡ to_unsigned z
    → checked overflow m i v pc ≡ int_result m i z pc
unfolding checked
checked_lem overflow m i v z pc e f = elim (Bool-cases (fits z)) [
  | inl t ↦ rw (e, f, t) refl
  | inr t ↦ rw (e, t) refl
]

test_lem :
    (a b c : ℕ)
    → a < 2 ^ 32
    → b < 2 ^ 32
    → c < 2 ^ 32
    → not (signs_differ a b) && signs_differ a c
      ≡ not (xor (leb (2 ^ 31) a) (leb (2 ^ 31) b)) && xor (leb (2 ^ 31) a) (leb (2 ^ 31) c)
test_lem a b c h l p = rw (signs_differ_lem a b h l, signs_differ_lem a c h p) refl

-- ADD, ADDI and SUB on registers that hold words: each gives the sum or the difference of the ints
-- if that is an int of 32 bits, and otherwise raises the overflow exception and writes no register.
pub overflow_lem :
    (i : Instruction) (m : Machine) (pc : ℕ)
    → reg m i.rs < 2 ^ 32
    → reg m i.rt < 2 ^ 32
    → i.extra < 2 ^ 32
    → (switch_op op_add i m pc ≡ int_result m i.rd (signed (reg m i.rs) +ℤ signed (reg m i.rt)) pc)
      × (switch_op op_addi i m pc ≡ int_result m i.rt (signed (reg m i.rs) +ℤ signed i.extra) pc)
      × (switch_op op_sub i m pc
          ≡ int_result m i.rd (signed (reg m i.rs) +ℤ neg (signed (reg m i.rt))) pc)
unfolding switch_op
overflow_lem i m pc h l p = (
  add_case (reg m i.rs) (reg m i.rt) i.rd h l,
  addi_case (reg m i.rs) i.extra h p,
  sub_case (reg m i.rs) (reg m i.rt) h l,
)
  where
    add_case :
        (a b j : ℕ)
        → a < 2 ^ 32
        → b < 2 ^ 32
        → checked (not (signs_differ a b) && signs_differ a (add a b)) m j (add a b) pc
          ≡ int_result m j (signed a +ℤ signed b) pc
    add_case a b j h l =
        checked_lem _ m j (add a b) (signed a +ℤ signed b) pc
          (test_lem a b (add a b) h l (omega arith) ∙ add_test a b h l) (add_word a b h l)

    addi_case :
        (a b : ℕ)
        → a < 2 ^ 32
        → b < 2 ^ 32
        → checked (not (signs_differ a b) && signs_differ b (add a b)) m i.rt (add a b) pc
          ≡ int_result m i.rt (signed a +ℤ signed b) pc
    addi_case a b h l =
        checked_lem _ m i.rt (add a b) (signed a +ℤ signed b) pc
          (rw (signs_differ_lem a b h l, signs_differ_lem b (add a b) l (omega arith))
            (addi_test a b h l))
          (add_word a b h l)

    sub_case :
        (a b : ℕ)
        → a < 2 ^ 32
        → b < 2 ^ 32
        → checked (signs_differ a b && signs_differ a (sub a b)) m i.rd (sub a b) pc
          ≡ int_result m i.rd (signed a +ℤ neg (signed b)) pc
    sub_case a b h l =
        checked_lem _ m i.rd (sub a b) (signed a +ℤ neg (signed b)) pc
          (rw (signs_differ_lem a b h l, signs_differ_lem a (sub a b) h (omega arith))
            (sub_test a b h l))
          (sub_word a b h l)
