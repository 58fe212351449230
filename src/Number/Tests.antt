-- ===== src/Number/Tests.antt =====
-- Runs of the number conversions of code/userprog/exception.cc, and the witnesses.
use nachos_system_calls.Prelude.{
  ◌≡◌, refl, List, [], ◌∷◌, ◌++◌, length, none, some, pos, negsuc, replicate, arith, ℕ, ◌^◌, ◌-◌,
}
use nachos_system_calls.Number.{print_int, parse_int}
use nachos_system_calls.Number.RoundTrip.{print_int-parse_int, print_int_overrun, word}

abbrev blank_buffer : List ℕ
blank_buffer = replicate 10 0

print_int_run : print_int blank_buffer (negsuc 41) ≡ some (45 ∷ 52 ∷ 50 ∷ [])
unfolding print_int
print_int_run = refl

parse_int_run : parse_int (32 ∷ 45 ∷ 52 ∷ 50 ∷ []) (pos 4) ≡ some (2 ^ 32 - 42)
unfolding parse_int
parse_int_run = refl

print_int-parse_int_example :
    (out : List ℕ) × (print_int blank_buffer (negsuc 41) ≡ some out)
    × (parse_int (out ++ (0 ∷ [])) (pos (length out)) ≡ some (word (negsuc 41)))
print_int-parse_int_example =
    print_int-parse_int blank_buffer (negsuc 41) (0 ∷ []) refl (omega arith)

print_int_overrun_example : print_int blank_buffer (pos 1234567890) ≡ none
print_int_overrun_example =
    print_int_overrun blank_buffer (pos 1234567890) refl (omega arith) (omega arith)
