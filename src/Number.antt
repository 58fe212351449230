-- ===== src/Number.antt =====
-- The number conversions of code/userprog/exception.cc: the bodies of SC_PrintInt and SC_ReadInt
-- between the registers and the console. `none` is an access outside the ten bytes of the buffer, or
-- the signed overflow of `n = -n`.
mod Tests
pub mod Print
pub mod RoundTrip
use nachos_system_calls.Prelude.{
  ℕ, zero, suc, ◌+◌, ◌-◌, ◌*◌, ◌/◌, ◌%◌, ◌^◌, Bool, true, false, ◌&&◌, ◌||◌, Option, none, some,
  List, [], ◌∷◌, ◌++◌, take, get_or, set, ℤ, pos, negsuc, ◌>>=◌, ◌==◌, ltb, leb, if◌then◌else◌,
}

-- MAX_INT_LENGTH.
abbrev pub max_int_length : ℕ
max_int_length = 10

-- `do { s[i++] = n % 10 + '0'; } while ((n /= 10) > 0);` with `room` bytes left in `s`.
pub digit_loop : ℕ → ℕ → ℕ → List ℕ → Option (ℕ × List ℕ)
digit_loop zero n i s = none
digit_loop (suc room) n i s =
    let s' = set s i (n % 10 + 48) in
    let rest = digit_loop room (n / 10) (i + 1) s' in
    if ltb 0 (n / 10) then rest else some (i + 1, s')

-- `while (i-- > mid)`: `k` rounds, of which the first has `i` one above the index that it swaps.
pub swap_loop : ℕ → ℕ → ℕ → List ℕ → List ℕ
swap_loop zero sz i s = s
swap_loop (suc k) sz i s =
    let hi = i - 1 in
    let lo = sz - hi - 1 in swap_loop k sz hi (set (set s lo (get_or s hi 0)) hi (get_or s lo 0))

-- `s[sz] = '\n'`, the swaps, and the bytes that are written.
pub reverse_digits : ℕ × List ℕ → Option (List ℕ)
unfolding swap_loop
reverse_digits (sz, s) =
    if ltb sz max_int_length
    then some (take sz (swap_loop (sz - sz / 2) sz sz (set s sz 10)))
    else none

-- The digits of a number that is not negative; `s` is the buffer as it was before.
pub print_digits : List ℕ → ℕ → Option (List ℕ)
unfolding digit_loop reverse_digits
print_digits s n = digit_loop max_int_length n 0 s >>= reverse_digits

-- What SC_PrintInt writes for the int `n`. For the least int `none` is the overflow of `n = -n`;
-- for every other it is a write outside the buffer.
pub print_int : List ℕ → ℤ → Option (List ℕ)
unfolding print_digits
print_int s (pos n) = print_digits s n
print_int s (negsuc n) =
    if ltb n (2 ^ 31 - 1) then (print_digits s (n + 1) >>= λ out. some (45 ∷ out)) else none

-- `while (buffer[i] == ' ' || buffer[i] == '\t') i++;` from byte `i` on, to the index and the rest
-- of the buffer where it stops.
pub skip_blanks : ℕ → List ℕ → Option (ℕ × List ℕ)
skip_blanks i [] = none
skip_blanks i (c ∷ cs) =
    let rest = skip_blanks (i + 1) cs in if (c == 32) || (c == 9) then rest else some (i, c ∷ cs)

-- The loop over the digits, `k` bytes from here on: `none` inside is `not_a_number`.
pub number_loop : ℕ → List ℕ → ℕ → Option (Option ℕ)
number_loop zero cs number = some (some number)
number_loop (suc k) [] number = none
number_loop (suc k) (c ∷ cs) number =
    let rest = number_loop k cs ((number * 10 + c % 16) % 2 ^ 32) in
    if leb 48 c && leb c 57 then rest else some none

-- The value for register 2, a word.
finish : Bool → Option ℕ → ℕ
finish negative none = 0
finish negative (some number) = if negative then (2 ^ 32 - number) % 2 ^ 32 else number

pub parse_from : ℕ → ℕ × List ℕ → Option ℕ
unfolding number_loop finish
parse_from n (i, []) = none
parse_from n (i, c ∷ cs) =
    if c == 45
    then (number_loop (n - (i + 1)) cs 0 >>= λ r. some (finish true r))
    else (number_loop (n - i) (c ∷ cs) 0 >>= λ r. some (finish false r))

-- The body of SC_ReadInt, from what Read returned: the buffer and the count.
pub parse_int : List ℕ → ℤ → Option ℕ
unfolding skip_blanks parse_from
parse_int buffer (pos n) = skip_blanks 0 buffer >>= parse_from n
parse_int buffer (negsuc n) = skip_blanks 0 buffer >>= parse_from 0
