-- ===== src/Console.antt =====
-- code/threads/synchcons.cc: reading a line from the console and writing to it. The console itself
-- is the list of the characters that will arrive and the list of those that were written. A read
-- that waits for characters that never come is `none`.
use nachos_system_calls.Prelude.{
  ℕ, zero, suc, ◌+◌, ◌||◌, Option, none, some, List, [], ◌∷◌, ◌++◌, take, replicate, ℤ, pos, negsuc,
  ◌==◌, if◌then◌else◌, set,
}

pub record Console : Type 0 where
  pub input : List ℕ
  pub output : List ℕ

-- SynchConsole::Write of the first `n` bytes of a buffer.
unfoldable pub write : Console → List ℕ → ℕ → Console
write c from n = record c { output = c.output ++ take n from }

-- What the loop of Read leaves: the buffer, `loop`, the last character and the rest of the input.
pub record ReadState : Type 0 where
  pub into : List ℕ
  pub count : ℕ
  pub last : ℕ
  pub rest : List ℕ

-- The loop, `n` bytes of the buffer being free. EOF, -1 as a char, is the byte 255 and is skipped;
-- a line feed (10) or control-A (1) ends the line.
pub read_loop : ℕ → List ℕ → ℕ → ℕ → List ℕ → Option ReadState
read_loop zero into count last input =
    some (record { into = into; count = count; last = last; rest = input })
read_loop (suc n) into count last [] = none
read_loop (suc n) into count last (ch ∷ input) =
    let again = read_loop (suc n) into count last input in
    let more = read_loop n (set into count ch) (count + 1) ch input in
    if ch == 255
    then again
    else (if (ch == 10) || (ch == 1)
        then some (record { into = into; count = count; last = ch; rest = input })
        else more)

-- Read of at most `n` bytes: the buffer, zeroed first, the console, and the result. `ch` has no
-- value before the first character: `garbage`.
unfoldable pub read : ℕ → Console → ℕ → Option (List ℕ × Console × ℤ)
unfolding read_loop
read garbage c n = elim (read_loop n (replicate n 0) 0 garbage c.input) [
  | none ↦ none
  | some s ↦
      some (s.into, record c { input = s.rest }, (if s.last == 1 then negsuc 0 else pos s.count))
]
