-- ===== src/Terminal.antt =====
-- code/machine/console.cc: the console device. What the host's file hands over is an argument; a
-- character is an int as the source converts it, and EOF is -1.
pub mod Transfer
mod Tests
use nachos_system_calls.Prelude.{
  ℕ, ◌+◌, Bool, true, false, not, Option, none, some, ℤ, pos, negsuc, ◌>>=◌, ◌>>◌, assert_that,
}
use nachos_system_calls.Interrupt.{Interrupt, console_read_int, console_write_int, schedule}

-- ConsoleTime.
abbrev pub console_time : ℕ
console_time = 100

-- EOF.
abbrev pub eof : ℤ
eof = negsuc 0

abbrev pub is_eof : ℤ → Bool
is_eof (negsuc ℕ.zero) = true
is_eof (negsuc (ℕ.suc n)) = false
is_eof (pos n) = false

-- class Console, with its counters of class Statistics; `this` is the address of the object.
pub record Terminal : Type 0 where
  pub this : ℕ
  pub put_busy : Bool
  pub incoming : ℤ
  pub num_chars_read : ℕ
  pub num_chars_written : ℕ

module _ {S : Type 0} (read_poll write_done : ℕ) where
  -- The constructor, from the opened files on.
  unfoldable pub new_terminal : ℕ → Interrupt S → Option (Terminal × Interrupt S)
  new_terminal this w = schedule read_poll this console_time console_read_int w >>= λ w'. some (
    record {
      this = this;
      put_busy = false;
      incoming = eof;
      num_chars_read = 0;
      num_chars_written = 0;
    },
    w',
  )

  -- CheckCharAvail: the last result is whether the handler of the reader is called at the end.
  unfoldable pub check_char_avail :
      Option ℤ → Terminal → Interrupt S → Option (Terminal × Interrupt S × Bool)
  check_char_avail arrived t w = schedule read_poll t.this console_time console_read_int w >>= λ w'.
      elim (is_eof t.incoming) [
        | false ↦ some (t, w', false)
        | true ↦ elim arrived [
          | none ↦ some (t, w', false)
          | some c ↦
              some (record t { incoming = c; num_chars_read = t.num_chars_read + 1 }, w', true)
        ]
      ]

  -- PutChar: the last result is the character for the file.
  unfoldable pub put_char : ℤ → Terminal → Interrupt S → Option (Terminal × Interrupt S × ℤ)
  put_char c t w =
      assert_that (not t.put_busy)
      >> (schedule write_done t.this console_time console_write_int w >>= λ w'.
          some (record t { put_busy = true }, w', c))

-- WriteDone, up to the call of the handler of the writer.
abbrev pub char_done : Terminal → Terminal
char_done t = record t { put_busy = false; num_chars_written = t.num_chars_written + 1 }

-- GetChar.
abbrev pub get_char : Terminal → Terminal × ℤ
get_char t = (record t { incoming = eof }, t.incoming)
