-- ===== src/Terminal/Tests.antt =====
-- Characters through the device, and the witness.
use nachos_system_calls.Prelude.{
  ◌≡◌, refl, true, false, none, some, [], pos, if◌then◌else◌, none, ◌+◌,
}
use nachos_system_calls.Interrupt.{Interrupt, int_on, system_mode}
use nachos_system_calls.Terminal.{eof, is_eof, Terminal, check_char_avail, put_char, get_char}
use nachos_system_calls.Terminal.Transfer.{check_char_avail-get_char}

abbrev clock : Interrupt (Unit {0})
clock = record {
  level = int_on;
  pending = [];
  in_handler = false;
  yield_on_return = false;
  status = system_mode;
  total_ticks = 10;
  idle_ticks = 0;
  system_ticks = 0;
  user_ticks = 0;
  machine = none;
  rest = tt;
}

abbrev idle_device : Terminal
idle_device = record {
  this = 700;
  put_busy = false;
  incoming = eof;
  num_chars_read = 0;
  num_chars_written = 0;
}

-- The letter a arrives, and then b before a is read.
check_char_avail-get_char_example :
    (t₁ : Terminal) × (w₁ v₁ : Interrupt (Unit {0})) × (check_char_avail 1 2
        (some (pos 97))
        idle_device
        clock
      ≡ some (t₁, w₁, true))
    × (check_char_avail 1 2 none t₁ clock ≡ some (t₁, v₁, false))
    × (check_char_avail 1 2 (some (pos 98)) t₁ clock
        ≡ some (
          if is_eof (pos 97)
              then record t₁ { incoming = pos 98; num_chars_read = t₁.num_chars_read + 1 }
              else t₁,
          v₁,
          is_eof (pos 97),
        ))
    × ((get_char t₁).1 ≡ pos 97)
    × (is_eof (get_char t₁).0.incoming ≡ true)
check_char_avail-get_char_example =
    check_char_avail-get_char 1 2 (pos 97) (pos 98) idle_device clock clock refl

-- A second character for the display before the interrupt of the first is refused.
put_char_run : put_char 1 2 (pos 97) (record idle_device { put_busy = true }) clock ≡ none
unfolding put_char
put_char_run = refl
