-- ===== src/Terminal/Transfer.antt =====
-- Characters through the console device of code/machine/console.cc.
use nachos_system_calls.Prelude.{
  ℕ, ◌+◌, ◌≡◌, refl, true, false, none, some, ℤ, Bool-cases, inl, inr, if◌then◌else◌,
}
use nachos_system_calls.Interrupt.{Interrupt, IntType, console_read_int, schedule}
use nachos_system_calls.Terminal.{is_eof, Terminal, check_char_avail, get_char}

module _ {S : Type 0} (read_poll write_done : ℕ) where
  scheduled :
      (handler arg : ℕ) (type : IntType) (w : Interrupt S)
      → (w' : Interrupt S) × (schedule handler arg 100 type w ≡ some w')
  unfolding schedule
  scheduled handler arg type w = (_, refl)

  -- A character that arrives while the device holds none is taken at the next poll, and the reader
  -- is told. Until it is read each further poll leaves it there, whatever arrives, and tells
  -- nobody; but if it is the character 255, which is EOF, a poll at which another one arrives puts
  -- that one in its place and tells the reader again. GetChar returns the character, and the device
  -- is free again.
  pub check_char_avail-get_char :
      (c d : ℤ) (t : Terminal) (w v : Interrupt S)
      → is_eof t.incoming ≡ true
      → (t₁ : Terminal) × (w₁ v₁ : Interrupt S) × (check_char_avail read_poll write_done
            (some c)
            t
            w
          ≡ some (t₁, w₁, true))
        × (check_char_avail read_poll write_done none t₁ v ≡ some (t₁, v₁, false))
        × (check_char_avail read_poll write_done (some d) t₁ v
            ≡ some (
              if is_eof c
                  then record t₁ { incoming = d; num_chars_read = t₁.num_chars_read + 1 }
                  else t₁,
              v₁,
              is_eof c,
            ))
        × ((get_char t₁).1 ≡ c)
        × (is_eof (get_char t₁).0.incoming ≡ true)
  unfolding check_char_avail
  check_char_avail-get_char c d t w v free =
      let (w₁, e) = scheduled read_poll t.this console_read_int w in
      let (v₁, f) = scheduled read_poll t.this console_read_int v in
      let t₁ : Terminal = record t { incoming = c; num_chars_read = t.num_chars_read + 1 } in
      elim (Bool-cases (is_eof c)) [
        | inl x ↦ (t₁, w₁, v₁, rw (e, free) refl, rw (f, x) refl, rw (f, x) refl, refl, refl)
        | inr x ↦ (t₁, w₁, v₁, rw (e, free) refl, rw (f, x) refl, rw (f, x) refl, refl, refl)
      ]
