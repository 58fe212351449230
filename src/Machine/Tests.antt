-- ===== src/Machine/Tests.antt =====
-- Runs of code/machine/translate.cc, and the witnesses.
use mathlib.Core.Option.{some-injective}
use nachos_system_calls.Prelude.{
  ℕ, ◌≡◌, ◌≢◌, refl, true, false, none, some, List, [], ◌∷◌, get_elem?, ℤ, pos, arith, inl, inr,
  replicate, ap, zero, suc,
}
use nachos_system_calls.Machine.{
  TranslationEntry, to_unsigned, Machine, value, update, Translated, translate, write_mem,
}
use nachos_system_calls.Machine.Translate.{paged, Translates, translate-Translates}
use nachos_system_calls.Machine.Memory.{write_mem-confined}

-- A process of two pages, in the frames 3 and 5.
abbrev entry : ℤ → ℤ → TranslationEntry
entry v f = record {
  virtual_page = v;
  physical_page = f;
  valid = true;
  read_only = false;
  use_bit = false;
  dirty = false;
}

abbrev entries : List TranslationEntry
entries = entry (pos 0) (pos 3) ∷ entry (pos 1) (pos 5) ∷ []

abbrev two_pages : Machine
two_pages = record {
  registers = replicate 40 0;
  main_memory = λ b. 0;
  tlb = none;
  page_table = some entries;
  page_table_size = 2;
}

abbrev after_write : Machine
after_write = record two_pages {
  main_memory = update (update two_pages.main_memory 642 1) 643 2;
  page_table = some (
      entry (pos 0) (pos 3) ∷ record (entry (pos 1) (pos 5)) { use_bit = true; dirty = true } ∷ []);
}

write_run : write_mem two_pages 130 2 513 ≡ some (after_write, value 513)
unfolding write_mem translate
write_run = refl

frame_4 :
    (i : ℕ) (e : TranslationEntry) → get_elem? entries i ≡ some e → to_unsigned e.physical_page ≢ 4
frame_4 zero e h q =
    absurd (omega (arith, ap (λ x. to_unsigned x.physical_page) (some-injective _ _ h), q))
frame_4 (suc zero) e h q =
    absurd (omega (arith, ap (λ x. to_unsigned x.physical_page) (some-injective _ _ h), q))
frame_4 (suc (suc i)) e h q = absurd (ground arith)

write_mem-confined_example : after_write.main_memory 513 ≡ two_pages.main_memory 513
write_mem-confined_example =
    write_mem-confined two_pages after_write entries 130 2 513 4 (value 513) refl refl refl
      (inr (inl refl)) frame_4 write_run 513 refl

translate-Translates_example :
    (m' : Machine) × (r : Translated) × (translate two_pages 130 2 true ≡ some (m', r))
    × Translates two_pages 130 2 true m' r
translate-Translates_example =
    translate-Translates two_pages 130 2 true (paged entries refl refl refl) (inr (inl refl))
