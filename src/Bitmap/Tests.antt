-- ===== src/Bitmap/Tests.antt =====
-- The bitmap at concrete inputs.
use nachos_system_calls.Prelude.{ℕ, ◌≡◌, ◌≤◌, refl, some, [], ◌∷◌, pos, arith}
use nachos_system_calls.Bitmap.{BitMap, mark, clear, test, find, num_clear}
use nachos_system_calls.Bitmap.View.{IsValid}

-- Bits 0, 1, 2 and 32 of forty are set.
abbrev sample : BitMap
sample = record { num_bits = 40; num_words = 2; map = 7 ∷ 1 ∷ [] }

sample-IsValid : IsValid sample
sample-IsValid = record { words = refl; storage = refl; small = omega arith }

find-sample : find sample ≡ some (record sample { map = 15 ∷ 1 ∷ [] }, pos 3)
unfolding find test mark
find-sample = refl

clear-sample : clear sample (pos 32) ≡ some (record sample { map = 7 ∷ 0 ∷ [] })
unfolding clear
clear-sample = refl

num_clear-sample : num_clear sample ≡ some 36
unfolding num_clear test
num_clear-sample = refl

beyond : (n : ℕ) → pos 40 ≡ pos n → 40 ≤ n
beyond n e = ground arith
