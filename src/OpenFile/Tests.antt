-- ===== src/OpenFile/Tests.antt =====
-- A file of 200 bytes in the sectors 7 and 5, and the witnesses.
use nachos_system_calls.Prelude.{
  ℕ, zero, suc, ◌+◌, ◌<◌, ◌≡◌, refl, some, ◌∷◌, replicate, pos, arith, ltb, leb, ◌&&◌, ◌-◌, ◌==◌,
  if◌then◌else◌,
}
use nachos_system_calls.FileHeader.{FileHeader, byte_to_sector}
use nachos_system_calls.OpenFile.{Buffer, read_at, write_at}
use nachos_system_calls.OpenFile.Overwrite.{write_at-content}
use nachos_system_calls.OpenFile.ReadAt.{HasSectors, content, read_at-content}

abbrev header : FileHeader
header = record {
  num_bytes = 200;
  num_sectors = 2;
  data_sectors = pos 7 ∷ pos 5 ∷ replicate 28 (pos 0);
}

abbrev sectors : ℕ → ℕ
sectors i = if i == 0 then 7 else 5

abbrev disk : Buffer
disk at = at

abbrev empty : Buffer
empty j = 0

header-HasSectors : HasSectors header sectors 2
unfolding HasSectors byte_to_sector
header-HasSectors zero h = (refl, ground arith)
header-HasSectors (suc zero) h = (refl, ground arith)
header-HasSectors (suc (suc i)) h = absurd (omega (arith, h))

-- From the position 120 there are 80 bytes.
read_at-content_example :
    (into : Buffer) × (read_at header disk empty empty 100 120 ≡ some (80, into))
    × ((j : ℕ) → into j ≡ (if ltb j 80 then content disk sectors (120 + j) else 0))
read_at-content_example = read_at-content header disk empty empty sectors 100 120 header-HasSectors

distinct : (i j : ℕ) → i < 2 → j < 2 → sectors i ≡ sectors j → i ≡ j
distinct i j h k e = ground (arith, h, k, e)

write_at-content_example :
    (file : Buffer) × (write_at header disk empty (λ j. 1000 + j) 100 120 ≡ some (80, file))
    × ((p : ℕ)
        → p < 200
        → content file sectors p
          ≡ (if leb 120 p && ltb p 200 then 1000 + (p - 120) else content disk sectors p))
write_at-content_example =
    write_at-content header disk empty (λ j. 1000 + j) sectors 100 120 header-HasSectors distinct
