-- ===== src/OpenFile/Frame.antt =====
-- What WriteAt of code/filesys/openfile.cc leaves alone: the bytes outside the sectors that it
-- writes.
use nachos_system_calls.Prelude.{
  ℕ, zero, suc, ◌+◌, ◌-◌, ◌*◌, ◌/◌, ◌<◌, ◌≤◌, ◌≡◌, ◌⊎◌, refl, sym, ap, ◌∙◌, Bool, true, false, not,
  ◌&&◌, ◌||◌, Option, some, none, ◌>>=◌, >>=-eq-some, ◌==◌, ltb, leb, if◌then◌else◌, arith,
}
use nachos_system_calls.Disk.{sector_start}
use nachos_system_calls.FileHeader.{FileHeader, file_length}
use nachos_system_calls.OpenFile.{Buffer, sector_of, copy, write_sectors, keep_sector, write_at}

-- The byte at an offset of the disk is not in this sector.
abbrev pub Outside : ℕ → ℕ → Type 0
Outside s at = (at < sector_start s) ⊎ (sector_start s + 128 ≤ at)

pub copy-Outside :
    (disk buf : Buffer) (s from at : ℕ)
    → Outside s at
    → copy disk (sector_start s) 128 buf from at ≡ disk at
copy-Outside disk buf s from at o =
    outside (buf (from + (at - sector_start s))) (disk at) (sector_start s) o
  where
    outside :
        (x y b : ℕ)
        → (at < b) ⊎ (b + 128 ≤ at)
        → (if leb b at && ltb at (b + 128) then x else y) ≡ y
    outside x y b o = ground (arith, o)

-- The bytes in the sector that was written.
pub copy-sector_start :
    (disk buf : Buffer) (s j : ℕ)
    → j < 128
    → copy disk (sector_start s) 128 buf 0 (sector_start s + j) ≡ buf j
copy-sector_start disk buf s j q =
    inside (buf (0 + (sector_start s + j - sector_start s))) (disk (sector_start s + j))
      (sector_start s)
    ∙ ap buf (omega arith)
  where
    inside : (x y b : ℕ) → (if leb b (b + j) && ltb (b + j) (b + 128) then x else y) ≡ x
    inside x y b = ground (arith, q)

abbrev got : Buffer → Option (ℕ × Buffer) → Buffer
got disk none = disk
got disk (some (n, d)) = d

module _ (h : FileHeader) (at : ℕ) where
  write_sectors-Outside :
      (k i first : ℕ) (buf disk disk' : Buffer)
      → ((m s : ℕ) → i ≤ m → m < i + k → sector_of h (m * 128) ≡ some s → Outside s at)
      → write_sectors k i first h buf disk ≡ some disk'
      → disk' at ≡ disk at
  unfolding write_sectors
  write_sectors-Outside zero i first buf disk disk' o e = ap (λ x. got x at) (sym e)
    where
      got : Option Buffer → Buffer
      got none = disk
      got (some d) = d
  write_sectors-Outside (suc k) i first buf disk disk' o e =
      let (s, a, b) = >>=-eq-some (sector_of h (i * 128)) _ e in
      write_sectors-Outside k (i + 1) first buf _ disk'
        (λ m t p q c. o m t (omega arith) (omega (arith, q)) c) b
      ∙ copy-Outside disk buf s ((i - first) * 128) at (o i s (omega arith) (omega arith) a)

  -- WriteAt after its test: two reads, whatever they yield, and the loop.
  guarded-Outside :
      (done : Bool) (o₁ : Option Buffer) (f₂ : Buffer → Option Buffer) (filled : Buffer → Buffer)
      (disk disk' : Buffer) (k first n n' : ℕ)
      → (done ≡ false
          → (m s : ℕ) → first ≤ m
          → m < first + k
          → sector_of h (m * 128) ≡ some s
          → Outside s at)
      → if◌then◌else◌ {A = Option (ℕ × Buffer)} done (some (0, disk)) (
          o₁ >>= λ buf₁. f₂ buf₁ >>= λ buf₂.
          write_sectors k first first h (filled buf₂) disk >>= λ file. some (n', file))
        ≡ some (n, disk')
      → disk' at ≡ disk at
  guarded-Outside true o₁ f₂ filled disk disk' k first n n' o e = ap (λ x. got disk x at) (sym e)
  guarded-Outside false o₁ f₂ filled disk disk' k first n n' o e =
      let (buf₁, a, e₂) = >>=-eq-some o₁ _ e in
      let (buf₂, b, e₃) = >>=-eq-some (f₂ buf₁) _ e₂ in
      let (d, c, e₄) = >>=-eq-some (write_sectors k first first h (filled buf₂) disk) _ e₃ in
      ap (λ x. got disk x at) (sym e₄)
      ∙ write_sectors-Outside k first first (filled buf₂) disk d (o refl) c

  -- WriteAt changes nothing outside the sectors of the file.
  pub write_at-Outside :
      (disk new from disk' : Buffer) (num_bytes position n : ℕ)
      → ((m s : ℕ) → m * 128 < file_length h → sector_of h (m * 128) ≡ some s → Outside s at)
      → write_at h disk new from num_bytes position ≡ some (n, disk')
      → disk' at ≡ disk at
  unfolding write_at
  write_at-Outside disk new from disk' num_bytes position n o e =
      let size =
        if ltb (file_length h) (position + num_bytes)
        then file_length h - position
        else num_bytes in
      let first = position / 128 in
      let last = (position + size - 1) / 128 in
      let first_aligned = position == first * 128 in
      guarded-Outside ((num_bytes == 0) || leb (file_length h) position)
        (if first_aligned then some new else keep_sector h disk new new 0 (first * 128))
        (λ buf.
          if not ((position + size) == ((last + 1) * 128)) && (not (first == last) || first_aligned)
          then keep_sector h disk new buf ((last - first) * 128) (last * 128)
          else some buf)
        (λ buf. copy buf (position - first * 128) size from 0) disk disk' (1 + last - first) first n
        size (λ t m s p q. o m s (below (file_length h) m t p q)) e
    where
      below :
          (len m : ℕ)
          → (num_bytes == 0) || leb len position ≡ false
          → position / 128 ≤ m
          → m
            < position / 128
              + (1
                  + (position
                      + (if ltb len (position + num_bytes) then len - position else num_bytes)
                      - 1)
                    / 128
                  - position / 128)
          → m * 128 < len
      below len m t p q = ground (arith, t, p, q)
