-- ===== src/OpenFile/Overwrite.antt =====
-- WriteAt of code/filesys/openfile.cc as a whole: the sectors that it keeps a part of, and the bytes
-- that it writes.
use nachos_system_calls.Prelude.{
  ℕ, ◌+◌, ◌-◌, ◌*◌, ◌/◌, ◌<◌, ◌≤◌, ◌≡◌, refl, sym, ap, ◌∙◌, Bool, true, false, not, ◌&&◌, ◌||◌,
  some, ◌==◌, ltb, leb, if◌then◌else◌, arith, Bool-cases, inl, inr, ◌⊎◌,
}
use nachos_system_calls.FileHeader.{FileHeader, file_length}
use nachos_system_calls.OpenFile.{Buffer, copy, write_sectors, keep_sector, write_at}
use nachos_system_calls.OpenFile.ReadAt.{HasSectors, content, read_count, read_at-content}
use nachos_system_calls.OpenFile.WriteAt.{write_sectors_lem}

module _ (h : FileHeader) (file new : Buffer) (sec : ℕ → ℕ)
    (has : HasSectors h sec ((file_length h + 127) / 128)) where
  -- A sector kept: the bytes of the file in it, up to its end or that of the file.
  keep_sector_lem :
      (buf : Buffer) (at m : ℕ)
      → (buf' : Buffer) × (keep_sector h file new buf at (m * 128) ≡ some buf')
        × ((j : ℕ)
            → (at ≤ j
                → j < at + 128
                → m * 128 + (j - at) < file_length h
                → buf' j ≡ content file sec (m * 128 + (j - at)))
              × (j < at → buf' j ≡ buf j))
  unfolding keep_sector
  keep_sector_lem buf at m =
      let (into, e, f) = read_at-content h file new (λ j. buf (at + j)) sec 128 (m * 128) has in
      let cnt = read_count (file_length h) 128 (m * 128) in
      (
        copy buf at cnt into 0,
        rw e refl,
        λ j. (
          λ a b c.
              inside (into (0 + (j - at))) (buf j) (content file sec (m * 128 + (0 + (j - at))))
                (content file sec (m * 128 + (j - at))) (buf (at + (0 + (j - at)))) j
                (file_length h) (m * 128) (f (0 + (j - at))) (ap (content file sec) (omega arith)) a
                b c,
          λ a. before (into (0 + (j - at))) (buf j) j cnt a,
        ),
      )
    where
      inside :
          (x z y y' w j len base : ℕ)
          → x ≡ (if ltb (0 + (j - at)) (read_count len 128 base) then y else w)
          → y ≡ y'
          → at ≤ j
          → j < at + 128
          → base + (j - at) < len
          → (if leb at j && ltb j (at + read_count len 128 base) then x else z) ≡ y'
      inside x z y y' w j len base e g a b c = ground (arith, e, g, a, b, c)

      before : (x z j cnt : ℕ) → j < at → (if leb at j && ltb j (at + cnt) then x else z) ≡ z
      before x z j cnt a = ground (arith, a)

  module _ (position n : ℕ) (one : 1 ≤ n) (inside : position + n ≤ file_length h) where
    abbrev first : ℕ
    first = position / 128

    abbrev last : ℕ
    last = (position + n - 1) / 128

    abbrev first_aligned : Bool
    first_aligned = position == first * 128

    abbrev last_aligned : Bool
    last_aligned = (position + n) == ((last + 1) * 128)

    -- The first sector, unless it is aligned.
    first_kept :
        (buf : Buffer) × ((if first_aligned
            then some new
            else keep_sector h file new new 0 (first * 128))
          ≡ some buf)
        × ((j : ℕ)
            → first_aligned ≡ false
            → j < 128
            → first * 128 + j < file_length h
            → buf j ≡ content file sec (first * 128 + j))
    first_kept = elim (Bool-cases first_aligned) [
      | inl t ↦ (new, rw t refl, λ j q a b. absurd (ground (arith, t, q)))
      | inr t ↦
          let (buf, e, f) = keep_sector_lem new 0 first in
          (
            buf,
            rw t e,
            λ j q a b.
                (f j).0 (omega arith) (omega (arith, a)) (omega (arith, b))
                ∙ ap (content file sec) (omega arith),
          )
    ]

    -- Both, in a buffer that holds the bytes of the file around those to be written.
    abbrev keeps_last : Bool
    keeps_last = not last_aligned && (not (first == last) || first_aligned)

    both_kept :
        (buf₁ : Buffer)
        → ((j : ℕ)
            → first_aligned ≡ false
            → j < 128
            → first * 128 + j < file_length h
            → buf₁ j ≡ content file sec (first * 128 + j))
        → (buf : Buffer) × ((if keeps_last
              then keep_sector h file new buf₁ ((last - first) * 128) (last * 128)
              else some buf₁)
            ≡ some buf)
          × ((p : ℕ)
              → first * 128 ≤ p
              → p < (last + 1) * 128
              → p < file_length h
              → (p < position) ⊎ (position + n ≤ p)
              → buf (p - first * 128) ≡ content file sec p)
    both_kept buf₁ g = elim (Bool-cases keeps_last) [
      | inl t ↦
          let (buf, e, f) = keep_sector_lem buf₁ ((last - first) * 128) last in
          (
            buf,
            rw t e,
            λ p a b c d. elim (Bool-cases (ltb p (last * 128))) [
              | inl q ↦
                  (f (p - first * 128)).1 (ground (arith, a, q))
                  ∙ g (p - first * 128) (ground (arith, one, a, q, d))
                      (ground (arith, one, a, q, d)) (ground (arith, a, c))
                  ∙ ap (content file sec) (ground (arith, a))
              | inr q ↦
                  (f (p - first * 128)).0 (ground (arith, a, q, one)) (ground (arith, a, b, q, one))
                    (ground (arith, a, b, c, q, one))
                  ∙ ap (content file sec) (ground (arith, a, q, one))
            ],
          )
      | inr t ↦ (
        buf₁,
        rw t refl,
        λ p a b c d.
            g (p - first * 128) (ground (arith, one, a, b, t, d)) (ground (arith, one, a, b, t, d))
              (ground (arith, a, c))
            ∙ ap (content file sec) (ground (arith, a)),
      )
    ]

-- The buffer in its sectors is the new bytes over the old.
overlay :
    (position n k p x x' b y : ℕ)
    → k ≡ 1 + (position + n - 1) / 128 - position / 128
    → 1 ≤ n
    → (position ≤ p → x ≡ x')
    → (position / 128 * 128 ≤ p
        → p < ((position + n - 1) / 128 + 1) * 128
        → (p < position) ⊎ (position + n ≤ p)
        → b ≡ y)
    → (if leb ((position / 128 + 0) * 128) p && ltb p ((position / 128 + 0 + k) * 128)
        then (if leb (position - position / 128 * 128) (p - position / 128 * 128)
              && ltb (p - position / 128 * 128) (position - position / 128 * 128 + n)
            then x
            else b)
        else y)
      ≡ (if leb position p && ltb p (position + n) then x' else y)
overlay position n k p x x' b y e one g h = ground (arith, e, one, g, h)

-- WriteAt of a file whose sectors are on the disk and distinct succeeds, whatever its new buffer
-- holds: it returns the number of bytes asked for, or as many as the file has from the position on,
-- and the file then has these bytes of `from` at the position and is otherwise as it was.
pub write_at-content :
    (h : FileHeader) (file new from : Buffer) (sec : ℕ → ℕ) (num_bytes position : ℕ)
    → HasSectors h sec ((file_length h + 127) / 128)
    → ((i j : ℕ)
        → i < (file_length h + 127) / 128
        → j < (file_length h + 127) / 128
        → sec i ≡ sec j
        → i ≡ j)
    → (file' : Buffer) × (write_at h file new from num_bytes position
        ≡ some (read_count (file_length h) num_bytes position, file'))
      × ((p : ℕ)
          → p < file_length h
          → content file' sec p ≡ (
              if leb position p && ltb p (position + read_count (file_length h) num_bytes position)
              then from (p - position)
              else content file sec p))
unfolding write_at
write_at-content h file new from sec num_bytes position has distinct =
    elim (Bool-cases ((num_bytes == 0) || leb (file_length h) position)) [
      | inl t ↦
          let z = nothing (file_length h) t in
          (
            file,
            rw t (ap (λ n. some (n, file)) (sym z)),
            λ p l.
                never (from (p - position)) (content file sec p) p
                  (read_count (file_length h) num_bytes position) z,
          )
      | inr t ↦
          let (c, one, inside) = something (file_length h) t in
          let n = asked (file_length h) in
          let first = position / 128 in
          let k = 1 + (position + n - 1) / 128 - first in
          let (buf₁, e₁, g₁) = first_kept h file new sec has position n one inside in
          let (buf₂, e₂, g₂) = both_kept h file new sec has position n one inside buf₁ g₁ in
          let (file', e₃, f) =
            write_sectors_lem h sec ((file_length h + 127) / 128) has distinct k first 0
              (copy buf₂ (position - first * 128) n from 0) file (omega (arith, one, inside)) in
          let z : first + 0 ≡ first = omega arith in
          (
            file',
            rw
                (
                  t,
                  e₁,
                  e₂,
                  ap
                        (λ i.
                          write_sectors k i first h (copy buf₂ (position - first * 128) n from 0)
                            file)
                        (sym z)
                      ∙ e₃,
                  c,
                )
                refl,
            λ p l.
                f p (omega (arith, l))
                ∙ overlay position n k p (from (0 + (p - first * 128 - (position - first * 128))))
                    (from (p - position)) (buf₂ (p - first * 128)) (content file sec p) refl one
                    (λ a. ap from (omega (arith, a))) (λ a b. g₂ p a b l)
                ∙ ap
                    (λ m.
                      if leb position p && ltb p (position + m)
                      then from (p - position)
                      else content file sec p)
                    (sym c),
          )
    ]
  where
    asked : ℕ → ℕ
    asked len = if ltb len (position + num_bytes) then len - position else num_bytes

    never : (x y p n : ℕ) → n ≡ 0 → y ≡ (if leb position p && ltb p (position + n) then x else y)
    never x y p n z = ground (arith, z)

    nothing :
        (len : ℕ)
        → (num_bytes == 0) || leb len position ≡ true
        → read_count len num_bytes position ≡ 0
    nothing len t = ground (arith, t)

    something :
        (len : ℕ)
        → (num_bytes == 0) || leb len position ≡ false
        → (read_count len num_bytes position ≡ asked len)
          × (1 ≤ asked len)
          × (position + asked len ≤ len)
    something len t = (ground (arith, t), ground (arith, t), ground (arith, t))
