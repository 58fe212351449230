-- ===== src/OpenFile/ReadAt.antt =====
-- ReadAt of code/filesys/openfile.cc, against the bytes of the file in their order.
use nachos_system_calls.Prelude.{
  ℕ, zero, suc, ◌+◌, ◌-◌, ◌*◌, ◌/◌, ◌%◌, ◌<◌, ◌≤◌, ◌≡◌, refl, sym, ap, ap₂, ◌∙◌, true, false, ◌&&◌,
  ◌||◌, Option, some, pos, ◌>>=◌, ◌==◌, lt→ltb, ltb, leb, if◌then◌else◌, arith, Bool-cases, inl,
  inr,
}
use nachos_system_calls.Disk.{sector_start}
use nachos_system_calls.FileHeader.{FileHeader, byte_to_sector, file_length}
use nachos_system_calls.OpenFile.{Buffer, sector_of, copy, read_sectors, read_at}

-- The first `n` sectors of the file are these sectors of the disk.
unfoldable pub HasSectors : FileHeader → (ℕ → ℕ) → ℕ → Type 0
HasSectors h sec n =
    (i : ℕ) → i < n → (byte_to_sector h (i * 128) ≡ some (pos (sec i))) × (sec i < 1024)

-- The byte of the file at a position.
abbrev pub content : Buffer → (ℕ → ℕ) → ℕ → ℕ
content file sec p = file (sector_start (sec (p / 128)) + p % 128)

module _ (h : FileHeader) (file : Buffer) (sec : ℕ → ℕ) (n : ℕ) (has : HasSectors h sec n) where
  pub sector_of_lem : (i : ℕ) → i < n → sector_of h (i * 128) ≡ some (sec i)
  unfolding sector_of HasSectors
  sector_of_lem i q = let (e, s) = has i q in rw (e, lt→ltb (sec i) 1024 s) refl

  -- The buffer after the loop from the sector `first + c` on.
  abbrev loaded : ℕ → ℕ → ℕ → Buffer → Buffer
  loaded first c k buf j =
      if leb (c * 128) j && ltb j ((c + k) * 128) then content file sec (first * 128 + j) else buf j

  read_sectors_lem :
      (k first c : ℕ) (buf : Buffer)
      → first + c + k ≤ n
      → (buf' : Buffer) × (read_sectors k (first + c) first h file buf ≡ some buf')
        × ((j : ℕ) → buf' j ≡ loaded first c k buf j)
  unfolding read_sectors
  read_sectors_lem zero first c buf q =
      (buf, refl, λ j. none_loaded (content file sec (first * 128 + j)) (buf j) j)
    where
      none_loaded : (x y j : ℕ) → y ≡ (if leb (c * 128) j && ltb j ((c + 0) * 128) then x else y)
      none_loaded x y j = ground arith
  read_sectors_lem (suc k) first c buf q =
      let s = sec (first + c) in
      let buf₁ = copy buf (c * 128) 128 file (sector_start s) in
      let (buf', e, f) = read_sectors_lem k first (c + 1) buf₁ (omega (arith, q)) in
      let off : (first + c - first) * 128 ≡ c * 128 = omega arith in
      let next : first + (c + 1) ≡ first + c + 1 = omega arith in
      (
        buf',
        rw (sector_of_lem (first + c) (omega (arith, q))) (
            ap₂ (λ o i. read_sectors k i first h file (copy buf o 128 file (sector_start s))) off
              (sym next)
            ∙ e),
        λ j.
            f j
            ∙ joined (content file sec (first * 128 + j)) (file (sector_start s + (j - c * 128)))
                (buf j) j (here j),
      )
    where
      here :
          (j : ℕ)
          → c * 128 ≤ j
          → j < c * 128 + 128
          → file (sector_start (sec (first + c)) + (j - c * 128))
            ≡ content file sec (first * 128 + j)
      here j p q =
          let a : (first * 128 + j) / 128 ≡ first + c = omega (arith, p, q) in
          let b : (first * 128 + j) % 128 ≡ j - c * 128 = omega (arith, p, q) in
          ap₂ (λ i o. file (sector_start (sec i) + o)) (sym a) (sym b)

      joined :
          (x y z j : ℕ)
          → (c * 128 ≤ j → j < c * 128 + 128 → y ≡ x)
          → (if leb ((c + 1) * 128) j && ltb j ((c + 1 + k) * 128)
              then x
              else (if leb (c * 128) j && ltb j (c * 128 + 128) then y else z))
            ≡ (if leb (c * 128) j && ltb j ((c + suc k) * 128) then x else z)
      joined x y z j g = ground (arith, g)

-- How many bytes ReadAt transfers.
abbrev pub read_count : ℕ → ℕ → ℕ → ℕ
read_count file_length num_bytes position =
    if leb file_length position
    then 0
    else (if ltb file_length (position + num_bytes) then file_length - position else num_bytes)

abbrev handed : ℕ → ℕ → Buffer → Buffer → Option (ℕ × Buffer)
handed n position into buf = some (n, copy into 0 n buf (position - position / 128 * 128))

-- The sectors that hold the `n` bytes at a position, and the copy of these bytes.
transferred :
    (h : FileHeader) (file new into : Buffer) (sec : ℕ → ℕ) (n position : ℕ)
    → HasSectors h sec ((file_length h + 127) / 128)
    → 1 ≤ n
    → position + n ≤ file_length h
    → (into' : Buffer) × ((read_sectors
            (1 + (position + n - 1) / 128 - position / 128)
            (position / 128)
            (position / 128)
            h
            file
            new
          >>= handed n position into)
        ≡ some (n, into'))
      × ((j : ℕ) → into' j ≡ (if ltb j n then content file sec (position + j) else into j))
transferred h file new into sec n position has one inside =
    let first = position / 128 in
    let k = 1 + (position + n - 1) / 128 - first in
    let (buf, e, f) =
      read_sectors_lem h file sec ((file_length h + 127) / 128) has k first 0 new
        (omega (arith, one, inside)) in
    let z : first + 0 ≡ first = omega arith in
    (
      copy into 0 n buf (position - first * 128),
      rw (ap (λ i. read_sectors k i first h file new) (sym z) ∙ e) refl,
      λ j.
          copied (buf (position - first * 128 + (j - 0))) (content file sec (position + j)) (into j)
            j
            (λ q.
              f (position - first * 128 + (j - 0))
              ∙ within k j (content file sec (first * 128 + (position - first * 128 + (j - 0))))
                  (content file sec (position + j)) (new (position - first * 128 + (j - 0)))
                  (reaches k j refl q) (ap (content file sec) (omega arith))),
    )
  where
    reaches :
        (k j : ℕ)
        → k ≡ 1 + (position + n - 1) / 128 - position / 128
        → j < n
        → position - position / 128 * 128 + (j - 0) < (0 + k) * 128
    reaches k j e q = omega (arith, e, q, one)

    within :
        (k j x y w : ℕ)
        → position - position / 128 * 128 + (j - 0) < (0 + k) * 128
        → x ≡ y
        → (if leb (0 * 128) (position - position / 128 * 128 + (j - 0))
              && ltb (position - position / 128 * 128 + (j - 0)) ((0 + k) * 128)
            then x
            else w)
          ≡ y
    within k j x y w q e = ground (arith, q, e)

    copied :
        (x y w j : ℕ)
        → (j < n → x ≡ y)
        → (if leb 0 j && ltb j (0 + n) then x else w) ≡ (if ltb j n then y else w)
    copied x y w j g = ground (arith, g)

-- ReadAt of a file whose sectors are on the disk succeeds, whatever its new buffer holds: it returns
-- the number of bytes asked for, or as many as the file has from the position on, and `into` then
-- begins with these bytes of the file and is otherwise as it was.
pub read_at-content :
    (h : FileHeader) (file new into : Buffer) (sec : ℕ → ℕ) (num_bytes position : ℕ)
    → HasSectors h sec ((file_length h + 127) / 128)
    → (into' : Buffer) × (read_at h file new into num_bytes position
        ≡ some (read_count (file_length h) num_bytes position, into'))
      × ((j : ℕ)
          → into' j ≡ (
              if ltb j (read_count (file_length h) num_bytes position)
              then content file sec (position + j)
              else into j))
unfolding read_at
read_at-content h file new into sec num_bytes position has =
    elim (Bool-cases ((num_bytes == 0) || leb (file_length h) position)) [
      | inl t ↦
          let z = nothing (file_length h) t in
          (
            into,
            rw t (ap (λ n. some (n, into)) (sym z)),
            λ j.
                never (content file sec (position + j)) (into j) j
                ∙ ap (λ n. if ltb j n then content file sec (position + j) else into j) (sym z),
          )
      | inr t ↦
          let (c, one, inside) = something (file_length h) t in
          let (into', e, f) =
            transferred h file new into sec (asked (file_length h)) position has one inside in
          (
            into',
            rw t e ∙ ap (λ n. some (n, into')) (sym c),
            λ j.
                f j ∙ ap (λ n. if ltb j n then content file sec (position + j) else into j) (sym c),
          )
    ]
  where
    asked : ℕ → ℕ
    asked len = if ltb len (position + num_bytes) then len - position else num_bytes

    never : (x y j : ℕ) → y ≡ (if ltb j 0 then x else y)
    never x y j = ground arith

    nothing :
        (len : ℕ)
        → (num_bytes == 0) || leb len position ≡ true
        → read_count len num_bytes position ≡ 0
    nothing len t = ground (arith, t)

    something :
        (len : ℕ)
        → (num_bytes == 0) || leb len position ≡ false
        → (read_count len num_bytes position ≡ asked len)
          × (1 ≤ asked len)
          × (position + asked len ≤ len)
    something len t = (ground (arith, t), ground (arith, t), ground (arith, t))
