-- ===== src/OpenFile/WriteAt.antt =====
-- WriteAt of code/filesys/openfile.cc, against the bytes of the file in their order.
use nachos_system_calls.Prelude.{
  ℕ, zero, suc, ◌+◌, ◌-◌, ◌*◌, ◌/◌, ◌%◌, ◌<◌, ◌≤◌, ◌≡◌, ◌≢◌, refl, sym, ap, ap₂, ◌∙◌, ◌&&◌, some,
  ◌==◌, ltb, leb, if◌then◌else◌, arith, ℕ_discrete,
}
use nachos_system_calls.Disk.{sector_start}
use nachos_system_calls.FileHeader.{FileHeader}
use nachos_system_calls.OpenFile.{Buffer, copy, write_sectors}
use nachos_system_calls.OpenFile.ReadAt.{HasSectors, content, sector_of_lem}

module _ (h : FileHeader) (sec : ℕ → ℕ) (n : ℕ) (has : HasSectors h sec n)
    (distinct : (i j : ℕ) → i < n → j < n → sec i ≡ sec j → i ≡ j) where
  -- A sector of the file written: the bytes of the file that are in it change, no others.
  content-copy :
      (file buf : Buffer) (i at p : ℕ)
      → i < n
      → p / 128 < n
      → content (copy file (sector_start (sec i)) 128 buf at) sec p
        ≡ (if p / 128 == i then buf (at + p % 128) else content file sec p)
  content-copy file buf i at p h k = elim (ℕ_discrete (p / 128) i) [
    | yes e ↦ same (sec i) (sec (p / 128)) (p % 128) (p / 128) (omega arith) (ap sec e) e
    | no d ↦
        other (sec i) (sec (p / 128)) (p % 128) (p / 128) (omega arith)
          (λ e. d (distinct (p / 128) i k h e)) d
  ]
    where
      same :
          (s t o q : ℕ)
          → o < 128
          → t ≡ s
          → q ≡ i
          → (if leb (sector_start s) (sector_start t + o)
                && ltb (sector_start t + o) (sector_start s + 128)
              then buf (at + (sector_start t + o - sector_start s))
              else file (sector_start t + o))
            ≡ (if q == i then buf (at + o) else file (sector_start t + o))
      same s t o q l e f =
          let z : at + (sector_start t + o - sector_start s) ≡ at + o = omega (arith, e) in
          ground (arith, l, e, f, ap buf z)

      other :
          (s t o q : ℕ)
          → o < 128
          → t ≢ s
          → q ≢ i
          → (if leb (sector_start s) (sector_start t + o)
                && ltb (sector_start t + o) (sector_start s + 128)
              then buf (at + (sector_start t + o - sector_start s))
              else file (sector_start t + o))
            ≡ (if q == i then buf (at + o) else file (sector_start t + o))
      other s t o q l e f = ground (arith, l, e, f)

  pub write_sectors_lem :
      (k first c : ℕ) (buf file : Buffer)
      → first + c + k ≤ n
      → (file' : Buffer) × (write_sectors k (first + c) first h buf file ≡ some file')
        × ((p : ℕ)
            → p / 128 < n
            → content file' sec p ≡ (
                if leb ((first + c) * 128) p && ltb p ((first + c + k) * 128)
                then buf (p - first * 128)
                else content file sec p))
  unfolding write_sectors
  write_sectors_lem zero first c buf file q =
      (file, refl, λ p l. none_written (buf (p - first * 128)) (content file sec p) p)
    where
      none_written :
          (x y p : ℕ)
          → y ≡ (if leb ((first + c) * 128) p && ltb p ((first + c + 0) * 128) then x else y)
      none_written x y p = ground arith
  write_sectors_lem (suc k) first c buf file q =
      let s = sec (first + c) in
      let file₁ = copy file (sector_start s) 128 buf (c * 128) in
      let (file', e, f) = write_sectors_lem k first (c + 1) buf file₁ (omega (arith, q)) in
      let off : (first + c - first) * 128 ≡ c * 128 = omega arith in
      let next : first + (c + 1) ≡ first + c + 1 = omega arith in
      (
        file',
        rw (sector_of_lem h file sec n has (first + c) (omega (arith, q))) (
            ap₂ (λ o i. write_sectors k i first h buf (copy file (sector_start s) 128 buf o)) off
              (sym next)
            ∙ e),
        λ p l.
            f p l
            ∙ joined (buf (p - first * 128)) (content file₁ sec p) (content file sec p) p
                (buf (c * 128 + p % 128))
                (content-copy file buf (first + c) (c * 128) p (omega (arith, q)) l) (here p),
      )
    where
      here : (p : ℕ) → p / 128 ≡ first + c → buf (c * 128 + p % 128) ≡ buf (p - first * 128)
      here p e = ap buf (omega (arith, e))

      joined :
          (x y z p w : ℕ)
          → y ≡ (if p / 128 == first + c then w else z)
          → (p / 128 ≡ first + c → w ≡ x)
          → (if leb ((first + (c + 1)) * 128) p && ltb p ((first + (c + 1) + k) * 128)
              then x
              else y)
            ≡ (if leb ((first + c) * 128) p && ltb p ((first + c + suc k) * 128) then x else z)
      joined x y z p w e g = ground (arith, e, g)
