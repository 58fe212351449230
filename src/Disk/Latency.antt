-- ===== src/Disk/Latency.antt =====
-- The latency of code/machine/disk.cc, against where the sectors are.
use nachos_system_calls.Prelude.{
  ℕ, ◌+◌, ◌*◌, ◌/◌, ◌%◌, ◌≤◌, ◌<◌, ◌≡◌, refl, Bool, true, false, not, ◌&&◌, arith, Bool-cases, inl,
  inr, ◌⊎◌, ◌-◌, ◌==◌, if◌then◌else◌, ltb, lt→ltb, ◌∙◌, sym, subst,
}
use nachos_system_calls.Disk.{Disk, distance, time_to_seek, modulo_diff, in_buffer, compute_latency}

-- At most 31 tracks and a part of a rotation to the next sector.
time_to_seek_lem :
    (d : Disk) (now sector : ℕ)
    → sector < 1024
    → d.last_sector < 1024
    → ((time_to_seek d now sector).0 ≤ 15500)
      × ((time_to_seek d now sector).1 < 500)
      × ((now + (time_to_seek d now sector).0 + (time_to_seek d now sector).1) % 500 ≡ 0)
unfolding time_to_seek
time_to_seek_lem d now sector h l = (ground arith, ground arith, ground arith)

modulo_diff_lem :
    (sector from : ℕ)
    → (modulo_diff sector from < 32) × ((from + modulo_diff sector from) % 32 ≡ sector % 32)
modulo_diff_lem sector from = (omega arith, omega arith)

-- The test of the code.
abbrev buffered : Disk → ℕ → ℕ → Bool → Bool
buffered d now sector writing =
    let (seek, rotation) = time_to_seek d now sector in
    not writing && in_buffer d sector seek (now + seek + rotation)

-- A request to read a sector of the track of the head that has passed it since the buffer was
-- begun, from the sector there at the time `buffer_init` to the next boundary between two sectors.
abbrev pub Buffered : Disk → ℕ → ℕ → Bool → Type 0
Buffered d now sector writing =
    (writing ≡ false)
    × (sector / 32 ≡ d.last_sector / 32)
    × ((k : ℕ) × (k < ((now + 499) / 500 * 500 - d.buffer_init) / 500)
        × ((d.buffer_init / 500 + k) % 32 ≡ sector % 32))

-- The sectors pass the head in their order, one in 500 ticks. A request to a sector of the disk
-- takes at least 500 and at most 31999 ticks: 500 ticks if it is to read a sector that has passed
-- the head since the track buffer was begun, and otherwise it ends at a boundary between two
-- sectors, when the one that has just passed is the one requested.
pub record Timed (d : Disk) (now sector : ℕ) (writing : Bool) : Type 0 where
  pub at_least : 500 ≤ compute_latency d now sector writing
  pub at_most : compute_latency d now sector writing ≤ 31999
  pub served :
      (Buffered d now sector writing × (compute_latency d now sector writing ≡ 500))
      ⊎ ((¬ Buffered d now sector writing)
          × ((now + compute_latency d now sector writing) % 500 ≡ 0)
          × (((now + compute_latency d now sector writing) / 500 + 31) % 32 ≡ sector % 32))

track_seek : (a b : ℕ) → (((a - b) + (b - a)) * 500 == 0) ≡ true → a ≡ b
track_seek a b h = ground arith

seek_track : (a b : ℕ) → a ≡ b → (((a - b) + (b - a)) * 500 == 0) ≡ true
seek_track a b h = ground arith

-- The time after the rotation, on the same track.
boundary :
    (now seek : ℕ)
    → (seek == 0) ≡ true
    → now + seek + (if ltb 0 ((now + seek) % 500) then 500 - (now + seek) % 500 else 0)
      ≡ (now + 499) / 500 * 500
boundary now seek h = let z : seek ≡ 0 = ground arith in rw z (at_time now)
  where
    at_time :
        (now : ℕ)
        → now + 0 + (if ltb 0 ((now + 0) % 500) then 500 - (now + 0) % 500 else 0)
          ≡ (now + 499) / 500 * 500
    at_time now = ground arith

least_diff : (sector from k : ℕ) → (from + k) % 32 ≡ sector % 32 → modulo_diff sector from ≤ k
least_diff sector from k e =
    let (a, b) = modulo_diff_lem sector from in least (modulo_diff sector from) (b ∙ sym e) a
  where
    least : (m : ℕ) → (from + m) % 32 ≡ (from + k) % 32 → m < 32 → m ≤ k
    least m e h = omega (arith, e, h)

buffered-Buffered :
    (d : Disk) (now sector : ℕ) (writing : Bool)
    → buffered d now sector writing ≡ true
    → Buffered d now sector writing
unfolding time_to_seek in_buffer
buffered-Buffered d now sector false h =
    let seek = distance (sector / 32) (d.last_sector / 32) * 500 in
    let z : (seek == 0) ≡ true = ground arith in
    let l : modulo_diff sector (d.buffer_init / 500)
        < ((now + 499) / 500 * 500 - d.buffer_init) / 500 =
      subst (λ t. modulo_diff sector (d.buffer_init / 500) < (t - d.buffer_init) / 500)
        (boundary now seek z) (ground arith) in
    (
      refl,
      track_seek (sector / 32) (d.last_sector / 32) z,
      (
        modulo_diff sector (d.buffer_init / 500),
        l,
        (modulo_diff_lem sector (d.buffer_init / 500)).1,
      ),
    )
buffered-Buffered d now sector true h = absurd (ground arith)

Buffered-buffered :
    (d : Disk) (now sector : ℕ) (writing : Bool)
    → Buffered d now sector writing
    → buffered d now sector writing ≡ true
unfolding time_to_seek in_buffer
Buffered-buffered d now sector writing (w, track, (k, l, e)) =
    let seek = distance (sector / 32) (d.last_sector / 32) * 500 in
    let z = seek_track (sector / 32) (d.last_sector / 32) track in
    let m = least_diff sector (d.buffer_init / 500) k e in
    let t = boundary now seek z in rw (w, z, t) (lt→ltb _ _ (omega (arith, m, l)))

-- A wait of `s` and `r` ticks to a boundary, then of `m` sectors, and the transfer.
passes :
    (now s r m l : ℕ)
    → l ≡ s + (r + m * 500) + 500
    → (now + s + r) % 500 ≡ 0
    → ((now + l) % 500 ≡ 0) × ((now + l) / 500 ≡ (now + s + r) / 500 + m + 1)
passes now s r m l e h = (omega (arith, e, h), omega (arith, e, h))

pub compute_latency-Timed :
    (d : Disk) (now sector : ℕ) (writing : Bool)
    → sector < 1024
    → d.last_sector < 1024
    → Timed d now sector writing
unfolding compute_latency
compute_latency-Timed d now sector writing h l = elim (Bool-cases (buffered d now sector writing)) [
  | inl b ↦ record {
    at_least = rw b (ground arith);
    at_most = rw b (ground arith);
    served = inl (buffered-Buffered d now sector writing b, rw b refl);
  }
  | inr b ↦
      let (seek, rotation) = time_to_seek d now sector in
      let (s, r, z) = time_to_seek_lem d now sector h l in
      let q = (now + seek + rotation) / 500 in
      let (m, p) = modulo_diff_lem sector q in
      let e : compute_latency d now sector writing
          ≡ seek + (rotation + modulo_diff sector q * 500) + 500 =
        rw b refl in
      let (t, u) =
        passes now seek rotation (modulo_diff sector q) (compute_latency d now sector writing) e
          z in
      record {
        at_least = omega (arith, e);
        at_most = omega (arith, e, s, r, m);
        served =
            inr (
              (λ x. not_both (Buffered-buffered d now sector writing x) b),
              t,
              omega (arith, u, p),
            );
      }
]
  where
    not_both : {b : Bool} → b ≡ true → b ≡ false → ⊥
    not_both e f = cc
