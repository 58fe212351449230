-- ===== src/Disk.antt =====
-- code/machine/disk.cc: the simulated disk.
pub mod Latency
pub mod Transfer
mod Tests
use nachos_system_calls.Prelude.{
  ℕ, zero, suc, ◌+◌, ◌-◌, ◌*◌, ◌/◌, ◌%◌, Bool, true, false, not, ◌&&◌, Option, none, some, List, [],
  ◌∷◌, tabulate, get_or, ◌>>=◌, ◌>>◌, assert_that, ◌==◌, ltb, leb, if◌then◌else◌,
}
use nachos_system_calls.Interrupt.{Interrupt, disk_int, schedule}

abbrev pub sector_size : ℕ
sector_size = 128

abbrev pub sectors_per_track : ℕ
sectors_per_track = 32

abbrev pub num_sectors : ℕ
num_sectors = sectors_per_track * 32

abbrev pub rotation_time : ℕ
rotation_time = 500

abbrev pub seek_time : ℕ
seek_time = 500

abbrev pub magic_size : ℕ
magic_size = 4

-- class Disk, with its counters of class Statistics. `file` gives the byte at each offset of the
-- UNIX file; `this` is the address of the object.
pub record Disk : Type 0 where
  pub file : ℕ → ℕ
  pub this : ℕ
  pub active : Bool
  pub last_sector : ℕ
  pub buffer_init : ℕ
  pub num_disk_reads : ℕ
  pub num_disk_writes : ℕ

abbrev pub distance : ℕ → ℕ → ℕ
distance a b = (a - b) + (b - a)

-- TimeToSeek, (seek, *rotation), at the time `now`.
unfoldable pub time_to_seek : Disk → ℕ → ℕ → ℕ × ℕ
time_to_seek d now new_sector =
    let seek =
      distance (new_sector / sectors_per_track) (d.last_sector / sectors_per_track) * seek_time in
    let over = (now + seek) % rotation_time in
    (seek, if ltb 0 over then rotation_time - over else 0)

-- ModuloDiff; the sum is not negative.
abbrev pub modulo_diff : ℕ → ℕ → ℕ
modulo_diff to from =
    (to % sectors_per_track + sectors_per_track - from % sectors_per_track) % sectors_per_track

-- Whether the sector is in the track buffer. Where the difference is negative, the test fails here
-- as in the source.
unfoldable pub in_buffer : Disk → ℕ → ℕ → ℕ → Bool
in_buffer d new_sector seek time_after =
    (seek == 0)
    && ltb (modulo_diff new_sector (d.buffer_init / rotation_time))
        ((time_after - d.buffer_init) / rotation_time)

unfoldable pub compute_latency : Disk → ℕ → ℕ → Bool → ℕ
unfolding time_to_seek in_buffer
compute_latency d now new_sector writing =
    let (seek, rotation) = time_to_seek d now new_sector in
    let time_after = now + seek + rotation in
    if not writing && in_buffer d new_sector seek time_after
    then rotation_time
    else seek
      + (rotation + modulo_diff new_sector (time_after / rotation_time) * rotation_time)
      + rotation_time

unfoldable pub update_last : Disk → ℕ → ℕ → Disk
unfolding time_to_seek
update_last d now new_sector =
    let (seek, rotate) = time_to_seek d now new_sector in
    record d {
      buffer_init = if seek == 0 then d.buffer_init else now + seek + rotate;
      last_sector = new_sector;
    }

-- The bytes of a sector in the file, and the file with other bytes there.
abbrev pub sector_start : ℕ → ℕ
sector_start sector = sector_size * sector + magic_size

unfoldable pub read_file : (ℕ → ℕ) → ℕ → List ℕ
read_file file sector = tabulate sector_size (sector_start sector) file

unfoldable pub write_file : (ℕ → ℕ) → ℕ → List ℕ → ℕ → ℕ
write_file file sector bytes at =
    if leb (sector_start sector) at && ltb at (sector_start sector + sector_size)
    then get_or bytes (at - sector_start sector) 0
    else file at

module _ {S : Type 0} (disk_done : ℕ) where
  unfoldable pub read_request : ℕ → Disk → Interrupt S → Option (Disk × Interrupt S × List ℕ)
  read_request sector d w =
      let ticks = compute_latency d w.total_ticks sector false in
      let bytes = read_file d.file sector in
      let d' = update_last (record d { active = true }) w.total_ticks sector in
      assert_that (not d.active)
      >> assert_that (ltb sector num_sectors)
      >> (schedule disk_done d.this ticks disk_int w >>= λ w'.
          some (record d' { num_disk_reads = d'.num_disk_reads + 1 }, w', bytes))

  unfoldable pub write_request : ℕ → List ℕ → Disk → Interrupt S → Option (Disk × Interrupt S)
  write_request sector bytes d w =
      let ticks = compute_latency d w.total_ticks sector true in
      let d' =
        update_last (record d { active = true; file = write_file d.file sector bytes })
          w.total_ticks sector in
      assert_that (not d.active)
      >> assert_that (ltb sector num_sectors)
      >> (schedule disk_done d.this ticks disk_int w >>= λ w'.
          some (record d' { num_disk_writes = d'.num_disk_writes + 1 }, w'))

-- HandleInterrupt, up to the call of the handler.
abbrev pub handle_interrupt : Disk → Disk
handle_interrupt d = record d { active = false }
