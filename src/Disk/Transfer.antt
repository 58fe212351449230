-- ===== src/Disk/Transfer.antt =====
-- Requests to the disk of code/machine/disk.cc, and what the file then holds.
use nachos_system_calls.Prelude.{
  ℕ, ◌+◌, ◌-◌, ◌*◌, ◌≤◌, ◌<◌, ◌≡◌, ◌≢◌, ◌==◌, lt→ltb, ℕ_discrete, refl, sym, ap, ◌∙◌, ◌⊎◌, Bool,
  true, false, not, ◌&&◌, Option, none, some, List, length, tabulate, tabulate_congr,
  tabulate-get_or, get_or, arith, ltb, leb, if◌then◌else◌, ◌>>◌, assert_that,
}
use nachos_system_calls.Interrupt.{PendingInterrupt, insert_pending, Interrupt, disk_int, schedule}
use nachos_system_calls.Disk.{
  Disk, read_file, write_file, read_request, write_request, handle_interrupt, compute_latency,
  update_last,
}
use nachos_system_calls.Disk.Latency.{compute_latency-Timed}

-- Both for any length of a sector: at a length that is a numeral the lists would be written out.
abbrev over : ℕ → (ℕ → ℕ) → ℕ → List ℕ → ℕ → ℕ
over size file start bytes at =
    if leb start at && ltb at (start + size) then get_or bytes (at - start) 0 else file at

over_same :
    (size : ℕ) (file : ℕ → ℕ) (start : ℕ) (bytes : List ℕ)
    → length bytes ≡ size
    → tabulate size start (over size file start bytes) ≡ bytes
over_same size file start bytes h =
    tabulate_congr size start (over size file start bytes) (λ at. get_or bytes (at - start) 0)
      (λ j p q. inside (get_or bytes (j - start) 0) (file j) start j size p q)
    ∙ ap (λ n. tabulate n start (λ at. get_or bytes (at - start) 0)) (sym h)
    ∙ tabulate-get_or start bytes 0
  where
    inside :
        (a b start j size : ℕ)
        → start ≤ j
        → j < start + size
        → (if leb start j && ltb j (start + size) then a else b) ≡ a
    inside a b start j size p q = ground arith

over_other :
    (size : ℕ) (file : ℕ → ℕ) (start other : ℕ) (bytes : List ℕ)
    → (other + size ≤ start) ⊎ (start + size ≤ other)
    → tabulate size other (over size file start bytes) ≡ tabulate size other file
over_other size file start other bytes h =
    tabulate_congr size other (over size file start bytes) file
      (λ j p q. outside (get_or bytes (j - start) 0) (file j) start j h p q)
  where
    outside :
        (a b start j : ℕ)
        → (other + size ≤ start) ⊎ (start + size ≤ other)
        → other ≤ j
        → j < other + size
        → (if leb start j && ltb j (start + size) then a else b) ≡ b
    outside a b start j h p q = ground arith

-- The sector that was written holds the bytes, every other what it held.
read_file-write_file :
    (file : ℕ → ℕ) (sector : ℕ) (bytes : List ℕ)
    → length bytes ≡ 128
    → read_file (write_file file sector bytes) sector ≡ bytes
unfolding read_file write_file
read_file-write_file file sector bytes h = over_same 128 file (128 * sector + 4) bytes h

read_file-other :
    (file : ℕ → ℕ) (sector other : ℕ) (bytes : List ℕ)
    → other ≢ sector
    → read_file (write_file file sector bytes) other ≡ read_file file other
unfolding read_file write_file
read_file-other file sector other bytes h =
    over_other 128 file (128 * sector + 4) (128 * other + 4) bytes
      (apart sector other (λ e. h (sym e)))
  where
    apart :
        (a b : ℕ) → a ≢ b → (128 * b + 4 + 128 ≤ 128 * a + 4) ⊎ (128 * a + 4 + 128 ≤ 128 * b + 4)
    apart a b h = ground arith

-- The two assertions of a request.
guarded :
    {A : Type 0} (active there : Bool) (o r : Option A)
    → active ≡ false
    → there ≡ true
    → o ≡ r
    → (assert_that (not active) >> assert_that there >> o) ≡ r
guarded false true o r a b e = e
guarded false false o r a b e = cc
guarded true there o r a b e = cc

-- What a request to write leaves.
pub record Written (d d' : Disk) (sector : ℕ) (bytes : List ℕ) : Type 0 where
  pub busy : d'.active ≡ true
  pub at_sector : d'.last_sector ≡ sector
  pub content : d'.file ≡ write_file d.file sector bytes

module _ {S : Type 0} (disk_done : ℕ) where
  accepted :
      (handler arg ticks : ℕ) (w : Interrupt S)
      → 0 < ticks
      → (w' : Interrupt S) × (schedule handler arg ticks disk_int w ≡ some w')
  unfolding schedule
  accepted handler arg ticks w h =
      let p : PendingInterrupt = record {
        handler = handler;
        arg = arg;
        when = w.total_ticks + ticks;
        type = disk_int;
      } in
      (record w { pending = insert_pending p w.pending }, rw (lt→ltb 0 ticks h) refl)

  -- A request that the disk takes: its latency is not 0, so Schedule accepts it.
  scheduled :
      (d : Disk) (w : Interrupt S) (sector : ℕ) (writing : Bool)
      → sector < 1024
      → d.last_sector < 1024
      → (w' : Interrupt S) × (schedule disk_done d.this
            (compute_latency d w.total_ticks sector writing)
            disk_int
            w
          ≡ some w')
  scheduled d w sector writing h l =
      let timed = compute_latency-Timed d w.total_ticks sector writing h l in
      accepted disk_done d.this (compute_latency d w.total_ticks sector writing) w
        (omega (arith, timed.at_least))

  pub write_request-Written :
      (d : Disk) (w : Interrupt S) (sector : ℕ) (bytes : List ℕ)
      → d.active ≡ false
      → sector < 1024
      → d.last_sector < 1024
      → (d' : Disk) × (w' : Interrupt S) × (write_request disk_done sector bytes d w
          ≡ some (d', w'))
        × Written d d' sector bytes
  unfolding write_request update_last
  write_request-Written d w sector bytes a h l =
      let (w', e) = scheduled d w sector true h l in
      let d₁ =
        update_last (record d { active = true; file = write_file d.file sector bytes })
          w.total_ticks sector in
      (
        record d₁ { num_disk_writes = d₁.num_disk_writes + 1 },
        w',
        guarded d.active (ltb sector 1024) _ _ a (lt→ltb sector 1024 h) (rw e refl),
        record { busy = refl; at_sector = refl; content = refl },
      )

  pub read_request_lem :
      (d : Disk) (w : Interrupt S) (sector : ℕ)
      → d.active ≡ false
      → sector < 1024
      → d.last_sector < 1024
      → (d' : Disk) × (w' : Interrupt S) × (read_request disk_done sector d w
          ≡ some (d', w', read_file d.file sector))
  unfolding read_request
  read_request_lem d w sector a h l =
      let (w', e) = scheduled d w sector false h l in
      let d₁ = update_last (record d { active = true }) w.total_ticks sector in
      (
        record d₁ { num_disk_reads = d₁.num_disk_reads + 1 },
        w',
        guarded d.active (ltb sector 1024) _ _ a (lt→ltb sector 1024 h) (rw e refl),
      )

  -- A request to write to a disk that is not active, of 128 bytes to a sector that it has,
  -- succeeds. Until the interrupt the disk takes no other request, neither to read nor to write.
  -- After it a request to read any sector that it has succeeds, whenever it comes: it gets these
  -- bytes from the sector that was written, and from any other what it held before.
  pub write_request-read_request :
      (d : Disk) (w v : Interrupt S) (sector other : ℕ) (bytes more : List ℕ)
      → d.active ≡ false
      → sector < 1024
      → other < 1024
      → d.last_sector < 1024
      → length bytes ≡ 128
      → (d₁ : Disk) × (w₁ : Interrupt S) × (write_request disk_done sector bytes d w
          ≡ some (d₁, w₁))
        × (read_request disk_done other d₁ v ≡ none)
        × (write_request disk_done other more d₁ v ≡ none)
        × ((d₂ : Disk) × (v₁ : Interrupt S) × (read_request disk_done other (handle_interrupt d₁) v
              ≡ some (d₂, v₁, if other == sector then bytes else read_file d.file other)))
  unfolding read_request write_request
  write_request-read_request d w v sector other bytes more a h k l n =
      let (d₁, w₁, e, written) = write_request-Written d w sector bytes a h l in
      let (d₂, v₁, f) =
        read_request_lem (handle_interrupt d₁) v other refl k
          (omega (arith, written.at_sector, h)) in
      let content : read_file d₁.file other
          ≡ (if other == sector then bytes else read_file d.file other) =
        ap (λ g. read_file g other) written.content ∙ back in
      (
        d₁,
        w₁,
        e,
        rw written.busy refl,
        rw written.busy refl,
        (d₂, v₁, f ∙ ap (λ bs. some (d₂, v₁, bs)) content),
      )
    where
      eq_self : (x : ℕ) → (x == x) ≡ true
      eq_self x = ground arith

      differ : (x y : ℕ) → x ≢ y → (x == y) ≡ false
      differ x y g = ground arith

      back :
          read_file (write_file d.file sector bytes) other
          ≡ (if other == sector then bytes else read_file d.file other)
      back = elim (ℕ_discrete other sector) [
        | yes e ↦ rw (e, eq_self sector) (read_file-write_file d.file sector bytes n)
        | no e ↦ rw (differ other sector e) (read_file-other d.file sector other bytes e)
      ]
