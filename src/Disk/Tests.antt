-- ===== src/Disk/Tests.antt =====
-- Runs of code/machine/disk.cc, and the witnesses.
use nachos_system_calls.Prelude.{
  ℕ, ◌≡◌, refl, true, false, none, some, replicate, arith, ◌==◌, if◌then◌else◌,
}
use nachos_system_calls.Interrupt.{Interrupt, new_interrupt}
use nachos_system_calls.Disk.{
  Disk, compute_latency, read_request, write_request, read_file, handle_interrupt,
}
use nachos_system_calls.Disk.Latency.{Timed, compute_latency-Timed}
use nachos_system_calls.Disk.Transfer.{write_request-read_request}

abbrev idle_disk : Disk
idle_disk = record {
  file = λ at. 0;
  this = 0;
  active = false;
  last_sector = 5;
  buffer_init = 0;
  num_disk_reads = 0;
  num_disk_writes = 0;
}

abbrev clock : ℕ → Interrupt (Unit {0})
clock t = new_interrupt t none tt

-- From the sector 5 to the sector 37, which is the fifth of the next track.
latency_run : compute_latency idle_disk 1234 37 true ≡ 1766
unfolding compute_latency
latency_run = refl

compute_latency-Timed_example : Timed idle_disk 1234 37 true
compute_latency-Timed_example =
    compute_latency-Timed idle_disk 1234 37 true (ground arith) (ground arith)

write_request-read_request_example :
    (d₁ : Disk) × (w₁ : Interrupt (Unit {0})) × (write_request 9 37
        (replicate 128 7)
        idle_disk
        (clock 1234)
      ≡ some (d₁, w₁))
    × (read_request 9 38 d₁ (clock 5000) ≡ none)
    × (write_request 9 38 (replicate 128 8) d₁ (clock 5000) ≡ none)
    × ((d₂ : Disk) × (v₁ : Interrupt (Unit {0})) × (read_request 9 38
            (handle_interrupt d₁)
            (clock 5000)
          ≡ some (d₂, v₁, if 38 == 37 then replicate 128 7 else read_file idle_disk.file 38)))
write_request-read_request_example =
    write_request-read_request 9 idle_disk (clock 1234) (clock 5000) 37 38 (replicate 128 7)
      (replicate 128 8) refl (ground arith) (ground arith) (ground arith) refl
