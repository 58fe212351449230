-- ===== src/PostOffice/Tests.antt =====
-- A message of three bytes from the machine 0 to the box 1 of the machine 5, and the witness.
use nachos_system_calls.Prelude.{
  ℕ, ◌+◌, ◌≡◌, refl, true, false, some, none, [], ◌∷◌, ◌++◌, set, replicate, get_or, arith,
}
use nachos_system_calls.Interrupt.{Interrupt, int_on, system_mode}
use nachos_system_calls.OpenFile.{Buffer}
use nachos_system_calls.Network.{PacketHeader, Network, check_pkt_avail}
use nachos_system_calls.Network.Transfer.{IsHeader}
use nachos_system_calls.PostOffice.{Mail, PostOffice, deliver, send_mail}
use nachos_system_calls.PostOffice.Delivery.{Holds, send_mail-deliver}

abbrev no_header : PacketHeader
no_header = record { to = 0; from = 0; length = 0 }

abbrev device : ℕ → Network
device addr = record {
  ident = addr;
  this = 9000 + addr;
  send_busy = false;
  in_hdr = no_header;
  inbox = λ j. 7;
  num_packets_recvd = 0;
  num_packets_sent = 0;
}

abbrev office : ℕ → PostOffice
office addr = record { net_addr = addr; num_boxes = 2; boxes = replicate 2 [] }

abbrev clock : Interrupt (Unit {0})
clock = record {
  level = int_on;
  pending = [];
  in_handler = false;
  yield_on_return = false;
  status = system_mode;
  total_ticks = 100;
  idle_ticks = 0;
  system_ticks = 0;
  user_ticks = 0;
  machine = none;
  rest = tt;
}

abbrev to_five : PacketHeader
to_five = record { to = 5; from = 0; length = 0 }

abbrev to_box : PacketHeader
to_box = record { to = 1; from = 0; length = 3 }

to_five-IsHeader : IsHeader to_five
to_five-IsHeader = record { to = omega arith; from = omega arith; length = omega arith }

to_box-IsHeader : IsHeader to_box
to_box-IsHeader = record { to = omega arith; from = omega arith; length = omega arith }

abbrev letters : Buffer
letters j = get_or (104 ∷ 101 ∷ 121 ∷ []) j 0

abbrev fresh : Buffer
fresh j = 255

send_mail-deliver_example :
    (w₁ : Interrupt (Unit {0})) × (p : Buffer) × (net₁ : Network) × (v₁ : Interrupt (Unit {0}))
    × (send_mail 11 12 false fresh fresh (office 0) to_five to_box letters (device 0) clock
        ≡ some (device 0, w₁, some (5, p)))
    × (check_pkt_avail 11 12 (some p) (device 5) clock ≡ some (net₁, v₁, true))
    × ((mail : Mail) × (net₂ : Network) × (deliver fresh fresh (office 5) net₁
          ≡ some (record (office 5) { boxes = set (office 5).boxes 1 ([] ++ mail ∷ []) }, net₂))
        × (net₂.in_hdr.length ≡ 0)
        × Holds mail (record to_five { from = 0; length = 15 }) to_box letters)
send_mail-deliver_example =
    send_mail-deliver 11 12 fresh fresh fresh fresh letters (office 0) (office 5) to_five to_box []
      (device 0) (device 5) clock clock (omega arith) to_box-IsHeader to_five-IsHeader (omega arith)
      refl refl refl refl refl refl refl
