-- ===== src/Network.antt =====
-- code/machine/network.cc: the network device. What the socket of the host hands over, and whether
-- a packet is lost, which Random and the reliability decide, are arguments; an address and a box are
-- ints, kept as their words.
pub mod Transfer
use nachos_system_calls.Prelude.{
  ℕ, ◌+◌, ◌^◌, Bool, true, false, not, ◌&&◌, Option, none, some, List, [], ◌∷◌, ◌>>=◌, ◌>>◌,
  assert_that, ◌==◌, ltb, leb, if◌then◌else◌,
}
use nachos_system_calls.Interrupt.{Interrupt, network_send_int, network_recv_int, schedule}
use nachos_system_calls.OpenFile.{Buffer, copy}
use nachos_system_calls.Storage.{word_at, words_buffer}

-- NetworkTime.
abbrev pub network_time : ℕ
network_time = 100

-- sizeof(PacketHeader), MaxWireSize and MaxPacketSize.
abbrev pub packet_header_size : ℕ
packet_header_size = 12

abbrev pub max_wire_size : ℕ
max_wire_size = 64

abbrev pub max_packet_size : ℕ
max_packet_size = 52

pub record PacketHeader : Type 0 where
  pub to : ℕ
  pub from : ℕ
  pub length : ℕ

-- class Network, with its counters of class Statistics; `this` is the address of the object.
pub record Network : Type 0 where
  pub ident : ℕ
  pub this : ℕ
  pub send_busy : Bool
  pub in_hdr : PacketHeader
  pub inbox : Buffer
  pub num_packets_recvd : ℕ
  pub num_packets_sent : ℕ

-- A header at the begin of a buffer.
abbrev pub header_at : Buffer → PacketHeader
header_at b = record { to = word_at b 0; from = word_at b 4; length = word_at b 8 }

abbrev pub header_bytes : PacketHeader → Buffer
header_bytes h = words_buffer (h.to ∷ h.from ∷ h.length ∷ [])

-- The packet for the wire; `new` is what the new buffer holds.
abbrev pub wire_packet : Buffer → PacketHeader → Buffer → Buffer
wire_packet new hdr bytes =
    copy (copy new 0 packet_header_size (header_bytes hdr) 0) packet_header_size hdr.length bytes 0

module _ {S : Type 0} (read_poll send_done : ℕ) where
  -- The constructor, from the opened socket on.
  unfoldable pub new_network :
      ℕ → ℕ → Buffer → PacketHeader → Interrupt S → Option (Network × Interrupt S)
  new_network addr this inbox hdr w =
      schedule read_poll this network_time network_recv_int w >>= λ w'. some (
        record {
          ident = addr;
          this = this;
          send_busy = false;
          in_hdr = record hdr { length = 0 };
          inbox = inbox;
          num_packets_recvd = 0;
          num_packets_sent = 0;
        },
        w',
      )

  -- CheckPktAvail: the last result is whether the handler of the reader is called at the end.
  unfoldable pub check_pkt_avail :
      Option Buffer → Network → Interrupt S → Option (Network × Interrupt S × Bool)
  check_pkt_avail packet net w =
      schedule read_poll net.this network_time network_recv_int w >>= λ w'.
      if not (net.in_hdr.length == 0) then some (net, w', false) else elim packet [
        | none ↦ some (net, w', false)
        | some b ↦
            assert_that
              (((header_at b).to == net.ident) && leb (header_at b).length max_packet_size)
            >> some (
              record net {
                in_hdr = header_at b;
                inbox = copy net.inbox 0 (header_at b).length b packet_header_size;
                num_packets_recvd = net.num_packets_recvd + 1;
              },
              w',
              true,
            )
      ]

  -- Send: the last result is the packet for the socket, with the address that it goes to.
  unfoldable pub send :
      Bool
      → Buffer
      → PacketHeader
      → Buffer
      → Network
      → Interrupt S
      → Option (Network × Interrupt S × Option (ℕ × Buffer))
  send lost new hdr bytes net w =
      assert_that (
        not net.send_busy
        && ltb 0 hdr.length
        && leb hdr.length max_packet_size
        && (hdr.from == net.ident))
      >> (schedule send_done net.this network_time network_send_int w >>= λ w'.
          some (net, w', if lost then none else some (hdr.to, wire_packet new hdr bytes)))

-- SendDone, up to the call of the handler of the writer.
abbrev pub packet_done : Network → Network
packet_done net = record net { send_busy = false; num_packets_sent = net.num_packets_sent + 1 }

-- Receive: the header, and what the buffer then holds.
unfoldable pub receive : Network → Buffer → Network × PacketHeader × Buffer
receive net into = (
  record net { in_hdr = record (net.in_hdr) { length = 0 } },
  net.in_hdr,
  if net.in_hdr.length == 0 then into else copy into 0 net.in_hdr.length net.inbox 0,
)
