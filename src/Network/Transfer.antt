-- ===== src/Network/Transfer.antt =====
-- A packet over the wire between two devices of code/machine/network.cc.
use nachos_system_calls.Prelude.{
  ℕ, ◌+◌, ◌-◌, ◌^◌, ◌<◌, ◌≤◌, ◌≡◌, refl, ap, ap₂, ◌∙◌, Bool, true, false, not, ◌&&◌, Option, some,
  [], ◌∷◌, ◌==◌, ltb, leb, if◌then◌else◌, assert_that, ◌>>◌, >>=-some, arith,
}
use nachos_system_calls.Interrupt.{Interrupt, network_send_int, network_recv_int, schedule}
use nachos_system_calls.OpenFile.{Buffer, copy}
use nachos_system_calls.Storage.{word_at}
use nachos_system_calls.Storage.Words.{word_at-words_buffer}
use nachos_system_calls.Network.{
  PacketHeader, Network, header_at, header_bytes, wire_packet, check_pkt_avail, send,
}

-- A header of twelve bytes and a text behind it.
module _ (new head text : Buffer) (len : ℕ) where
  abbrev joined : Buffer
  joined = copy (copy new 0 12 head 0) 12 len text 0

  pub joined_head : (j : ℕ) → j < 12 → joined j ≡ head j
  joined_head j l = front (text (0 + (j - 12))) (head (0 + (j - 0))) (new j) ∙ ap head (omega arith)
    where
      front :
          (x y z : ℕ)
          → (if leb 12 j && ltb j (12 + len)
              then x
              else (if leb 0 j && ltb j (0 + 12) then y else z))
            ≡ y
      front x y z = ground (arith, l)

  pub joined_text : (j : ℕ) → j < len → joined (12 + j) ≡ text j
  joined_text j l =
      back (text (0 + (12 + j - 12))) (copy new 0 12 head 0 (12 + j)) ∙ ap text (omega arith)
    where
      back : (x y : ℕ) → (if leb 12 (12 + j) && ltb (12 + j) (12 + len) then x else y) ≡ x
      back x y = ground (arith, l)

-- The fields are words.
pub record IsHeader (h : PacketHeader) : Type 0 where
  pub to : h.to < 2 ^ 32
  pub from : h.from < 2 ^ 32
  pub length : h.length < 2 ^ 32

abbrev make_header : ℕ → ℕ → ℕ → PacketHeader
make_header a b c = record { to = a; from = b; length = c }

-- The header comes back from its bytes.
pub header_at-header_bytes :
    (h : PacketHeader) (m : Buffer)
    → IsHeader h
    → ((j : ℕ) → j < 12 → m j ≡ header_bytes h j)
    → header_at m ≡ h
header_at-header_bytes h m v e =
    let ws = h.to ∷ h.from ∷ h.length ∷ [] in
    let a : word_at m 0 ≡ h.to =
      word_at-words_buffer ws m 0 0 v.to (λ o l. e (0 + o) (omega (arith, l))) in
    let b : word_at m 4 ≡ h.from =
      word_at-words_buffer ws m 4 1 v.from (λ o l. e (4 + o) (omega (arith, l))) in
    let c : word_at m 8 ≡ h.length =
      word_at-words_buffer ws m 8 2 v.length (λ o l. e (8 + o) (omega (arith, l))) in
    ap₂ (λ x y. make_header x y (word_at m 8)) a b ∙ ap (make_header h.to h.from) c

abbrev took : Network → Buffer → Network
took net b = record net {
  in_hdr = header_at b;
  inbox = copy net.inbox 0 (header_at b).length b 12;
  num_packets_recvd = net.num_packets_recvd + 1;
}

pub asserted : {A : Type 0} {c : Bool} {o : Option A} → c ≡ true → (assert_that c >> o) ≡ o
asserted {o = o} h = ap (λ c. assert_that c >> o) h

pub asserted_both :
    {A : Type 0} {c d : Bool} {o : Option A}
    → c ≡ true
    → d ≡ true
    → (assert_that c >> assert_that d >> o) ≡ o
asserted_both {o = o} h k = ap₂ (λ c d. assert_that c >> assert_that d >> o) h k

-- What the device of the receiver holds.
pub record Holding (net : Network) (h : PacketHeader) (text : Buffer) : Type 0 where
  pub header : net.in_hdr ≡ h
  pub bytes : (j : ℕ) → j < h.length → net.inbox j ≡ text j

module _ {S : Type 0} (read_poll send_done : ℕ) where
  scheduled :
      (handler arg : ℕ) (w : Interrupt S) (send : Bool)
      → (w' : Interrupt S) × (schedule handler arg 100
            (if send then network_send_int else network_recv_int)
            w
          ≡ some w')
  unfolding schedule
  scheduled handler arg w send = (_, refl)

  -- A packet that the sender hands to a device that is not busy and that is not lost is on the
  -- wire, and the device with that address, if it holds no packet, takes it: header and bytes are
  -- the ones of the sender.
  pub send-check_pkt_avail :
      (new text : Buffer) (h : PacketHeader) (net net' : Network) (w v : Interrupt S)
      → IsHeader h
      → net.send_busy ≡ false
      → 0 < h.length
      → h.length ≤ 52
      → h.from ≡ net.ident
      → h.to ≡ net'.ident
      → net'.in_hdr.length ≡ 0
      → (w₁ : Interrupt S) × (p : Buffer) × (net₁ : Network) × (v₁ : Interrupt S) × (send read_poll
            send_done false new h text net w
          ≡ some (net, w₁, some (h.to, p)))
        × (check_pkt_avail read_poll send_done (some p) net' v ≡ some (net₁, v₁, true))
        × (net₁.ident ≡ net'.ident)
        × Holding net₁ h text
  unfolding send check_pkt_avail
  send-check_pkt_avail new text h net net' w v is idle some_bytes fits from to empty =
      let p = wire_packet new h text in
      let e : header_at p ≡ h =
        header_at-header_bytes h p is (joined_head new (header_bytes h) text h.length) in
      let (w₁, q) = scheduled send_done net.this w true in
      let (v₁, r) = scheduled read_poll net'.this v false in
      let accepted : ((header_at p).to == net'.ident) && leb (header_at p).length 52 ≡ true =
        arrived (header_at p).to net'.ident (header_at p).length (ap (λ x. x.to) e ∙ to)
          (omega (arith, fits, ap (λ x. x.length) e)) in
      (
        w₁,
        p,
        took net' p,
        v₁,
        asserted (ready net.send_busy h.length h.from net.ident idle some_bytes fits from)
            ∙ >>=-some _ q,
        >>=-some _ r ∙ free_inbox _ _ net'.in_hdr.length empty ∙ asserted accepted,
        refl,
        record {
          header = e;
          bytes = λ j l.
              let z : 12 + (j - 0) ≡ 12 + j = omega arith in
              kept (p (12 + (j - 0))) (net'.inbox j) j (header_at p).length
                (omega (arith, l, ap (λ x. x.length) e))
              ∙ ap p z
              ∙ joined_text new (header_bytes h) text h.length j l;
        },
      )
    where
      ready :
          (busy : Bool) (n a b : ℕ)
          → busy ≡ false
          → 0 < n
          → n ≤ 52
          → a ≡ b
          → not busy && ltb 0 n && leb n 52 && (a == b) ≡ true
      ready busy n a b x y z u = ground (arith, x, y, z, u)

      arrived : (a b n : ℕ) → a ≡ b → n ≤ 52 → (a == b) && leb n 52 ≡ true
      arrived a b n x y = ground (arith, x, y)

      kept : (x y j n : ℕ) → j < n → (if leb 0 j && ltb j (0 + n) then x else y) ≡ x
      kept x y j n l = ground (arith, l)

      free_inbox : {A : Type 0} (x y : A) (n : ℕ) → n ≡ 0 → (if not (n == 0) then x else y) ≡ y
      free_inbox x y n z = rw z refl
