-- ===== src/PostOffice/Delivery.antt =====
-- A message of code/network/post.cc from the Send of one machine to a mail box of another.
use nachos_system_calls.Prelude.{
  ℕ, ◌+◌, ◌-◌, ◌^◌, ◌<◌, ◌≤◌, ◌≡◌, refl, sym, ap, subst, ◌∙◌, true, false, ◌&&◌, Option, some, List,
  [], ◌∷◌, ◌++◌, get_elem?, set, ◌==◌, ltb, leb, if◌then◌else◌, assert_that, ◌>>◌, ◌>>=◌, arith,
}
use nachos_system_calls.Interrupt.{Interrupt}
use nachos_system_calls.OpenFile.{Buffer, copy}
use nachos_system_calls.Network.{
  PacketHeader, Network, header_at, header_bytes, check_pkt_avail, receive,
}
use nachos_system_calls.Network.Transfer.{
  joined_head, joined_text, IsHeader, header_at-header_bytes, asserted_both, Holding,
  send-check_pkt_avail,
}
use nachos_system_calls.PostOffice.{
  MailHeader, Mail, PostOffice, put_mail, box_there, deliver, mail_packet, send_mail,
}

-- The message as it lies in the box.
pub record Holds (mail : Mail) (from : PacketHeader) (mail_hdr : MailHeader) (msg : Buffer)
    : Type 0 where
  pub packet : mail.pkt_hdr ≡ from
  pub header : mail.mail_hdr ≡ mail_hdr
  pub text : (j : ℕ) → j < mail_hdr.length → mail.text j ≡ msg j

-- What Receive of the device copies.
received :
    (n : ℕ) (buffer inbox : Buffer) (j : ℕ)
    → j < n
    → (if n == 0 then buffer else copy buffer 0 n inbox 0) j ≡ inbox j
received n buffer inbox j l =
    ap (λ c. (if c then buffer else copy buffer 0 n inbox 0) j) (some_bytes n l)
    ∙ inside (inbox (0 + (j - 0))) (buffer j)
    ∙ ap inbox (omega arith)
  where
    some_bytes : (n : ℕ) → j < n → (n == 0) ≡ false
    some_bytes n l = ground (arith, l)

    inside : (x y : ℕ) → (if leb 0 j && ltb j (0 + n) then x else y) ≡ x
    inside x y = ground (arith, l)

module _ (new buffer msg new' : Buffer) (po : PostOffice) (net : Network) (h : PacketHeader)
    (mail_hdr : MailHeader) (messages : List Mail)
    (holding : Holding net h (mail_packet new' mail_hdr msg))
    (size : h.length ≡ mail_hdr.length + 12) (is : IsHeader mail_hdr) (small : mail_hdr.length ≤ 40)
    (there : box_there po mail_hdr.to ≡ true)
    (box : get_elem? po.boxes mail_hdr.to ≡ some messages) where
  abbrev bytes : Buffer
  bytes = if net.in_hdr.length == 0 then buffer else copy buffer 0 net.in_hdr.length net.inbox 0

  got : (j : ℕ) → j < mail_hdr.length + 12 → bytes j ≡ mail_packet new' mail_hdr msg j
  got j l =
      received net.in_hdr.length buffer net.inbox j
        (omega (arith, l, size, ap (λ x. x.length) holding.header))
      ∙ holding.bytes j (omega (arith, l, size))

  abbrev emptied : Network
  emptied = record net { in_hdr = record (net.in_hdr) { length = 0 } }

  abbrev Delivers : Option (PostOffice × Network) → Type 0
  Delivers o =
      (mail : Mail) × (net' : Network) × (o
        ≡ some (record po { boxes = set po.boxes mail_hdr.to (messages ++ mail ∷ []) }, net'))
      × (net'.in_hdr.length ≡ 0)
      × Holds mail h mail_hdr msg

  boxed : Delivers (
      assert_that (box_there po mail_hdr.to)
      >> assert_that (leb mail_hdr.length 40)
      >> (put_mail new po mail_hdr.to net.in_hdr mail_hdr (λ j. bytes (12 + j)) >>= λ po'.
          some (po', emptied)))
  unfolding put_mail
  boxed =
      let fits : leb mail_hdr.length 40 ≡ true = ground (arith, small) in
      (
        record {
          pkt_hdr = net.in_hdr;
          mail_hdr = mail_hdr;
          text = copy new 0 mail_hdr.length (λ j. bytes (12 + j)) 0;
        },
        emptied,
        asserted_both there fits ∙ rw (fits, box) refl,
        refl,
        record {
          packet = holding.header;
          header = refl;
          text = λ j l.
              inside (bytes (12 + (0 + (j - 0)))) (new j) mail_hdr.length j l
              ∙ ap bytes (index j)
              ∙ got (12 + j) (omega (arith, l))
              ∙ joined_text new' (header_bytes mail_hdr) msg mail_hdr.length j l;
        },
      )
    where
      inside : (x y n j : ℕ) → j < n → (if leb 0 j && ltb j (0 + n) then x else y) ≡ x
      inside x y n j l = ground (arith, l)

      index : (j : ℕ) → 12 + (0 + (j - 0)) ≡ 12 + j
      index j = omega arith

  -- PostalDelivery of a packet that the device holds: its message is put behind the others in its
  -- box.
  delivered : Delivers (deliver new buffer po net)
  unfolding deliver receive
  delivered =
      let e : header_at bytes ≡ mail_hdr = header_at-header_bytes mail_hdr bytes is (λ j l.
        got j (omega (arith, l))
        ∙ joined_head new' (header_bytes mail_hdr) msg mail_hdr.length j l) in
      subst
        (λ hd. Delivers (
          assert_that (box_there po hd.to)
          >> assert_that (leb hd.length 40)
          >> (put_mail new po hd.to net.in_hdr hd (λ j. bytes (12 + j)) >>= λ po'.
              some (po', emptied))))
        (sym e) boxed

-- A message that Send accepts, from a machine whose device is not busy, and that is not lost on the
-- wire: the device of the machine that it is for takes the packet if it holds none, and
-- PostalDelivery of that machine puts the message behind the others in its box, with the mail
-- header and the bytes that were sent and with the address of the sender, and leaves the device
-- free for the next packet.
pub send_mail-deliver :
    {S : Type 0} (read_poll send_done : ℕ) (new new' new'' buffer msg : Buffer)
    (po po' : PostOffice) (to : PacketHeader) (mail_hdr : MailHeader) (messages : List Mail)
    (net net' : Network) (w v : Interrupt S)
    → mail_hdr.length ≤ 40
    → IsHeader mail_hdr
    → IsHeader to
    → net.ident < 2 ^ 32
    → box_there po mail_hdr.to ≡ true
    → po.net_addr ≡ net.ident
    → net.send_busy ≡ false
    → to.to ≡ net'.ident
    → net'.in_hdr.length ≡ 0
    → box_there po' mail_hdr.to ≡ true
    → get_elem? po'.boxes mail_hdr.to ≡ some messages
    → (w₁ : Interrupt S) × (p : Buffer) × (net₁ : Network) × (v₁ : Interrupt S) × (send_mail
          read_poll send_done false new new' po to mail_hdr msg net w
        ≡ some (net, w₁, some (to.to, p)))
      × (check_pkt_avail read_poll send_done (some p) net' v ≡ some (net₁, v₁, true))
      × ((mail : Mail) × (net₂ : Network) × (deliver new'' buffer po' net₁
            ≡ some (record po' { boxes = set po'.boxes mail_hdr.to (messages ++ mail ∷ []) }, net₂))
          × (net₂.in_hdr.length ≡ 0)
          × Holds mail
              (record to { from = po.net_addr; length = mail_hdr.length + 12 })
              mail_hdr
              msg)
unfolding send_mail
send_mail-deliver {S} read_poll send_done new new' new'' buffer msg po po' to mail_hdr messages net
      net' w v small is is_to addr here own idle there empty box listed =
    let h : PacketHeader = record to { from = po.net_addr; length = mail_hdr.length + 12 } in
    let (w₁, p, net₁, v₁, sent, taken, ident, holding) =
      send-check_pkt_avail read_poll send_done new' (mail_packet new mail_hdr msg) h net net' w v
        (record { to = is_to.to; from = omega (arith, addr, own); length = omega (arith, small) })
        idle (omega arith) (omega (arith, small)) own there empty in
    (
      w₁,
      p,
      net₁,
      v₁,
      asserted_both (fits mail_hdr.length small) here ∙ sent,
      taken,
      delivered new'' buffer msg new po' net₁ h mail_hdr messages holding refl is small box listed,
    )
  where
    fits : (n : ℕ) → n ≤ 40 → leb n 40 ≡ true
    fits n l = ground (arith, l)
