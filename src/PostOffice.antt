-- ===== src/PostOffice.antt =====
-- code/network/post.cc: mail boxes over the network device. A box is the list of its messages, as
-- class SynchList of code/threads/synchlist.cc keeps them; a Get from an empty box waits and is
-- `none`.
pub mod Delivery
mod Tests
use nachos_system_calls.Prelude.{
  ℕ, ◌+◌, ◌^◌, Bool, true, false, not, ◌&&◌, Option, none, some, List, [], ◌∷◌, ◌++◌, get_elem?,
  set, ◌>>=◌, ◌>>◌, assert_that, ltb, leb,
}
use nachos_system_calls.Interrupt.{Interrupt}
use nachos_system_calls.OpenFile.{Buffer, copy}
use nachos_system_calls.Network.{
  max_packet_size, PacketHeader, Network, header_at, header_bytes, send, receive,
}

-- sizeof(MailHeader) and MaxMailSize.
abbrev pub mail_header_size : ℕ
mail_header_size = 12

abbrev pub max_mail_size : ℕ
max_mail_size = 40

-- class MailHeader has the fields of a PacketHeader.
abbrev pub MailHeader : Type 0
MailHeader = PacketHeader

pub record Mail : Type 0 where
  pub pkt_hdr : PacketHeader
  pub mail_hdr : MailHeader
  pub text : Buffer

-- The constructor of Mail; `new` is what its array of bytes holds before.
abbrev pub new_mail : Buffer → PacketHeader → MailHeader → Buffer → Option Mail
new_mail new pkt_hdr mail_hdr msg =
    assert_that (leb mail_hdr.length max_mail_size)
    >> some
        (record { pkt_hdr = pkt_hdr; mail_hdr = mail_hdr; text = copy new 0 mail_hdr.length msg 0 })

pub record PostOffice : Type 0 where
  pub net_addr : ℕ
  pub num_boxes : ℕ
  pub boxes : List (List Mail)

-- MailBox::Put and MailBox::Get, on the box with this index.
unfoldable pub put_mail :
    Buffer → PostOffice → ℕ → PacketHeader → MailHeader → Buffer → Option PostOffice
put_mail new po box pkt_hdr mail_hdr msg = do
  mail ← new_mail new pkt_hdr mail_hdr msg
  messages ← get_elem? po.boxes box
  some (record po { boxes = set po.boxes box (messages ++ mail ∷ []) })

unfoldable pub get_mail :
    PostOffice → ℕ → Buffer → Option (PostOffice × PacketHeader × MailHeader × Buffer)
get_mail po box into = get_elem? po.boxes box >>= λ messages. elim messages [
  | [] ↦ none
  | mail ∷ rest ↦ some (
    record po { boxes = set po.boxes box rest },
    mail.pkt_hdr,
    mail.mail_hdr,
    copy into 0 mail.mail_hdr.length mail.text 0,
  )
]

-- `0 <= box && box < numBoxes` for the int of a word.
abbrev pub box_there : PostOffice → ℕ → Bool
box_there po box = ltb box (2 ^ 31) && ltb box po.num_boxes

-- One round of the loop of PostalDelivery, after the wait. `buffer` is what its buffer holds.
unfoldable pub deliver : Buffer → Buffer → PostOffice → Network → Option (PostOffice × Network)
deliver new buffer po net =
    let (net', pkt_hdr, bytes) = receive net buffer in
    let mail_hdr = header_at bytes in
    assert_that (box_there po mail_hdr.to)
    >> assert_that (leb mail_hdr.length max_mail_size)
    >> (put_mail new po mail_hdr.to pkt_hdr mail_hdr (λ j. bytes (mail_header_size + j)) >>= λ po'.
        some (po', net'))

-- The buffer that Send fills.
abbrev pub mail_packet : Buffer → MailHeader → Buffer → Buffer
mail_packet new mail_hdr msg =
    copy (copy new 0 mail_header_size (header_bytes mail_hdr) 0) mail_header_size mail_hdr.length
      msg 0

module _ {S : Type 0} (read_poll send_done : ℕ) where
  -- PostOffice::Send, up to the wait for the interrupt. The lock has empty bodies.
  unfoldable pub send_mail :
      Bool
      → Buffer
      → Buffer
      → PostOffice
      → PacketHeader
      → MailHeader
      → Buffer
      → Network
      → Interrupt S
      → Option (Network × Interrupt S × Option (ℕ × Buffer))
  send_mail lost new new' po pkt_hdr mail_hdr msg net w =
      assert_that (leb mail_hdr.length max_mail_size)
      >> assert_that (box_there po mail_hdr.to)
      >> send read_poll send_done lost new'
          (record pkt_hdr { from = po.net_addr; length = mail_hdr.length + mail_header_size })
          (mail_packet new mail_hdr msg) net w

-- PostOffice::Receive, for a box that is not negative.
unfoldable pub receive_mail :
    PostOffice → ℕ → Buffer → Option (PostOffice × PacketHeader × MailHeader × Buffer)
receive_mail po box into =
    assert_that (ltb box po.num_boxes)
    >> (get_mail po box into >>= λ (po', pkt_hdr, mail_hdr, text).
        assert_that (leb mail_hdr.length max_mail_size) >> some (po', pkt_hdr, mail_hdr, text))
