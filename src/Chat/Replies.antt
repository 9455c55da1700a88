-- ===== src/Chat/Replies.antt =====
-- The replies of hw5/src/client.c to a client's packet, client_send_ack and client_send_nack.
use cse320_spring.Base.{
  ℕ, ◌/◌, ◌%◌, ◌^◌, ◌≤◌, ◌<◌, ◌≡◌, sym, ap, subst, ◌∙◌, Bool, true, false, Option, none, some, [],
  ◌∷◌, ◌++◌, ◌==◌, if◌then◌else◌, length, take, arith, length-append,
}
use cse320_spring.Base.Text.{Bytes}
use cse320_spring.Chat.Protocol.{payload_length, Sender, proto_send_packet, proto_recv_packet}
use cse320_spring.Chat.Sending.{IsWrite}
use cse320_spring.Chat.Receiving.{IsRead, proto_recv_packet-proto_send_packet}

-- `CHLA_ACK_PKT` and `CHLA_NACK_PKT`
abbrev pub ack_pkt : ℕ
ack_pkt = 5

abbrev pub nack_pkt : ℕ
nack_pkt = 6

-- `htonl`: the bytes of a 32-bit number, the highest first.
abbrev pub htonl : ℕ → Bytes
htonl n = n / 2 ^ 24 % 256 ∷ n / 2 ^ 16 % 256 ∷ n / 2 ^ 8 % 256 ∷ n % 256 ∷ []

-- The header of a reply. The four bytes of `msgid` are in network byte order already.
abbrev pub reply_header : ℕ → ℕ → Bytes → ℕ × ℕ → Bytes
reply_header type size msgid timestamp =
    type ∷ 0 ∷ 0 ∷ 0 ∷ (htonl size ++ (msgid ++ (htonl timestamp.0 ++ htonl timestamp.1)))

-- `client_send_packet` on the connection of the client.
unfoldable pub client_send_packet :
    (ℕ → ℕ → Option ℕ) → ℕ → ℕ → Bytes → Bytes → Sender → Option (Bool × Sender)
client_send_packet write fuel fuel' pkt content w = proto_send_packet write fuel fuel' pkt content w

-- `client_send_ack` on the connection of the client, where `clock` is what clock_gettime gives. Without
-- space for the header it writes to NULL.
unfoldable pub client_send_ack :
    (ℕ → ℕ → Option ℕ)
    → ℕ
    → ℕ
    → Bool
    → Option (ℕ × ℕ)
    → Bytes
    → Bytes
    → ℕ
    → Sender
    → Option (Bool × Sender)
client_send_ack write fuel fuel' space none msgid content datalen w =
    if space then some (false, w) else none
client_send_ack write fuel fuel' space (some timestamp) msgid content datalen w =
    if space
    then client_send_packet write fuel fuel' (reply_header ack_pkt datalen msgid timestamp) content
        w
    else none

unfoldable pub client_send_nack :
    (ℕ → ℕ → Option ℕ) → ℕ → ℕ → Bool → Option (ℕ × ℕ) → Bytes → Sender → Option (Bool × Sender)
client_send_nack write fuel fuel' space none msgid w = if space then some (false, w) else none
client_send_nack write fuel fuel' space (some timestamp) msgid w =
    if space
    then client_send_packet write fuel fuel' (reply_header nack_pkt 0 msgid timestamp) [] w
    else none

pub payload_length-reply_header :
    (type size : ℕ) (msgid : Bytes) (timestamp : ℕ × ℕ)
    → size < 2 ^ 32
    → payload_length (reply_header type size msgid timestamp) ≡ size
payload_length-reply_header type size msgid timestamp small = omega arith

pub length-reply_header :
    (type size : ℕ) (msgid : Bytes) (timestamp : ℕ × ℕ)
    → length msgid ≡ 4
    → length (reply_header type size msgid timestamp) ≡ 20
length-reply_header type size msgid timestamp four =
    omega (arith, length-append msgid (htonl timestamp.0 ++ htonl timestamp.1))

-- Where client_send_ack returned 0 for a message id of four bytes and data of `datalen` bytes at least,
-- and what it sent comes before other bytes at a call of proto_recv_packet, that call returns 0 with
-- the header of the reply and the first `datalen` bytes of the data, however `write` and `read` split
-- them, the payload's pointer as it was if `datalen` is 0, and the other bytes can still be read.
pub proto_recv_packet-client_send_ack :
    (write : ℕ → ℕ → Option ℕ) (read : ℕ → ℕ → ℕ → Option ℕ) (malloc : ℕ → Bool)
    (fuel fuel' calls datalen : ℕ) (timestamp : ℕ × ℕ) (msgid content more buffer : Bytes)
    (old : Option Bytes) (w : Sender)
    → IsWrite write
    → IsRead read
    → length msgid ≡ 4
    → datalen ≤ length content
    → datalen < 2 ^ 32
    → malloc datalen ≡ true
    → 20 < fuel
    → datalen < fuel'
    → client_send_ack write fuel fuel' true
        (some timestamp)
        msgid
        content
        datalen
        (record { sent = []; calls = 0 })
      ≡ some (true, w)
    → (calls' : ℕ) × (proto_recv_packet read malloc fuel fuel' buffer old
          (record { incoming = w.sent ++ more; calls = calls })
        ≡ some (record {
          ok = true;
          hdr = reply_header ack_pkt datalen msgid timestamp;
          payload = if datalen == 0 then old else some (take datalen content);
          line = record { incoming = more; calls = calls' };
        }))
unfolding client_send_ack client_send_packet
proto_recv_packet-client_send_ack write read malloc fuel fuel' calls datalen timestamp msgid content
      more buffer old w ok ok' four long small space enough enough' sending =
    let hdr = reply_header ack_pkt datalen msgid timestamp in
    let size = payload_length-reply_header ack_pkt datalen msgid timestamp small in
    let (calls', run) =
      proto_recv_packet-proto_send_packet write read malloc fuel fuel' calls hdr content more buffer
        old w ok ok' (length-reply_header ack_pkt datalen msgid timestamp four)
        (subst (λ n. n ≤ length content) (sym size) long) (subst (λ n. n < 2 ^ 32) (sym size) small)
        (subst (λ n. malloc n ≡ true) (sym size) space) enough
        (subst (λ n. n < fuel') (sym size) enough') sending in
    (
      calls',
      run
          ∙ ap
              (λ n. some (record {
                ok = true;
                hdr = hdr;
                payload = if n == 0 then old else some (take n content);
                line = record { incoming = more; calls = calls' };
              }))
              size,
    )
