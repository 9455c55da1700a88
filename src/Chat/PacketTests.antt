-- ===== src/Chat/PacketTests.antt =====
-- Packets of hw5 sent and received seven and five bytes at a time, and their theorems applied there.
use cse320_spring.Base.{
  ℕ, ◌≡◌, ◌<◌, ◌≤◌, ◌≢◌, refl, some, none, [], ◌∷◌, ◌++◌, arith, true, if◌then◌else◌, ◌==◌, ltb,
  Bool-cases, inl, inr, ==-eq-false, Option, Bool,
}
use cse320_spring.Base.Text.{Bytes}
use cse320_spring.Chat.Protocol.{Sender, write_all, proto_send_packet, proto_recv_packet}
use cse320_spring.Chat.Sending.{IsWrite, IsSent, proto_send_packet-IsSent}
use cse320_spring.Chat.Receiving.{IsRead, proto_recv_packet-proto_send_packet}
use cse320_spring.Chat.Replies.{ack_pkt, reply_header, client_send_ack, client_send_packet}

-- At most `most` of `n` bytes, and none if there are none.
abbrev up_to : ℕ → ℕ → Option ℕ
up_to most n = if n == 0 then none else if ltb most n then some most else some n

abbrev write : ℕ → ℕ → Option ℕ
write k n = up_to 7 n

abbrev read : ℕ → ℕ → ℕ → Option ℕ
read k n m = if ltb n m then up_to 5 n else up_to 5 m

write-IsWrite : IsWrite write
write-IsWrite k n a h = (ground arith, ground arith)

up_to-some : (n : ℕ) → n ≢ 0 → (a : ℕ) × (up_to 5 n ≡ some a) × (0 < a) × (a ≤ n)
up_to-some n h = elim (Bool-cases (ltb 5 n)) [
  | inl e ↦ (5, rw (==-eq-false n 0 h, e), omega arith, ground arith)
  | inr e ↦ (n, rw (==-eq-false n 0 h, e), omega arith, omega arith)
]

read-IsRead : IsRead read
read-IsRead k n m h h' = elim (Bool-cases (ltb n m)) [
  | inl e ↦ let (a, r, p, l) = up_to-some n h in (a, rw (e) r, p, l, ground arith)
  | inr e ↦ let (a, r, p, l) = up_to-some m h' in (a, rw (e) r, p, ground arith, l)
]

-- A message of two bytes with the id 9.
abbrev hdr : Bytes
hdr = 4 ∷ 0 ∷ 0 ∷ 0 ∷ 0 ∷ 0 ∷ 0 ∷ 2 ∷ 0 ∷ 0 ∷ 0 ∷ 9 ∷ 0 ∷ 0 ∷ 0 ∷ 1 ∷ 0 ∷ 0 ∷ 0 ∷ 1 ∷ []

abbrev hi : Bytes
hi = 104 ∷ 105 ∷ []

abbrev nothing : Sender
nothing = record { sent = []; calls = 0 }

proto_send_packet-IsSent_example :
    (r : Bool × Sender) × (proto_send_packet write 21 3 hdr hi nothing ≡ some r)
    × IsSent write 0 ([] ++ hdr ++ hi) r
proto_send_packet-IsSent_example =
    proto_send_packet-IsSent write write-IsWrite 21 3 hdr hi nothing refl (omega arith)
      (omega arith) (omega arith) (omega arith)

proto_send_packet_run :
    proto_send_packet write 21 3 hdr hi nothing
    ≡ some (true, record { sent = hdr ++ hi; calls = 4 })
unfolding proto_send_packet write_all
proto_send_packet_run = refl

proto_recv_packet-proto_send_packet_example :
    (calls : ℕ) × (proto_recv_packet read
        (λ n. true)
        21
        3
        []
        none
        (record { incoming = (hdr ++ hi) ++ (1 ∷ []); calls = 0 })
      ≡ some (record {
        ok = true;
        hdr = hdr;
        payload = some hi;
        line = record { incoming = 1 ∷ []; calls = calls };
      }))
proto_recv_packet-proto_send_packet_example =
    proto_recv_packet-proto_send_packet write read (λ n. true) 21 3 0 hdr hi (1 ∷ []) [] none
      (record { sent = hdr ++ hi; calls = 4 }) write-IsWrite read-IsRead refl (omega arith)
      (omega arith) refl (omega arith) (omega arith) proto_send_packet_run

abbrev id : Bytes
id = 0 ∷ 0 ∷ 0 ∷ 9 ∷ []

client_send_ack_run :
    client_send_ack write 21 3 true (some (1, 1)) id hi 2 nothing
    ≡ some (true, record { sent = reply_header ack_pkt 2 id (1, 1) ++ hi; calls = 4 })
unfolding client_send_ack client_send_packet proto_send_packet write_all
client_send_ack_run = refl
