-- ===== src/Chat/Protocol.antt =====
-- The packets of hw5/src/protocol.c. A packet header is its twenty bytes in memory: the type, three
-- bytes of padding, and four fields of four bytes in network byte order.
use cse320_spring.Base.{
  ℕ, zero, suc, ◌+◌, ◌-◌, ◌*◌, ◌%◌, ◌^◌, Bool, true, false, Option, none, some, [], ◌++◌, ◌==◌,
  if◌then◌else◌, length, get_or, take,
}
use cse320_spring.Base.Text.{Bytes}
use cse320_spring.Base.Slices.{drop}

abbrev pub header_bytes : ℕ
header_bytes = 20

-- `ntohl(hdr->payload_length)`
abbrev pub payload_length : Bytes → ℕ
payload_length hdr =
    get_or hdr 4 0 * 2 ^ 24 + get_or hdr 5 0 * 2 ^ 16 + get_or hdr 6 0 * 2 ^ 8 + get_or hdr 7 0

-- What was sent on a connection, and how often `write` was called.
pub record Sender : Type 0 where
  pub sent : Bytes
  pub calls : ℕ

-- A loop of proto_send_packet for `size` bytes of a buffer. In call `k`, for `n` bytes, `write k n` is
-- the number of bytes it takes, or `none` if its result is not positive. The result is false where
-- the code returns -1, and `none` where the fuel runs out.
unfoldable pub write_all : (ℕ → ℕ → Option ℕ) → ℕ → ℕ → Bytes → Sender → Option (Bool × Sender)
write_all write zero size buffer w = none
write_all write (suc fuel) size buffer w =
    let rest = λ (amount_written : ℕ).
      write_all write fuel ((size + 2 ^ 32 - amount_written) % 2 ^ 32) (drop amount_written buffer)
        (record { sent = w.sent ++ take amount_written buffer; calls = suc w.calls }) in
    if size == 0 then some (true, w) else elim (write w.calls size) [
      | none ↦ some (false, record w { calls = suc w.calls })
      | some amount_written ↦ rest amount_written
    ]

-- `proto_send_packet`, with fuel for each loop.
unfoldable pub proto_send_packet :
    (ℕ → ℕ → Option ℕ) → ℕ → ℕ → Bytes → Bytes → Sender → Option (Bool × Sender)
proto_send_packet write fuel fuel' hdr payload w = elim (write_all write fuel header_bytes hdr w) [
  | none ↦ none
  | some r ↦ if r.0 then write_all write fuel' (payload_length hdr) payload r.1 else some r
]

-- What can still be read from a connection, and how often `read` was called.
pub record Receiver : Type 0 where
  pub incoming : Bytes
  pub calls : ℕ

-- What a loop of proto_recv_packet read, and whether it read all.
pub record Filled : Type 0 where
  pub complete : Bool
  pub bytes : Bytes
  pub from : Receiver

-- A loop of proto_recv_packet for `size` bytes after the bytes `got`. In call `k`, for `n` bytes where
-- `m` bytes can still come, `read k n m` is the number of bytes it gives, or `none` if its result is
-- not positive.
unfoldable pub read_all : (ℕ → ℕ → ℕ → Option ℕ) → ℕ → ℕ → Bytes → Receiver → Option Filled
read_all read zero size got r = none
read_all read (suc fuel) size got r =
    let rest = λ (amount_read : ℕ).
      read_all read fuel ((size + 2 ^ 32 - amount_read) % 2 ^ 32)
        (got ++ take amount_read r.incoming)
        (record { incoming = drop amount_read r.incoming; calls = suc r.calls }) in
    if size == 0
    then some (record { complete = true; bytes = got; from = r })
    else elim (read r.calls size (length r.incoming)) [
      | none ↦
          some (record { complete = false; bytes = got; from = record r { calls = suc r.calls } })
      | some amount_read ↦ rest amount_read
    ]

-- The result of proto_recv_packet: whether it returns 0, and what it leaves in `*hdr` and `*payload`.
pub record Received : Type 0 where
  pub ok : Bool
  pub hdr : Bytes
  pub payload : Option Bytes
  pub line : Receiver

-- The part of proto_recv_packet after the header, where `malloc` tells whether malloc gives a buffer
-- of a size, and `old` is the value of `*payload` before the call.
unfoldable pub recv_payload :
    (ℕ → ℕ → ℕ → Option ℕ) → (ℕ → Bool) → ℕ → Bytes → Option Bytes → Receiver → Option Received
recv_payload read malloc fuel hdr old r =
    let size = payload_length hdr in
    if size == 0
    then some (record { ok = true; hdr = hdr; payload = old; line = r })
    else if malloc size
    then elim (read_all read fuel size [] r) [
      | none ↦ none
      | some f ↦ some (record {
        ok = f.complete;
        hdr = hdr;
        payload = if f.complete then some f.bytes else old;
        line = f.from;
      })
    ]
    else some (record { ok = false; hdr = hdr; payload = old; line = r })

-- `proto_recv_packet`, with fuel for each loop.
unfoldable pub proto_recv_packet :
    (ℕ → ℕ → ℕ → Option ℕ) → (ℕ → Bool) → ℕ → ℕ → Bytes → Option Bytes → Receiver → Option Received
proto_recv_packet read malloc fuel fuel' hdr old r = elim (read_all read fuel header_bytes [] r) [
  | none ↦ none
  | some f ↦
      if f.complete
      then recv_payload read malloc fuel' f.bytes old f.from
      else some (record {
        ok = false;
        hdr = f.bytes ++ drop (length f.bytes) hdr;
        payload = old;
        line = f.from;
      })
]
