-- ===== src/Chat/Receiving.antt =====
-- What proto_recv_packet of hw5/src/protocol.c receives, however `read` splits it.
use mathlib.Core.Option.{some-injective}
use mathlib.Core.List.{append_assoc, append-nil}
use cse320_spring.Base.{
  ℕ, zero, suc, ◌+◌, ◌-◌, ◌%◌, ◌^◌, ◌≤◌, ◌<◌, ◌≡◌, ◌≢◌, sym, ap, subst, ◌∙◌, inl, inr, Bool, true,
  Option, some, [], ◌∷◌, ◌++◌, ◌==◌, ==-eq-false, eq_cases, if◌then◌else◌, length, take, arith,
  length-append, length-take,
}
use cse320_spring.Base.Text.{Bytes}
use cse320_spring.Base.Slices.{drop, take_add, drop_add, length-drop, take-length, drop-length}
use cse320_spring.Chat.Protocol.{
  payload_length, Receiver, Filled, Received, read_all, recv_payload, proto_recv_packet, Sender,
  proto_send_packet,
}
use cse320_spring.Chat.Sending.{IsWrite, IsSent, all_sent, stopped, proto_send_packet-IsSent}

-- A call of `read` gives bytes where bytes can come, one at least, and not more than were asked for.
abbrev pub IsRead : (ℕ → ℕ → ℕ → Option ℕ) → Type 0
IsRead read =
    (k n m : ℕ) → n ≢ 0 → m ≢ 0 → (a : ℕ) × (read k n m ≡ some a) × (0 < a) × (a ≤ n) × (a ≤ m)

abbrev filled : Bytes → Bytes → ℕ → Filled
filled b i calls = record {
  complete = true;
  bytes = b;
  from = record { incoming = i; calls = calls };
}

same_filled :
    {b b' i i' : Bytes} (calls : ℕ)
    → b ≡ b'
    → i ≡ i'
    → some (filled b i calls) ≡ some (filled b' i' calls)
same_filled calls e f = rw (e, f)

join_chunks :
    (got xs : Bytes) (a b n : ℕ)
    → a + b ≡ n
    → got ++ take a xs ++ take b (drop a xs) ≡ got ++ take n xs
join_chunks got xs a b n e =
    append_assoc got (take a xs) (take b (drop a xs))
    ∙ ap (λ l. got ++ l) (take_add a b xs ∙ ap (λ k. take k xs) e)

module _ (read : ℕ → ℕ → ℕ → Option ℕ) (ok : IsRead read) where
  read_all_lem :
      (fuel size : ℕ) (got : Bytes) (r : Receiver)
      → size < fuel
      → size ≤ length r.incoming
      → size < 2 ^ 32
      → (calls : ℕ) × (read_all read fuel size got r
          ≡ some (filled (got ++ take size r.incoming) (drop size r.incoming) calls))
  unfolding read_all
  read_all_lem zero size got r enough _ _ = absurd (omega arith)
  read_all_lem (suc fuel) size got r enough long small = elim (eq_cases size 0) [
    | inl e ↦ (
      r.calls,
      rw (e)
          (ap (λ b. some (record { complete = true; bytes = b; from = r })) (sym (append-nil got))),
    )
    | inr ne ↦
        let (a, e, pos, le, le') = ok r.calls size (length r.incoming) ne (omega arith) in
        let size' = (size + 2 ^ 32 - a) % 2 ^ 32 in
        let whole : a + size' ≡ size = omega arith in
        let r' : Receiver = record { incoming = drop a r.incoming; calls = suc r.calls } in
        let (calls, run) =
          read_all_lem fuel size' (got ++ take a r.incoming) r' (omega arith)
            (omega (arith, length-drop a r.incoming)) (omega arith) in
        (
          calls,
          rw (==-eq-false size 0 ne, e)
              (run
                ∙ same_filled calls (join_chunks got r.incoming a size' size whole)
                    (drop_add a size' r.incoming ∙ ap (λ n. drop n r.incoming) whole)),
        )
  ]

  -- The bytes `xs`, and then others, come: the loop reads `xs`.
  read_all-append :
      (fuel calls : ℕ) (xs more : Bytes)
      → length xs < fuel
      → length xs < 2 ^ 32
      → (calls' : ℕ) × (read_all read fuel
            (length xs)
            []
            (record { incoming = xs ++ more; calls = calls })
          ≡ some (filled xs more calls'))
  read_all-append fuel calls xs more enough small =
      let (calls', run) =
        read_all_lem fuel (length xs) [] (record { incoming = xs ++ more; calls = calls }) enough
          (omega (arith, length-append xs more)) small in
      (calls', run ∙ same_filled calls' (take-length xs more) (drop-length xs more))

  recv_payload-append :
      (malloc : ℕ → Bool) (fuel calls : ℕ) (hdr xs more : Bytes) (old : Option Bytes)
      → length xs ≡ payload_length hdr
      → malloc (payload_length hdr) ≡ true
      → length xs < fuel
      → length xs < 2 ^ 32
      → (calls' : ℕ) × (recv_payload read malloc fuel hdr old
            (record { incoming = xs ++ more; calls = calls })
          ≡ some (record {
            ok = true;
            hdr = hdr;
            payload = if length xs == 0 then old else some xs;
            line = record { incoming = more; calls = calls' };
          }))
  unfolding recv_payload
  recv_payload-append malloc fuel calls hdr [] more old size space enough small =
      (calls, rw (recv_payload, ← size))
  recv_payload-append malloc fuel calls hdr (x ∷ xs) more old size space enough small =
      let (calls', run) = read_all-append fuel calls (x ∷ xs) more enough small in
      (
        calls',
        rw (
          recv_payload,
          ← size,
          ==-eq-false (length (x ∷ xs)) 0 (omega arith),
          ap malloc size ∙ space,
          run,
        ),
      )

  -- For incoming bytes that are a header of twenty bytes, a payload of the length it tells of, and
  -- others, where `malloc` gives a buffer of that length and with fuel for each byte and one round
  -- more for each loop, proto_recv_packet returns 0 with that header and that payload, the payload's
  -- pointer as it was if the payload is empty, and the others can still be read.
  pub proto_recv_packet-append :
      (malloc : ℕ → Bool) (fuel fuel' calls : ℕ) (hdr xs more buffer : Bytes) (old : Option Bytes)
      → length hdr ≡ 20
      → length xs ≡ payload_length hdr
      → malloc (payload_length hdr) ≡ true
      → 20 < fuel
      → length xs < fuel'
      → length xs < 2 ^ 32
      → (calls' : ℕ) × (proto_recv_packet read malloc fuel fuel' buffer old
            (record { incoming = hdr ++ (xs ++ more); calls = calls })
          ≡ some (record {
            ok = true;
            hdr = hdr;
            payload = if length xs == 0 then old else some xs;
            line = record { incoming = more; calls = calls' };
          }))
  unfolding proto_recv_packet
  proto_recv_packet-append malloc fuel fuel' calls hdr xs more buffer old twenty size space enough
        enough' small =
      let (calls₁, run) = read_all-append fuel calls hdr (xs ++ more) (omega arith) (omega arith) in
      let (calls₂, run') =
        recv_payload-append malloc fuel' calls₁ hdr xs more old size space enough' small in
      (calls₂, rw (proto_recv_packet, ← twenty, run, run'))

abbrev delivered : Bytes → Option Bytes → Bytes → ℕ → Received
delivered hdr payload more calls = record {
  ok = true;
  hdr = hdr;
  payload = payload;
  line = record { incoming = more; calls = calls };
}

IsSent-true :
    (write : ℕ → ℕ → Option ℕ) (full : Bytes) (w : Sender)
    → IsSent write 0 full (true, w)
    → w.sent ≡ full
IsSent-true write full w (all_sent y l e) = e
IsSent-true write full w (stopped rest j n y e c l pos len z) = absurd (cc)

-- Where proto_send_packet returned 0 for a header of twenty bytes and a payload that has the bytes its
-- length tells of, and what it sent comes before other bytes at a call of proto_recv_packet in which
-- malloc gives the buffer and no call of `read` fails while there are bytes, with fuel for each byte and
-- one round more for each loop, that call returns 0 with the same header and those bytes of the
-- payload, however `write` and `read` split them, the payload's pointer as it was if there are none,
-- and the other bytes can still be read.
pub proto_recv_packet-proto_send_packet :
    (write : ℕ → ℕ → Option ℕ) (read : ℕ → ℕ → ℕ → Option ℕ) (malloc : ℕ → Bool)
    (fuel fuel' calls : ℕ) (hdr payload more buffer : Bytes) (old : Option Bytes) (w : Sender)
    → IsWrite write
    → IsRead read
    → length hdr ≡ 20
    → payload_length hdr ≤ length payload
    → payload_length hdr < 2 ^ 32
    → malloc (payload_length hdr) ≡ true
    → 20 < fuel
    → payload_length hdr < fuel'
    → proto_send_packet write fuel fuel' hdr payload (record { sent = []; calls = 0 })
      ≡ some (true, w)
    → (calls' : ℕ) × (proto_recv_packet read malloc fuel fuel' buffer old
          (record { incoming = w.sent ++ more; calls = calls })
        ≡ some (record {
          ok = true;
          hdr = hdr;
          payload =
              if payload_length hdr == 0 then old else some (take (payload_length hdr) payload);
          line = record { incoming = more; calls = calls' };
        }))
proto_recv_packet-proto_send_packet write read malloc fuel fuel' calls hdr payload more buffer old w
      ok ok' twenty long small space enough enough' sending =
    let (r, run, is_sent) =
      proto_send_packet-IsSent write ok fuel fuel' hdr payload (record { sent = []; calls = 0 })
        twenty long small enough enough' in
    let same : r ≡ (true, w) = some-injective r (true, w) (sym run ∙ sending) in
    let xs = take (payload_length hdr) payload in
    let size : length xs ≡ payload_length hdr = length-take (payload_length hdr) payload long in
    let (calls', received) =
      proto_recv_packet-append read ok' malloc fuel fuel' calls hdr xs more buffer old twenty size
        space enough (omega arith) (omega arith) in
    let sent : w.sent ≡ hdr ++ xs =
      IsSent-true write (hdr ++ xs) w (subst (λ q. IsSent write 0 (hdr ++ xs) q) same is_sent) in
    (
      calls',
      subst
          (λ i.
            proto_recv_packet read malloc fuel fuel' buffer old
              (record { incoming = i; calls = calls })
            ≡ some (delivered hdr (if payload_length hdr == 0 then old else some xs) more calls'))
          (sym (ap (λ l. l ++ more) sent ∙ append_assoc hdr xs more))
          (received
            ∙ ap (λ n. some (delivered hdr (if n == 0 then old else some xs) more calls')) size),
    )
