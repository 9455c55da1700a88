-- ===== src/Chat/Sending.antt =====
-- What proto_send_packet of hw5/src/protocol.c sends, however `write` splits it.
use mathlib.Core.List.{append_assoc, append-nil}
use cse320_spring.Base.{
  ℕ, zero, suc, ◌+◌, ◌-◌, ◌%◌, ◌^◌, ◌≤◌, ◌<◌, ◌≡◌, refl, sym, ap, subst, ◌∙◌, inl, inr, Bool, true,
  false, Option, none, some, ◌++◌, ==-eq-false, eq_cases, length, length-take, length-append, take,
  arith, Option-cases,
}
use cse320_spring.Base.Text.{Bytes}
use cse320_spring.Base.Slices.{drop, take_add, length-drop, take_all}
use cse320_spring.Chat.Protocol.{payload_length, Sender, write_all, proto_send_packet}

-- A call of `write` that takes bytes takes one at least, and not more than it was given.
abbrev pub IsWrite : (ℕ → ℕ → Option ℕ) → Type 0
IsWrite write = (k n a : ℕ) → write k n ≡ some a → (0 < a) × (a ≤ n)

-- All bytes of `full` were sent, or a first part of them, and then the last call of `write` failed: the
-- one that the sender made last, after `first` calls or more, for some of the bytes that were left.
pub data IsSent (write : ℕ → ℕ → Option ℕ) (first : ℕ) (full : Bytes) (r : Bool × Sender)
    : Type 0 where
  all_sent : r.0 ≡ true → first ≤ r.1.calls → r.1.sent ≡ full → IsSent write first full r
  stopped :
      (rest : Bytes) (j n : ℕ)
      → r.0 ≡ false
      → r.1.sent ++ rest ≡ full
      → r.1.calls ≡ suc j
      → first ≤ j
      → 0 < n
      → n ≤ length rest
      → write j n ≡ none
      → IsSent write first full r

-- Fewer calls were made before.
IsSent-earlier :
    (write : ℕ → ℕ → Option ℕ) (first later : ℕ) (full : Bytes) (r : Bool × Sender)
    → first ≤ later
    → IsSent write later full r
    → IsSent write first full r
IsSent-earlier write first later full r le (all_sent y l e) = all_sent y (omega arith) e
IsSent-earlier write first later full r le (stopped rest j n y e c l pos len z) =
    stopped rest j n y e c (omega arith) pos len z

module _ (write : ℕ → ℕ → Option ℕ) (ok : IsWrite write) where
  write_all-IsSent :
      (fuel size : ℕ) (buffer : Bytes) (w : Sender)
      → size < fuel
      → size ≤ length buffer
      → size < 2 ^ 32
      → (r : Bool × Sender) × (write_all write fuel size buffer w ≡ some r)
        × IsSent write w.calls (w.sent ++ take size buffer) r
  unfolding write_all
  write_all-IsSent zero size buffer w enough _ _ = absurd (omega arith)
  write_all-IsSent (suc fuel) size buffer w enough long small = elim (eq_cases size 0) [
    | inl e ↦ (
      (true, w),
      rw (e),
      all_sent refl (omega arith)
          (sym (append-nil w.sent) ∙ ap (λ n. w.sent ++ take n buffer) (sym e)),
    )
    | inr ne ↦ elim (Option-cases (write w.calls size)) [
      | inl e ↦ (
        (false, record w { calls = suc w.calls }),
        rw (==-eq-false size 0 ne, e),
        stopped (take size buffer) w.calls size refl refl refl (omega arith) (omega arith)
            (omega (arith, length-take size buffer long)) e,
      )
      | inr (a, e) ↦
          let (pos, le) = ok w.calls size a e in
          let size' = (size + 2 ^ 32 - a) % 2 ^ 32 in
          let whole : a + size' ≡ size = omega arith in
          let w' : Sender = record { sent = w.sent ++ take a buffer; calls = suc w.calls } in
          let (r, run, sent) =
            write_all-IsSent fuel size' (drop a buffer) w' (omega arith)
              (omega (arith, length-drop a buffer)) (omega arith) in
          (
            r,
            rw (==-eq-false size 0 ne, e) run,
            IsSent-earlier write w.calls (suc w.calls) (w.sent ++ take size buffer) r (omega arith)
                (subst (λ f. IsSent write (suc w.calls) f r)
                  (append_assoc w.sent (take a buffer) (take size' (drop a buffer))
                    ∙ ap (λ l. w.sent ++ l)
                        (take_add a size' buffer ∙ ap (λ n. take n buffer) whole))
                  sent),
          )
    ]
  ]

  -- For a header of twenty bytes and a payload that has the bytes its length tells of, with fuel for
  -- each byte and one round more for each loop, proto_send_packet returns. It returns 0 after it sent
  -- the header and that many bytes of the payload. Or it returns -1 after it sent a first part of these
  -- bytes and its last call of `write`, for one or more of the bytes that were left, failed.
  pub proto_send_packet-IsSent :
      (fuel fuel' : ℕ) (hdr payload : Bytes) (w : Sender)
      → length hdr ≡ 20
      → payload_length hdr ≤ length payload
      → payload_length hdr < 2 ^ 32
      → 20 < fuel
      → payload_length hdr < fuel'
      → (r : Bool × Sender) × (proto_send_packet write fuel fuel' hdr payload w ≡ some r)
        × IsSent write w.calls (w.sent ++ hdr ++ take (payload_length hdr) payload) r
  unfolding proto_send_packet
  proto_send_packet-IsSent fuel fuel' hdr payload w twenty long small enough enough' =
      let (r, run, sent) = write_all-IsSent fuel 20 hdr w enough (omega arith) (omega arith) in
      let body = take (payload_length hdr) payload in
      let whole : w.sent ++ take 20 hdr ≡ w.sent ++ hdr =
        ap (λ n. w.sent ++ take n hdr) (sym twenty) ∙ ap (λ l. w.sent ++ l) (take_all hdr) in
      elim sent [
        | all_sent y l e ↦
            let (q, run', sent') =
              write_all-IsSent fuel' (payload_length hdr) payload r.1 enough' long small in
            (
              q,
              rw (proto_send_packet, run, y) run',
              IsSent-earlier write w.calls r.1.calls (w.sent ++ hdr ++ body) q l
                  (subst (λ f. IsSent write r.1.calls f q) (ap (λ l. l ++ body) (e ∙ whole)) sent'),
            )
        | stopped rest j n y e c l pos len z ↦ (
          r,
          rw (proto_send_packet, run, y),
          stopped (rest ++ body) j n y
              (sym (append_assoc r.1.sent rest body) ∙ ap (λ l. l ++ body) (e ∙ whole)) c l pos
              (omega (arith, length-append rest body)) z,
        )
      ]
