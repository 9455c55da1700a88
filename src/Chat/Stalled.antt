-- ===== src/Chat/Stalled.antt =====
-- Calls of mb_next_entry of hw5/src/mailbox.c that give no entry: the mailbox is defunct, or the
-- call waits for the mutex it holds.
use cse320_spring.Base.{
  ℕ, zero, suc, ◌+◌, ◌-◌, ◌≡◌, ◌≢◌, inl, inr, refl, ◌∙◌, ap, true, false, none, some, List, ◌∷◌,
  ==-eq-false, arith, Bool-cases,
}
use cse320_spring.Base.Text.{Bytes}
use cse320_spring.Chat.Users.{store}
use cse320_spring.Chat.Links.{apart_cons, IsDistinct, distinct_cons, store-at, store-other, not_sym}
use cse320_spring.Chat.Mailbox.{
  Entry, message, active, defunct, discard_hook, Mailbox, Post, put, unlocked, mb_add_notice,
  discard, discard_all, finalise, mb_unref, dequeue, release, take_entry, mb_next_entry,
  mb_shutdown,
}
use cse320_spring.Chat.MailQueue.{IsQueue}
use cse320_spring.Chat.Deliver.{unlocked-some, first_links, first_holds, given_out}

-- For a mailbox that is not locked, mb_shutdown returns, and mb_next_entry then returns NULL at once,
-- whatever the queue holds: the mailbox is defunct with its semaphore as before, and no cell is freed
-- or moved.
pub mb_next_entry-defunct :
    (fuel : ℕ) (malloc : ℕ → ℕ) (m : ℕ) (b : Mailbox) (s : Post)
    → s.boxes m ≡ some b
    → b.locked ≡ false
    → (t u : Post) × (mb_shutdown m s ≡ some t)
      × (mb_next_entry fuel malloc m t ≡ some (none, u))
      × (u.boxes m ≡ some (record b { status = defunct }))
      × (u.cell ≡ s.cell)
      × (u.next ≡ s.next)
      × (u.prev ≡ s.prev)
unfolding mb_shutdown mb_next_entry
mb_next_entry-defunct fuel malloc m b s at free =
    let b₁ = record b { status = defunct; semaphore = b.semaphore + 1 } in
    let b₂ = record b { status = defunct; semaphore = b.semaphore + 1 - 1 } in
    let t = put m b₁ s in
    (
      t,
      put m b₂ t,
      rw (unlocked-some m b s at free),
      rw (
        mb_next_entry,
        store-at s.boxes m m (some b₁) refl,
        ==-eq-false (b.semaphore + 1) 0 (omega arith),
        free,
      ),
      store-at t.boxes m m (some b₂) refl
          ∙ ap (λ n. some (record b { status = defunct; semaphore = n })) (omega arith),
      refl,
      refl,
      refl,
    )

-- The finalisation of the mailbox `from` waits for the mutex of `m`.
discard_all_waits :
    (fuel : ℕ) (malloc : ℕ → ℕ) (m from h d msgid length : ℕ) (body : Bytes) (b : Mailbox)
    (s : Post)
    → s.boxes m ≡ some b
    → b.locked ≡ true
    → m ≢ from
    → d ≢ h
    → s.content d ≡ some (message msgid m body length)
    → discard_all fuel malloc from discard_hook h d s ≡ none
unfolding discard_all discard mb_add_notice unlocked
discard_all_waits zero malloc m from h d msgid length body b s at held ne far content = refl
discard_all_waits (suc fuel) malloc m from h d msgid length body b s at held ne far content =
    elim (Bool-cases (s.cell d)) [
      | inl e ↦ rw (
        ==-eq-false d h far,
        e,
        content,
        discard,
        ==-eq-false from m (not_sym ne),
        mb_add_notice,
        unlocked,
        at,
        held,
      )
      | inr e ↦ rw (==-eq-false d h far, e)
    ]

-- The last reference to the mailbox `from`, whose first entry is a message of `m`.
module _ (fuel : ℕ) (malloc : ℕ → ℕ) (m from d msgid length : ℕ) (body : Bytes) (b sender : Mailbox)
    (s : Post) (at : s.boxes m ≡ some b) (held : b.locked ≡ true) (ne : m ≢ from)
    (hook : sender.hook ≡ discard_hook) (first : s.next sender.box ≡ d) (far : d ≢ sender.box)
    (content : s.content d ≡ some (message msgid m body length)) where
  finalise_waits : finalise fuel malloc from sender s ≡ none
  unfolding finalise
  finalise_waits = rw (
    finalise,
    hook,
    first,
    discard_all_waits fuel malloc m from sender.box d msgid length body b s at held ne far content,
  )

mb_unref_waits :
    (fuel : ℕ) (malloc : ℕ → ℕ) (m from d msgid length : ℕ) (body : Bytes) (b sender : Mailbox)
    (s : Post)
    → s.boxes m ≡ some b
    → b.locked ≡ true
    → m ≢ from
    → s.boxes from ≡ some sender
    → sender.locked ≡ false
    → sender.reference_count ≡ 1
    → sender.hook ≡ discard_hook
    → s.next sender.box ≡ d
    → d ≢ sender.box
    → s.content d ≡ some (message msgid m body length)
    → mb_unref fuel malloc from s ≡ none
unfolding mb_unref finalise
mb_unref_waits fuel malloc m from d msgid length body b sender s at held ne from_at free one hook
      first far content =
    let counted = record sender { reference_count = 0; locked = true } in
    rw (
      unlocked-some from sender s from_at free,
      one,
      finalise_waits fuel malloc m from d msgid length body b sender (put from counted s)
          (store-other s.boxes from m (some counted) ne ∙ at) held ne hook first far content,
    )

mb_next_entry-none :
    (fuel : ℕ) (malloc : ℕ → ℕ) (m c : ℕ) (b : Mailbox) (e : Entry) (s : Post)
    → s.boxes m ≡ some b
    → b.locked ≡ false
    → b.semaphore ≢ 0
    → b.status ≡ active
    → s.next b.box ≡ c
    → s.content c ≡ some e
    → release fuel malloc m e (given_out m c b s) ≡ none
    → mb_next_entry fuel malloc m s ≡ none
unfolding mb_next_entry take_entry
mb_next_entry-none fuel malloc m c b e s at free nz live first content run = rw (
  mb_next_entry,
  at,
  ==-eq-false b.semaphore 0 nz,
  free,
  live,
  take_entry,
  first,
  content,
  first,
  run,
)

first_far : {h c : ℕ} {zs : List ℕ} → IsDistinct (h ∷ c ∷ zs) → c ≢ h
first_far (distinct_cons (apart_cons n _) _) = not_sym n

-- For two mailboxes with different heads, where the first is active, has a posted semaphore, and
-- starts with a message of the second, and the second has one reference and discard_hook, and starts
-- with a message of the first, mb_next_entry of the first never returns.
pub mb_next_entry_waits :
    (fuel : ℕ) (malloc : ℕ → ℕ) (m c msgid length from d msgid' length' : ℕ) (body body' : Bytes)
    (b sender : Mailbox) (q q' : List (ℕ × Entry)) (s : Post)
    → IsQueue m b ((c, message msgid from body length) ∷ q) s
    → IsQueue from sender ((d, message msgid' m body' length') ∷ q') s
    → m ≢ from
    → b.box ≢ sender.box
    → b.semaphore ≢ 0
    → b.status ≡ active
    → sender.reference_count ≡ 1
    → sender.hook ≡ discard_hook
    → mb_next_entry fuel malloc m s ≡ none
unfolding release dequeue
mb_next_entry_waits fuel malloc m c msgid length from d msgid' length' body body' b sender q q' s w
      v ne apart nz live one hook =
    let waited = record b { semaphore = b.semaphore - 1 } in
    let locked = record waited { locked = true } in
    let s₁ = store s.boxes m (some waited) in
    mb_next_entry-none fuel malloc m c b (message msgid from body length) s w.box_at w.free nz live
      (first_links w.linked).0 (first_holds w.holds).0
      (rw (
        ==-eq-false m from ne,
        mb_unref_waits fuel malloc m from d msgid' length' body' locked sender (given_out m c b s)
            (store-at s₁ m m (some locked) refl) refl ne
            (store-other s₁ m from (some locked) (not_sym ne)
              ∙ (store-other s.boxes m from (some waited) (not_sym ne) ∙ v.box_at))
            v.free one hook
            (store-other s.next b.box sender.box (s.next c) (not_sym apart)
              ∙ (first_links v.linked).0)
            (first_far v.distinct) (first_holds v.holds).0,
      ))
