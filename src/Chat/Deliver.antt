-- ===== src/Chat/Deliver.antt =====
-- What mb_add_message, mb_add_notice and mb_next_entry of hw5/src/mailbox.c do to the queue.
use cse320_spring.Base.{
  ℕ, ◌+◌, ◌-◌, ◌%◌, ◌^◌, ◌≡◌, ◌≢◌, refl, subst, ◌∙◌, ap, true, false, some, List, [], ◌∷◌, ◌++◌,
  ==-eq-true, ==-eq-false,
}
use cse320_spring.Base.Text.{Bytes}
use cse320_spring.Chat.Users.{store}
use cse320_spring.Chat.Links.{
  Linked, cell, IsApart, apart_cons, IsDistinct, distinct_cons, store-at, store-other, not_sym,
  Linked-remove,
}
use cse320_spring.Birp.Strings.{IsString, empty, more}
use cse320_spring.Chat.Mailbox.{
  copy_string, copy_body, Entry, message, notice, NoticeType, active, Mailbox, Post, put, unlocked,
  mb_ref, enqueue, mb_add_notice, mb_add_message, mb_unref, dequeue, release, take_entry,
  mb_next_entry,
}
use cse320_spring.Chat.MailQueue.{
  IsQueue, AllHold, hold_cons, cells, head-IsApart, AllHold-freed, enqueue-IsQueue,
}

pub unlocked-some :
    (m : ℕ) (b : Mailbox) (s : Post) → s.boxes m ≡ some b → b.locked ≡ false → unlocked m s ≡ some b
unfolding unlocked
unlocked-some m b s e f = rw (unlocked, e, f)

-- The semaphore of `b` posted.
abbrev pub posted : Mailbox → Mailbox
posted b = record b { semaphore = b.semaphore + 1 }

pub mb_add_notice-IsQueue :
    (item m : ℕ) (type : NoticeType) (msgid : ℕ) (b : Mailbox) (q : List (ℕ × Entry)) (s : Post)
    → IsQueue m b q s
    → IsApart item (b.box ∷ cells q)
    → (t : Post) × (mb_add_notice item m type msgid s ≡ some t)
      × IsQueue m (posted b) (q ++ (item, notice type msgid) ∷ []) t
unfolding mb_add_notice
mb_add_notice-IsQueue item m type msgid b q s w a = (
  put m (posted b) (enqueue item b.box (notice type msgid) s),
  rw (unlocked-some m b s w.box_at w.free),
  enqueue-IsQueue m item b (posted b) (notice type msgid) q s s w a refl w.free refl refl refl refl,
)

copy_string_lem :
    (text rest : Bytes) → IsString text → copy_string (text ++ 0 ∷ rest) ≡ some (text ++ 0 ∷ [])
unfolding copy_string
copy_string_lem [] rest empty = refl
copy_string_lem (c ∷ text) rest (more ne t) = rw (==-eq-false c 0 ne, copy_string_lem text rest t)

-- For a mailbox whose queue holds `q`, a cell that is not one of the queue, a sender's mailbox that is
-- another one and not locked, and a body that has a byte 0: mb_add_message returns, the queue is `q`
-- and then a message with the bytes of the body up to the first 0, and with the length that was given,
-- the semaphore is posted, and the sender has one reference more, as a 32-bit number.
pub mb_add_message-IsQueue :
    (item m msgid from : ℕ) (text rest : Bytes) (length : ℕ) (b sender : Mailbox)
    (q : List (ℕ × Entry)) (s : Post)
    → IsString text
    → IsQueue m b q s
    → IsApart item (b.box ∷ cells q)
    → m ≢ from
    → s.boxes from ≡ some sender
    → sender.locked ≡ false
    → (t : Post) × (mb_add_message item m msgid from (some (text ++ 0 ∷ rest)) length s ≡ some t)
      × IsQueue m (posted b) (q ++ (item, message msgid from (text ++ 0 ∷ []) length) ∷ []) t
      × (t.boxes from
          ≡ some (record sender { reference_count = (sender.reference_count + 1) % 2 ^ 32 }))
unfolding mb_add_message mb_ref enqueue copy_body
mb_add_message-IsQueue item m msgid from text rest length b sender q s string w a ne at free =
    let s₀ = put m (record b { locked = true }) s in
    let more = record sender { reference_count = (sender.reference_count + 1) % 2 ^ 32 } in
    let s₁ = put from more s₀ in
    let e = message msgid from (text ++ 0 ∷ []) length in
    let sender_at : s₀.boxes from ≡ some sender =
      store-other s.boxes m from (some (record b { locked = true })) (not_sym ne) ∙ at in
    (
      put m (posted b) (enqueue item b.box e s₁),
      rw (
        unlocked-some m b s w.box_at w.free,
        copy_string_lem text rest string,
        ==-eq-false m from ne,
        unlocked-some from sender s₀ sender_at free,
      ),
      enqueue-IsQueue m item b (posted b) e q s s₁ w a refl w.free refl refl refl refl,
      store-other s₁.boxes m from (some (posted b)) (not_sym ne)
          ∙ store-at s₀.boxes from from (some more) refl,
    )

-- The entry can be given out while the mailbox `m` is locked and no sender is freed.
pub data IsGiven (m : ℕ) (s : Post) : Entry → Type 0 where
  given_notice : {type : NoticeType} {msgid : ℕ} → IsGiven m s (notice type msgid)
  given_own : {msgid length : ℕ} {body : Bytes} → IsGiven m s (message msgid m body length)
  given_other :
      {msgid from length : ℕ} {body : Bytes} {sender : Mailbox}
      → m ≢ from
      → s.boxes from ≡ some sender
      → sender.locked ≡ false
      → (sender.reference_count + 4294967295) % 2 ^ 32 ≢ 0
      → IsGiven m s (message msgid from body length)

pub first_links :
    {n p : ℕ → ℕ} {a c h : ℕ} {zs : List ℕ} → Linked n p a (c ∷ zs) h → (n a ≡ c) × (p c ≡ a)
first_links (cell x y l) = (x, y)

second-IsApart : {a c : ℕ} {zs : List ℕ} → IsDistinct (a ∷ c ∷ zs) → IsApart c zs
second-IsApart (distinct_cons _ (distinct_cons ac _)) = ac

tail-IsDistinct : {a c : ℕ} {zs : List ℕ} → IsDistinct (a ∷ c ∷ zs) → IsDistinct (a ∷ zs)
tail-IsDistinct (distinct_cons (apart_cons _ na) (distinct_cons _ d)) = distinct_cons na d

pub first_holds :
    {c : ℕ} {e : Entry} {q : List (ℕ × Entry)} {s : Post}
    → AllHold s ((c, e) ∷ q)
    → (s.content c ≡ some e) × AllHold s q
first_holds (hold_cons u v h) = (v, h)

-- The queue without its first entry.
dequeue-IsQueue :
    (m c : ℕ) (b b' : Mailbox) (e : Entry) (q : List (ℕ × Entry)) (s t : Post)
    → IsQueue m b ((c, e) ∷ q) s
    → b'.box ≡ b.box
    → b'.locked ≡ false
    → t.cell ≡ store s.cell c false
    → t.content ≡ s.content
    → t.next ≡ store s.next b.box (s.next c)
    → t.prev ≡ store s.prev (s.next c) b.box
    → IsQueue m b' q (put m b' t)
dequeue-IsQueue m c b b' e q s t w same free e₁ e₂ e₃ e₄ =
    let p = (first_links w.linked).1 in
    let shorter =
      subst
        (λ h. Linked (store s.next h (s.next c)) (store s.prev (s.next c) h) b.box (cells q) b.box)
        p
        (Linked-remove s.next s.prev c b.box b.box [] (cells q) w.linked w.distinct
          (head-IsApart w)) in
    record {
      box_at = store-at t.boxes m m (some b') refl;
      free = free;
      linked = rw (same, e₃, e₄) shorter;
      distinct = rw (same) (tail-IsDistinct w.distinct);
      holds =
          AllHold-freed s (put m b' t) c q e₁ e₂ (second-IsApart w.distinct)
            (first_holds w.holds).1;
    }

release-IsGiven :
    (fuel : ℕ) (malloc : ℕ → ℕ) (m : ℕ) (e : Entry) (s : Post)
    → IsGiven m s e
    → (t : Post) × (release fuel malloc m e s ≡ some t)
      × (t.cell ≡ s.cell)
      × (t.content ≡ s.content)
      × (t.next ≡ s.next)
      × (t.prev ≡ s.prev)
unfolding release mb_unref
release-IsGiven fuel malloc m (notice type msgid) s given_notice = (s, refl, refl, refl, refl, refl)
release-IsGiven fuel malloc m (message msgid from body length) s given_own =
    (s, rw (==-eq-true m m refl), refl, refl, refl, refl)
release-IsGiven fuel malloc m (message msgid from body length) s
      (given_other {sender = sender} ne at free z) =
    let n = (sender.reference_count + 4294967295) % 2 ^ 32 in
    (
      put from (record sender { reference_count = n }) s,
      rw (==-eq-false m from ne, unlocked-some from sender s at free, ==-eq-false n 0 z),
      refl,
      refl,
      refl,
      refl,
    )

IsGiven-fields :
    (m : ℕ) (b b' : Mailbox) (e : Entry) (s t : Post)
    → t.boxes ≡ store (store s.boxes m (some b)) m (some b')
    → IsGiven m s e
    → IsGiven m t e
IsGiven-fields m b b' (notice type msgid) s t e₁ given_notice = given_notice
IsGiven-fields m b b' (message msgid from body length) s t e₁ given_own = given_own
IsGiven-fields m b b' (message msgid from body length) s t e₁ (given_other ne at free z) =
    given_other ne
      (ap (λ f. f from) e₁
        ∙ (store-other (store s.boxes m (some b)) m from (some b') (not_sym ne)
            ∙ (store-other s.boxes m from (some b) (not_sym ne) ∙ at)))
      free z

-- The mailbox `b` after sem_wait.
abbrev pub taken : Mailbox → Mailbox
taken b = record b { semaphore = b.semaphore - 1; locked = false; status = active }

-- The heap in which the sender of the first entry, in the cell `c`, is released.
abbrev pub given_out : ℕ → ℕ → Mailbox → Post → Post
given_out m c b s =
    let waited = record b { semaphore = b.semaphore - 1 } in
    dequeue c b.box (put m (record waited { locked = true }) (put m waited s))

mb_next_entry_run :
    (fuel : ℕ) (malloc : ℕ → ℕ) (m c : ℕ) (b : Mailbox) (e : Entry) (s t : Post)
    → s.boxes m ≡ some b
    → b.locked ≡ false
    → b.semaphore ≢ 0
    → b.status ≡ active
    → s.next b.box ≡ c
    → s.content c ≡ some e
    → release fuel malloc m e (given_out m c b s) ≡ some t
    → mb_next_entry fuel malloc m s
      ≡ some (some e, put m (taken b) (record t { cell = store t.cell c false }))
unfolding mb_next_entry take_entry
mb_next_entry_run fuel malloc m c b e s t at free nz live first content run =
    rw
      (
        mb_next_entry,
        at,
        ==-eq-false b.semaphore 0 nz,
        free,
        live,
        take_entry,
        first,
        content,
        first,
        run,
        first,
      )
      (ap
        (λ st. some (
          some e,
          put m (record b { semaphore = b.semaphore - 1; locked = false; status = st })
              (record t { cell = store t.cell c false }),
        ))
        live)

-- For an active mailbox with a posted semaphore whose queue starts with `e`, where `e` is a notice, a
-- message of its own, or one of a sender that is not locked and keeps a reference, mb_next_entry
-- returns `e`, the queue holds the other entries in order, the semaphore is one lower, the mutex is
-- free and the entry's cell is freed.
pub mb_next_entry-IsQueue :
    (fuel : ℕ) (malloc : ℕ → ℕ) (m c : ℕ) (b : Mailbox) (e : Entry) (q : List (ℕ × Entry))
    (s : Post)
    → IsQueue m b ((c, e) ∷ q) s
    → b.semaphore ≢ 0
    → b.status ≡ active
    → IsGiven m s e
    → (t : Post) × (mb_next_entry fuel malloc m s ≡ some (some e, t))
      × IsQueue m (taken b) q t
      × (t.cell c ≡ false)
unfolding dequeue
mb_next_entry-IsQueue fuel malloc m c b e q s w nz live given =
    let waited = record b { semaphore = b.semaphore - 1 } in
    let s₂ = given_out m c b s in
    let (t, run, e₁, e₂, e₃, e₄) =
      release-IsGiven fuel malloc m e s₂
        (IsGiven-fields m waited (record waited { locked = true }) e s s₂ refl given) in
    let t' = record t { cell = store t.cell c false } in
    (
      put m (taken b) t',
      mb_next_entry_run fuel malloc m c b e s t w.box_at w.free nz live (first_links w.linked).0
          (first_holds w.holds).0 run,
      dequeue-IsQueue m c b (taken b) e q s t' w refl refl (ap (λ f. store f c false) e₁) e₂ e₃ e₄,
      store-at t.cell c c false refl,
    )
