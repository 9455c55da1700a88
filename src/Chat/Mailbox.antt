-- ===== src/Chat/Mailbox.antt =====
-- The mailboxes of hw5/src/mailbox.c on an explicit heap, and the discard hook of hw5/src/server.c.
use cse320_spring.Base.{
  ℕ, zero, suc, ◌+◌, ◌-◌, ◌%◌, ◌^◌, Bool, true, false, Option, none, some, ◌==◌, if◌then◌else◌, [],
  ◌∷◌,
}
use mathlib.Core.Option.{map}
use cse320_spring.Base.Maybe.{◌>>=◌}
use cse320_spring.Base.Text.{Bytes}
use cse320_spring.Chat.Users.{store}

-- `NOTICE_TYPE`, and `MAILBOX_ENTRY` with its tag: a message has an id, the sender's mailbox, a body
-- and a length, a notice has a type and an id.
pub data NoticeType : Type 0 where
  no_notice bounce_notice rrcpt_notice : NoticeType

pub data Entry : Type 0 where
  message : ℕ → ℕ → Bytes → ℕ → Entry
  notice : NoticeType → ℕ → Entry

pub data MailboxStatus : Type 0 where
  active defunct : MailboxStatus

-- The hook of a mailbox: mb_init does not set it, and the server sets it to discard_hook.
pub data Hook : Type 0 where
  unset discard_hook : Hook

-- `MAILBOX`. The count is the bit pattern of an `int`, `box` is the address of the head of the queue,
-- `semaphore` is the value of `store`, and `locked` is that of the mutex.
pub record Mailbox : Type 0 where
  pub handle : Bytes
  pub hook : Hook
  pub status : MailboxStatus
  pub box : ℕ
  pub reference_count : ℕ
  pub locked : Bool
  pub semaphore : ℕ

-- The heap: the mailboxes that are allocated, and the fields of each `MAILBOX_QUEUE`.
pub record Post : Type 0 where
  pub boxes : ℕ → Option Mailbox
  pub cell : ℕ → Bool
  pub content : ℕ → Option Entry
  pub next : ℕ → ℕ
  pub prev : ℕ → ℕ

abbrev pub put : ℕ → Mailbox → Post → Post
put m b s = record s { boxes = store s.boxes m (some b) }

-- A mailbox that is allocated, and one whose mutex can be locked. `none` is a use of memory that is
-- not allocated, or a wait for a mutex that is held or for a semaphore that nobody posts.
unfoldable pub unlocked : ℕ → Post → Option Mailbox
unlocked m s = elim (s.boxes m) [ none ↦ none | some b ↦ if b.locked then none else some b ]

-- `mb_init`, where malloc gives `m` and the head `h`, and nothing fails.
unfoldable pub mb_init : ℕ → ℕ → Bytes → Post → Post
mb_init m h name s = record s {
  boxes = store s.boxes m (
      some (record {
        handle = name;
        hook = unset;
        status = active;
        box = h;
        reference_count = 1;
        locked = false;
        semaphore = 0;
      }));
  cell = store s.cell h true;
  content = store s.content h none;
  next = store s.next h h;
  prev = store s.prev h h;
}

unfoldable pub mb_set_discard_hook : ℕ → Post → Option Post
mb_set_discard_hook m s = do b ← unlocked m s; some (put m (record b { hook = discard_hook }) s)

unfoldable pub mb_ref : ℕ → Post → Option Post
mb_ref m s = do
  b ← unlocked m s
  some (put m (record b { reference_count = (b.reference_count + 1) % 2 ^ 32 }) s)

unfoldable pub mb_shutdown : ℕ → Post → Option Post
mb_shutdown m s = do
  b ← unlocked m s
  some (put m (record b { status = defunct; semaphore = b.semaphore + 1 }) s)

-- The entry `e` in the new cell `item` at the end of the queue with the head `h`.
unfoldable pub enqueue : ℕ → ℕ → Entry → Post → Post
enqueue item h e s =
    let last = s.prev h in
    let next = store (store s.next item h) last item in
    record s {
      cell = store s.cell item true;
      content = store s.content item (some e);
      next = next;
      prev = store (store s.prev item last) h item;
    }

-- `mb_add_notice`, where malloc gives `item`.
unfoldable pub mb_add_notice : ℕ → ℕ → NoticeType → ℕ → Post → Option Post
mb_add_notice item m type msgid s = do
  b ← unlocked m s
  some (put m (record b { semaphore = b.semaphore + 1 }) (enqueue item b.box (notice type msgid) s))

-- The copy of a body that strlen, malloc and strcpy make: the bytes up to the first 0, with it. `none`
-- is a read of NULL, or behind the bytes.
unfoldable pub copy_string : Bytes → Option Bytes
copy_string [] = none
copy_string (c ∷ cs) = if c == 0 then some (c ∷ []) else map (λ copy. c ∷ copy) (copy_string cs)

unfoldable pub copy_body : Option Bytes → Option Bytes
copy_body none = none
copy_body (some body) = copy_string body

-- `mb_add_message`, where malloc gives `item`, and a body of NULL is `none`. The mailbox is locked while
-- the sender's count grows.
unfoldable pub mb_add_message : ℕ → ℕ → ℕ → ℕ → Option Bytes → ℕ → Post → Option Post
mb_add_message item m msgid from body length s = do
  b ← unlocked m s
  body_copy ← copy_body body
  s₁ ← if m == from then some s else mb_ref from (put m (record b { locked = true }) s)
  some (
      put m (record b { semaphore = b.semaphore + 1 })
        (enqueue item b.box (message msgid from body_copy length) s₁))

-- What the finalisation does with an entry of the mailbox `m`: the hook bounces a message of another
-- sender, in a cell that malloc gives.
unfoldable pub discard : (ℕ → ℕ) → ℕ → Hook → ℕ → Option Entry → Post → Option Post
discard malloc m hook c none s = none
discard malloc m hook c (some (notice type msgid)) s = some s
discard malloc m unset c (some (message msgid from body length)) s = none
discard malloc m discard_hook c (some (message msgid from body length)) s =
    if m == from then some s else mb_add_notice (malloc c) from bounce_notice 0 s

-- The while loop of mb_unref from the cell `c` to the head `h`.
unfoldable pub discard_all : ℕ → (ℕ → ℕ) → ℕ → Hook → ℕ → ℕ → Post → Option Post
discard_all zero malloc m hook h c s = none
discard_all (suc fuel) malloc m hook h c s =
    let rest = λ (t : Post).
      discard_all fuel malloc m hook h (t.next c)
        (record t { cell = store t.cell (t.prev (t.next c)) false }) in
    if c == h
    then some s
    else if s.cell c
    then elim (discard malloc m hook c (s.content c) s) [ none ↦ none | some t ↦ rest t ]
    else none

-- The finalisation, where the mailbox `b` at `m` is locked.
unfoldable pub finalise : ℕ → (ℕ → ℕ) → ℕ → Mailbox → Post → Option Post
finalise fuel malloc m b s = elim (discard_all fuel malloc m b.hook b.box (s.next b.box) s) [
  | none ↦ none
  | some s₁ ↦ some (record s₁ { boxes = store s₁.boxes m none; cell = store s₁.cell b.box false })
]

-- `mb_unref`. The last reference finalises the mailbox, which stays locked until it is freed.
unfoldable pub mb_unref : ℕ → (ℕ → ℕ) → ℕ → Post → Option Post
mb_unref fuel malloc m s = do
  b ← unlocked m s
  let n = (b.reference_count + 4294967295) % 2 ^ 32
  let counted = record b { reference_count = n }
  if n == 0
      then finalise fuel malloc m b (put m (record counted { locked = true }) s)
      else some (put m counted s)

-- The two assignments that take the cell `item` from the front of the queue with the head `h`.
unfoldable pub dequeue : ℕ → ℕ → Post → Post
dequeue item h s =
    let prev = store s.prev (s.next item) h in
    record s { prev = prev; next = store s.next h (s.next item) }

-- The count of the sender of an entry that the mailbox `m` gives out.
unfoldable pub release : ℕ → (ℕ → ℕ) → ℕ → Entry → Post → Option Post
release fuel malloc m (notice type msgid) s = some s
release fuel malloc m (message msgid from body length) s =
    if m == from then some s else mb_unref fuel malloc from s

-- The branch of mb_next_entry for a mailbox `b` at `m` that is active.
unfoldable pub take_entry : ℕ → (ℕ → ℕ) → ℕ → Mailbox → Post → Option (Option Entry × Post)
take_entry fuel malloc m b s =
    let item = s.next b.box in
    let s₁ = dequeue item b.box (put m (record b { locked = true }) s) in
    elim (s.content item) [
      | none ↦ none
      | some e ↦ elim (release fuel malloc m e s₁) [
        | none ↦ none
        | some s₂ ↦ some (
          some e,
          put m (record b { locked = false }) (record s₂ { cell = store s₂.cell item false }),
        )
      ]
    ]

-- `mb_next_entry`. The inner `none` is NULL.
unfoldable pub mb_next_entry : ℕ → (ℕ → ℕ) → ℕ → Post → Option (Option Entry × Post)
mb_next_entry fuel malloc m s = elim (s.boxes m) [
  | none ↦ none
  | some b ↦
      let waited = record b { semaphore = b.semaphore - 1 } in
      if b.semaphore == 0 then none else if b.locked then none else elim b.status [
        | defunct ↦ some (none, put m waited s)
        | active ↦ take_entry fuel malloc m waited (put m waited s)
      ]
]
