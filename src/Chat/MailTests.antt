-- ===== src/Chat/MailTests.antt =====
-- Runs of the mailboxes of hw5 on a small heap, and their theorems applied there.
use cse320_spring.Base.{
  Option, ◌++◌, ℕ, suc, ◌≡◌, refl, some, none, [], ◌∷◌, arith, true, false, if◌then◌else◌, ◌==◌,
}
use cse320_spring.Base.Text.{Bytes}
use cse320_spring.Chat.Links.{last, cell, apart_nil, apart_cons, distinct_nil, distinct_cons}
use cse320_spring.Birp.Strings.{empty, more}
use cse320_spring.Chat.Mailbox.{
  Entry, message, active, discard_hook, Mailbox, Post, mb_add_message, mb_next_entry,
}
use cse320_spring.Chat.MailQueue.{IsQueue, hold_nil, hold_cons}
use cse320_spring.Chat.Deliver.{
  posted, taken, given_other, mb_add_message-IsQueue, mb_next_entry-IsQueue,
}
use cse320_spring.Chat.Stalled.{mb_next_entry_waits}
use cse320_spring.Chat.Protocol.{Sender}

-- The mailboxes 1 and 2 with the heads 10 and 20, and one message in each, of the other.
abbrev first : Mailbox
first = record {
  handle = 97 ∷ [];
  hook = discard_hook;
  status = active;
  box = 10;
  reference_count = 3;
  locked = false;
  semaphore = 1;
}

abbrev second : ℕ → Mailbox
second count = record {
  handle = 98 ∷ [];
  hook = discard_hook;
  status = active;
  box = 20;
  reference_count = count;
  locked = false;
  semaphore = 1;
}

abbrev turn : ℕ → ℕ
turn a = if a == 10 then 11 else if a == 11 then 10 else if a == 20 then 21 else 20

abbrev hi : Bytes
hi = 104 ∷ 105 ∷ []

abbrev letter : Entry
letter = message 7 2 hi 2

abbrev reply : Entry
reply = message 8 1 hi 2

abbrev post : ℕ → Post
post count = record {
  boxes = λ a. if a == 1 then some first else if a == 2 then some (second count) else none;
  cell = λ a. true;
  content = λ a. if a == 11 then some letter else if a == 21 then some reply else none;
  next = turn;
  prev = turn;
}

first-IsQueue : (count : ℕ) → IsQueue 1 first ((11, letter) ∷ []) (post count)
first-IsQueue count = record {
  box_at = refl;
  free = refl;
  linked = cell {a = 10} {x = 11} refl refl (last {a = 11} {b = 10} refl refl);
  distinct =
      distinct_cons (apart_cons (omega arith) apart_nil) (distinct_cons apart_nil distinct_nil);
  holds = hold_cons refl refl hold_nil;
}

second-IsQueue : (count : ℕ) → IsQueue 2 (second count) ((21, reply) ∷ []) (post count)
second-IsQueue count = record {
  box_at = refl;
  free = refl;
  linked = cell {a = 20} {x = 21} refl refl (last {a = 21} {b = 20} refl refl);
  distinct =
      distinct_cons (apart_cons (omega arith) apart_nil) (distinct_cons apart_nil distinct_nil);
  holds = hold_cons refl refl hold_nil;
}

-- A body of two bytes before a 0, and one behind it.
mb_add_message-IsQueue_example :
    (t : Post) × (mb_add_message 12 1 9 2 (some (hi ++ 0 ∷ 33 ∷ [])) 4 (post 1) ≡ some t)
    × IsQueue 1 (posted first) ((11, letter) ∷ (12, message 9 2 (hi ++ 0 ∷ []) 4) ∷ []) t
    × (t.boxes 2 ≡ some (record (second 1) { reference_count = 2 }))
mb_add_message-IsQueue_example =
    mb_add_message-IsQueue 12 1 9 2 hi (33 ∷ []) 4 first (second 1) ((11, letter) ∷ []) (post 1)
      (more (omega arith) (more (omega arith) empty)) (first-IsQueue 1)
      (apart_cons (omega arith) (apart_cons (omega arith) apart_nil)) (omega arith) refl refl

mb_next_entry-IsQueue_example :
    (t : Post) × (mb_next_entry 5 suc 1 (post 2) ≡ some (some letter, t))
    × IsQueue 1 (taken first) [] t
    × (t.cell 11 ≡ false)
mb_next_entry-IsQueue_example =
    mb_next_entry-IsQueue 5 suc 1 11 first letter [] (post 2) (first-IsQueue 2) (omega arith) refl
      (given_other (omega arith) refl refl (omega arith))

mb_next_entry_waits_example : mb_next_entry 5 suc 1 (post 1) ≡ none
mb_next_entry_waits_example =
    mb_next_entry_waits 5 suc 1 11 7 2 2 21 8 2 hi hi first (second 1) [] [] (post 1)
      (first-IsQueue 1) (second-IsQueue 1) (omega arith) (omega arith) (omega arith) refl refl refl

abbrev all_at_once : ℕ → ℕ → Option ℕ
all_at_once k n = if n == 0 then none else some n

abbrev closed : Sender
closed = record { sent = []; calls = 0 }

abbrev in_memory : ℕ → Bytes
in_memory n = n ∷ 0 ∷ 0 ∷ 0 ∷ []
