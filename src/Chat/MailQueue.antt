-- ===== src/Chat/MailQueue.antt =====
-- A mailbox of hw5/src/mailbox.c as a queue of entries.
use cse320_spring.Base.{
  ℕ, ◌≡◌, ◌≢◌, refl, sym, subst, ◌∙◌, ap, true, false, some, List, [], ◌∷◌, ◌++◌, arith,
}
use mathlib.Core.Path.{fun_ext}
use cse320_spring.Chat.Users.{store}
use cse320_spring.Chat.Links.{
  Linked, IsApart, apart_nil, apart_cons, IsDistinct, distinct_cons, store-at, store-other, not_sym,
  Linked-append, Linked-prev, last_of,
}
use cse320_spring.Chat.Append.{IsDistinct-append}
use cse320_spring.Chat.Mailbox.{Entry, Mailbox, Post, put, enqueue}

-- The cells of a queue with their entries.
abbrev pub cells : List (ℕ × Entry) → List ℕ
cells [] = []
cells ((c, e) ∷ q) = c ∷ cells q

pub data AllHold (s : Post) : List (ℕ × Entry) → Type 0 where
  hold_nil : AllHold s []
  hold_cons :
      {c : ℕ} {e : Entry} {q : List (ℕ × Entry)}
      → s.cell c ≡ true
      → s.content c ≡ some e
      → AllHold s q
      → AllHold s ((c, e) ∷ q)

-- The mailbox `b` stands at `m`, its mutex is free, and its queue holds the entries `q`, in order.
pub record IsQueue (m : ℕ) (b : Mailbox) (q : List (ℕ × Entry)) (s : Post) : Type 0 where
  pub box_at : s.boxes m ≡ some b
  pub free : b.locked ≡ false
  pub linked : Linked s.next s.prev b.box (cells q) b.box
  pub distinct : IsDistinct (b.box ∷ cells q)
  pub holds : AllHold s q

pub head-IsApart :
    {m : ℕ} {b : Mailbox} {q : List (ℕ × Entry)} {s : Post}
    → IsQueue m b q s
    → IsApart b.box (cells q)
head-IsApart w = elim w.distinct [ distinct_cons a d ↦ a ]

pub AllHold-fields :
    (s t : Post) (q : List (ℕ × Entry))
    → t.cell ≡ s.cell
    → t.content ≡ s.content
    → AllHold s q
    → AllHold t q
AllHold-fields s t [] e f hold_nil = hold_nil
AllHold-fields s t ((c, x) ∷ q) e f (hold_cons a b h) =
    hold_cons (ap (λ g. g c) e ∙ a) (ap (λ g. g c) f ∙ b) (AllHold-fields s t q e f h)

AllHold-new :
    (s t : Post) (item : ℕ) (x : Entry) (q : List (ℕ × Entry))
    → t.cell ≡ store s.cell item true
    → t.content ≡ store s.content item (some x)
    → IsApart item (cells q)
    → AllHold s q
    → AllHold t q
AllHold-new s t item x [] e f apart_nil hold_nil = hold_nil
AllHold-new s t item x ((c, y) ∷ q) e f (apart_cons n a) (hold_cons u v h) =
    hold_cons (ap (λ g. g c) e ∙ (store-other s.cell item c true (not_sym n) ∙ u))
      (ap (λ g. g c) f ∙ (store-other s.content item c (some x) (not_sym n) ∙ v))
      (AllHold-new s t item x q e f a h)

pub AllHold-freed :
    (s t : Post) (item : ℕ) (q : List (ℕ × Entry))
    → t.cell ≡ store s.cell item false
    → t.content ≡ s.content
    → IsApart item (cells q)
    → AllHold s q
    → AllHold t q
AllHold-freed s t item [] e f apart_nil hold_nil = hold_nil
AllHold-freed s t item ((c, y) ∷ q) e f (apart_cons n a) (hold_cons u v h) =
    hold_cons (ap (λ g. g c) e ∙ (store-other s.cell item c false (not_sym n) ∙ u))
      (ap (λ g. g c) f ∙ v) (AllHold-freed s t item q e f a h)

AllHold-append :
    (s : Post) (c : ℕ) (e : Entry) (q : List (ℕ × Entry))
    → AllHold s q
    → s.cell c ≡ true
    → s.content c ≡ some e
    → AllHold s (q ++ (c, e) ∷ [])
AllHold-append s c e [] hold_nil u v = hold_cons u v hold_nil
AllHold-append s c e ((d, x) ∷ q) (hold_cons a b h) u v =
    hold_cons a b (AllHold-append s c e q h u v)

cells-append :
    (q : List (ℕ × Entry)) (c : ℕ) (e : Entry) → cells (q ++ (c, e) ∷ []) ≡ cells q ++ c ∷ []
cells-append [] c e = refl
cells-append ((d, x) ∷ q) c e = ap (λ l. d ∷ l) (cells-append q c e)

store_swap : (f : ℕ → ℕ) (a b u v : ℕ) → a ≢ b → store (store f a u) b v ≡ store (store f b v) a u
store_swap f a b u v h = fun_ext (λ j. ground arith)

last_of-ne : (x a : ℕ) (xs : List ℕ) → IsApart x (a ∷ xs) → x ≢ last_of a xs
last_of-ne x a [] (apart_cons h q) = h
last_of-ne x a (y ∷ ys) (apart_cons h q) = last_of-ne x y ys q

-- The queue after an entry was put at its end.
pub enqueue-IsQueue :
    (m item : ℕ) (b b' : Mailbox) (e : Entry) (q : List (ℕ × Entry)) (s t : Post)
    → IsQueue m b q s
    → IsApart item (b.box ∷ cells q)
    → b'.box ≡ b.box
    → b'.locked ≡ false
    → t.cell ≡ s.cell
    → t.content ≡ s.content
    → t.next ≡ s.next
    → t.prev ≡ s.prev
    → IsQueue m b' (q ++ (item, e) ∷ []) (put m b' (enqueue item b.box e t))
unfolding enqueue
enqueue-IsQueue m item b b' e q s t w (apart_cons nb na) same free e₁ e₂ e₃ e₄ =
    let before = Linked-prev s.next s.prev (cells q) w.linked in
    let ne : item ≢ s.prev b.box =
      λ k. last_of-ne item b.box (cells q) (apart_cons nb na) (k ∙ before) in
    let long =
      Linked-append s.next s.prev item b.box (s.prev b.box) nb b.box (cells q) w.linked (sym before)
        (apart_cons nb na) (head-IsApart w) w.distinct in
    let swapped =
      subst
        (λ n.
          Linked n (store (store s.prev item (s.prev b.box)) b.box item) b.box
            (cells q ++ item ∷ []) b.box)
        (sym (store_swap s.next item (s.prev b.box) b.box item ne)) long in
    record {
      box_at = store-at t.boxes m m (some b') refl;
      free = free;
      linked = rw (same, e₃, e₄, cells-append q item e) swapped;
      distinct =
          rw (same, cells-append q item e)
            (IsDistinct-append item (b.box ∷ cells q) w.distinct (apart_cons nb na));
      holds =
          AllHold-append (put m b' (enqueue item b.box e t)) item e q
            (AllHold-new s (put m b' (enqueue item b.box e t)) item e q
              (ap (λ c. store c item true) e₁) (ap (λ c. store c item (some e)) e₂) na w.holds)
            (store-at t.cell item item true refl) (store-at t.content item item (some e) refl);
    }
