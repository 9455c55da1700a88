-- ===== src/Chat/Fini.antt =====
-- ureg_fini of hw5/src/user_registry.c against the list of rows.
use cse320_spring.Base.{
  ℕ, zero, suc, ◌<◌, List, [], ◌∷◌, ◌≡◌, ◌≢◌, refl, ap, ◌∙◌, none, some, false, true, if◌then◌else◌,
  length, ==-eq-true, ==-eq-false, arith,
}
use cse320_spring.Chat.Users.{Heap, store, fini_loop, ureg_fini}
use cse320_spring.Chat.Links.{
  Linked, last, cell, IsApart, apart_cons, IsDistinct, distinct_cons, store-at, store-other,
  not_sym,
}
use cse320_spring.Chat.Registry.{Row, entries, users, IsHeld, AllHeld, held_cons, IsRegistry}
use cse320_spring.Chat.Append.{head-IsApart}
use cse320_spring.Chat.Unregister.{unreferenced, user_unref_lem, AllHeld-free}

-- The heap when the entries of the rows are freed and their users have one reference less.
abbrev closed : Heap → List Row → Heap
closed s [] = s
closed s (r ∷ rs) =
    closed
      (record s {
        entry = store s.entry r.entry false;
        users = store s.users r.user (unreferenced r);
      })
      rs

closed-entry :
    (a : ℕ) (s : Heap) (rs : List Row) → IsApart a (entries rs) → (closed s rs).entry a ≡ s.entry a
closed-entry a s [] q = refl
closed-entry a s (r ∷ rs) (apart_cons h q) =
    closed-entry a
      (record s {
        entry = store s.entry r.entry false;
        users = store s.users r.user (unreferenced r);
      })
      rs q
    ∙ store-other s.entry r.entry a false h

closed-users :
    (u : ℕ) (s : Heap) (rs : List Row) → IsApart u (users rs) → (closed s rs).users u ≡ s.users u
closed-users u s [] q = refl
closed-users u s (r ∷ rs) (apart_cons h q) =
    closed-users u
      (record s {
        entry = store s.entry r.entry false;
        users = store s.users r.user (unreferenced r);
      })
      rs q
    ∙ store-other s.users r.user u (unreferenced r) h

-- Each row's entry is freed, and its user has one reference less or is freed when that leaves none.
pub data AllClosed (s : Heap) : List Row → Type 0 where
  closed_nil : AllClosed s []
  closed_cons :
      {r : Row} {rs : List Row}
      → s.entry r.entry ≡ false
      → s.users r.user ≡ unreferenced r
      → AllClosed s rs
      → AllClosed s (r ∷ rs)

closed-AllClosed :
    (s : Heap) (rs : List Row)
    → IsDistinct (entries rs)
    → IsDistinct (users rs)
    → AllClosed (closed s rs) rs
closed-AllClosed s [] d ud = closed_nil
closed-AllClosed s (r ∷ rs) (distinct_cons q d) (distinct_cons uq ud) =
    let s₁ : Heap = record s {
      entry = store s.entry r.entry false;
      users = store s.users r.user (unreferenced r);
    } in
    closed_cons (closed-entry r.entry s₁ rs q ∙ store-at s.entry r.entry r.entry false refl)
      (closed-users r.user s₁ rs uq ∙ store-at s.users r.user r.user (unreferenced r) refl)
      (closed-AllClosed s₁ rs d ud)

-- Where the loop goes next is allocated.
following-allocated :
    (head a : ℕ) (s : Heap) (rs : List Row)
    → Linked s.next s.prev a (entries rs) head
    → s.entry head ≡ true
    → AllHeld s rs
    → (s.entry (s.next a) ≡ true) × (s.prev (s.next a) ≡ a)
following-allocated head a s [] (last e f) h held = (rw e h, rw e f)
following-allocated head a s (r ∷ rs) (cell e f l) h (held_cons w held) = (rw e w.allocated, rw e f)

-- One round of the loop.
fini_step :
    (fuel head : ℕ) (s : Heap) (r : Row)
    → r.entry ≢ head
    → IsHeld s r
    → s.entry (s.next r.entry) ≡ true
    → s.prev (s.next r.entry) ≡ r.entry
    → fini_loop (suc fuel) head r.entry s
      ≡ fini_loop fuel head (s.next r.entry) (record s {
        entry = store s.entry r.entry false;
        users = store s.users r.user (unreferenced r);
      })
unfolding fini_loop
fini_step fuel head s r h w there back =
    let round : (if s.entry (s.next r.entry)
          then fini_loop fuel head (s.next r.entry) (record s {
            entry = store s.entry (s.prev (s.next r.entry)) false;
            users = store s.users r.user (unreferenced r);
          })
          else none)
        ≡ fini_loop fuel head (s.next r.entry) (record s {
          entry = store s.entry r.entry false;
          users = store s.users r.user (unreferenced r);
        }) =
      rw (there, back) in
    rw (==-eq-false r.entry head h, w.allocated, w.user_at, user_unref_lem s r w.alive) round

AllClosed-head :
    (s : Heap) (h : ℕ) (rs : List Row)
    → IsApart h (entries rs)
    → AllClosed s rs
    → AllClosed (record s { entry = store s.entry h false }) rs
AllClosed-head s h [] q closed_nil = closed_nil
AllClosed-head s h (r ∷ rs) (apart_cons k q) (closed_cons e u c) =
    closed_cons (store-other s.entry h r.entry false (not_sym k) ∙ e) u (AllClosed-head s h rs q c)

fini_loop_lem :
    (fuel head a : ℕ) (s : Heap) (rs : List Row)
    → length rs < fuel
    → s.entry head ≡ true
    → Linked s.next s.prev a (entries rs) head
    → IsDistinct (head ∷ entries rs)
    → IsDistinct (users rs)
    → AllHeld s rs
    → fini_loop fuel head (s.next a) s ≡ some (closed s rs)
unfolding fini_loop
fini_loop_lem zero head a s rs h al l d ud held = absurd (omega (arith, h))
fini_loop_lem (suc fuel) head a s [] h al (last e f) d ud held = rw (e, ==-eq-true head head refl)
fini_loop_lem (suc fuel) head a s (r ∷ rs) h al (cell e f l)
      (distinct_cons (apart_cons hr hrs) (distinct_cons q d)) (distinct_cons uq ud)
      (held_cons w held) =
    let s₁ : Heap = record s {
      entry = store s.entry r.entry false;
      users = store s.users r.user (unreferenced r);
    } in
    let (there, back) = following-allocated head r.entry s rs l al held in
    let held₁ = AllHeld-free s s₁ r.user r.entry (unreferenced r) rs held uq q refl refl refl in
    let ih =
      fini_loop_lem fuel head r.entry s₁ rs (omega (arith, h))
        (store-other s.entry r.entry head false hr ∙ al) l (distinct_cons hrs d) ud held₁ in
    ap (λ k. fini_loop (suc fuel) head k s) e
    ∙ (fini_step fuel head s r (not_sym hr) w there back ∙ ih)

-- On a registry whose rows are `rows`, with fuel for each row and one round more, ureg_fini returns,
-- the head and each entry are freed, and each user has one reference less or is freed when that
-- leaves none.
pub ureg_fini-AllClosed :
    (fuel head : ℕ) (rows : List Row) (s : Heap)
    → IsRegistry head rows s
    → length rows < fuel
    → (s' : Heap) × (ureg_fini fuel head s ≡ some s') × (s'.entry head ≡ false) × AllClosed s' rows
unfolding ureg_fini
ureg_fini-AllClosed fuel head rows s w h =
    let loop =
      fini_loop_lem fuel head head s rows h w.head_allocated w.linked w.distinct w.users_distinct
        w.held in
    let gone : AllClosed (closed s rows) rows = elim w.distinct [
      | distinct_cons q d ↦ closed-AllClosed s rows d w.users_distinct
    ] in
    let done : Heap = record (closed s rows) { entry = store (closed s rows).entry head false } in
    (
      done,
      rw (w.head_allocated, loop),
      store-at (closed s rows).entry head head false refl,
      AllClosed-head (closed s rows) head rows (head-IsApart head rows s w) gone,
    )
