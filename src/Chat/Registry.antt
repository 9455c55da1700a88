-- ===== src/Chat/Registry.antt =====
-- The registry of hw5/src/user_registry.c as a list of rows, and its loop on that list.
use cse320_spring.Base.{
  ℕ, zero, suc, ◌<◌, List, [], ◌∷◌, ◌⊎◌, ◌≡◌, ◌≢◌, refl, sym, subst, ◌∙◌, ap, Option, none, some,
  if◌then◌else◌, inl, inr, true, false, ==-eq-true, ==-eq-false, length, arith, Bool-cases,
}
use mathlib.Core.Option.{some-injective}
use cse320_spring.Base.Text.{Bytes, strcmp_equal}
use cse320_spring.Chat.Users.{User, Heap, search, store}
use cse320_spring.Chat.Links.{
  Linked, last, cell, IsApart, apart_cons, IsDistinct, distinct_cons, store-at, store-other,
  not_sym,
}

-- An entry of the list with its user.
pub record Row : Type 0 where
  pub entry : ℕ
  pub user : ℕ
  pub handle : Bytes
  pub count : ℕ

abbrev pub entries : List Row → List ℕ
entries [] = []
entries (r ∷ rs) = r.entry ∷ entries rs

abbrev pub users : List Row → List ℕ
users [] = []
users (r ∷ rs) = r.user ∷ users rs

-- The first row with a handle, and the rows with its count changed or without it.
abbrev pub find_row : Bytes → List Row → Option Row
find_row handle [] = none
find_row handle (r ∷ rs) = if strcmp_equal r.handle handle then some r else find_row handle rs

abbrev pub recount : Bytes → (ℕ → ℕ) → List Row → List Row
recount handle f [] = []
recount handle f (r ∷ rs) =
    if strcmp_equal r.handle handle
    then record r { count = f r.count } ∷ rs
    else r ∷ recount handle f rs

abbrev pub remove_row : Bytes → List Row → List Row
remove_row handle [] = []
remove_row handle (r ∷ rs) = if strcmp_equal r.handle handle then rs else r ∷ remove_row handle rs

-- The heap holds the row, each row.
pub record IsHeld (s : Heap) (r : Row) : Type 0 where
  pub allocated : s.entry r.entry ≡ true
  pub user_at : s.user r.entry ≡ some r.user
  pub alive : s.users r.user ≡ some (record { handle = r.handle; reference_count = r.count })

pub data AllHeld (s : Heap) : List Row → Type 0 where
  held_nil : AllHeld s []
  held_cons : {r : Row} {rs : List Row} → IsHeld s r → AllHeld s rs → AllHeld s (r ∷ rs)

-- The registry at `head` has the rows `rows`, in order, and its mutex is not locked.
pub record IsRegistry (head : ℕ) (rows : List Row) (s : Heap) : Type 0 where
  pub unlocked : s.locked ≡ false
  pub head_allocated : s.entry head ≡ true
  pub linked : Linked s.next s.prev head (entries rows) head
  pub distinct : IsDistinct (head ∷ entries rows)
  pub users_distinct : IsDistinct (users rows)
  pub held : AllHeld s rows

abbrev pub place : Option Row → Option (ℕ × ℕ)
place none = none
place (some r) = some (r.entry, r.user)

-- With fuel for each row and one round more, the loop finds the first row.
pub search_lem :
    (fuel head a : ℕ) (handle : Bytes) (s : Heap) (rs : List Row)
    → length rs < fuel
    → s.entry a ≡ true
    → Linked s.next s.prev a (entries rs) head
    → IsApart head (entries rs)
    → AllHeld s rs
    → search fuel head handle a s ≡ some (place (find_row handle rs))
unfolding search
search_lem zero head a handle s rs h al l q held = absurd (omega (arith, h))
search_lem (suc fuel) head a handle s [] h al (last e f) q held =
    rw (al, e, ==-eq-true head head refl)
search_lem (suc fuel) head a handle s (r ∷ rs) h al (cell e f rest) (apart_cons hr q)
      (held_cons w held) =
    let ih = search_lem fuel head r.entry handle s rs (omega (arith, h)) w.allocated rest q held in
    elim (Bool-cases (strcmp_equal r.handle handle)) [
      | inl t ↦
          rw (al, e, ==-eq-false r.entry head (not_sym hr), w.allocated, w.user_at, w.alive, t, e)
      | inr t ↦
          rw (
            al,
            e,
            ==-eq-false r.entry head (not_sym hr),
            w.allocated,
            w.user_at,
            w.alive,
            t,
            e,
            ih,
          )
    ]

-- Changes of the heap that keep the rows.
pub IsHeld-same :
    (s s' : Heap) (r : Row)
    → IsHeld s r
    → s'.entry r.entry ≡ s.entry r.entry
    → s'.user r.entry ≡ s.user r.entry
    → s'.users r.user ≡ s.users r.user
    → IsHeld s' r
IsHeld-same s s' r w e₁ e₂ e₃ = record {
  allocated = e₁ ∙ w.allocated;
  user_at = e₂ ∙ w.user_at;
  alive = e₃ ∙ w.alive;
}

pub AllHeld-store :
    (s : Heap) (u : ℕ) (v : Option User) (rs : List Row)
    → AllHeld s rs
    → IsApart u (users rs)
    → AllHeld (record s { users = store s.users u v }) rs
AllHeld-store s u v [] held_nil q = held_nil
AllHeld-store s u v (r ∷ rs) (held_cons w held) (apart_cons h q) =
    held_cons
      (IsHeld-same s (record s { users = store s.users u v }) r w refl refl
        (store-other s.users u r.user v (not_sym h)))
      (AllHeld-store s u v rs held q)

-- The row that is found is the first or is found behind it.
pub find_row_cases :
    (handle : Bytes) (r x : Row) (rs : List Row)
    → find_row handle (x ∷ rs) ≡ some r
    → ((strcmp_equal x.handle handle ≡ true) × (x ≡ r))
      ⊎ ((strcmp_equal x.handle handle ≡ false) × (find_row handle rs ≡ some r))
find_row_cases handle r x rs e = elim (Bool-cases (strcmp_equal x.handle handle)) [
  | inl t ↦
      inl (t, some-injective x r (sym (ap (λ b. if b then some x else find_row handle rs) t) ∙ e))
  | inr t ↦ inr (t, sym (ap (λ b. if b then some x else find_row handle rs) t) ∙ e)
]

-- It is held, and its user is one of the users.
pub found-IsHeld :
    (s : Heap) (handle : Bytes) (r : Row) (rs : List Row)
    → AllHeld s rs
    → find_row handle rs ≡ some r
    → IsHeld s r
found-IsHeld s handle r [] held e = absurd (cc)
found-IsHeld s handle r (x ∷ rs) (held_cons w held) e = elim (find_row_cases handle r x rs e) [
  | inl (t, p) ↦ subst (IsHeld s) p w
  | inr (t, e') ↦ found-IsHeld s handle r rs held e'
]

pub found-apart :
    (handle : Bytes) (u : ℕ) (r : Row) (rs : List Row)
    → IsApart u (users rs)
    → find_row handle rs ≡ some r
    → u ≢ r.user
found-apart handle u r [] q e = absurd (cc)
found-apart handle u r (x ∷ rs) (apart_cons h q) e = elim (find_row_cases handle r x rs e) [
  | inl (t, p) ↦ λ k. h (k ∙ ap (λ y. y.user) (sym p))
  | inr (t, e') ↦ found-apart handle u r rs q e'
]

-- The count of the user that is found is written.
module _ (s : Heap) (handle : Bytes) (f : ℕ → ℕ) where
  abbrev counted : Row → Heap
  counted r = record s {
    users = store s.users r.user (some (record { handle = r.handle; reference_count = f r.count }));
  }

  pub AllHeld-recount :
      (r : Row) (rs : List Row)
      → AllHeld s rs
      → IsDistinct (users rs)
      → find_row handle rs ≡ some r
      → AllHeld
          (record s {
            users =
                store s.users r.user
                  (some (record { handle = r.handle; reference_count = f r.count }));
          })
          (recount handle f rs)
  AllHeld-recount r [] held d e = held_nil
  AllHeld-recount r (x ∷ rs) (held_cons w held) (distinct_cons ux d) e =
      elim (find_row_cases handle r x rs e) [
        | inl (t, p) ↦
            rw (sym p, t)
              (held_cons
                (record {
                  allocated = w.allocated;
                  user_at = w.user_at;
                  alive =
                      store-at s.users x.user x.user
                        (some (record { handle = x.handle; reference_count = f x.count })) refl;
                })
                (AllHeld-store s x.user
                  (some (record { handle = x.handle; reference_count = f x.count })) rs held ux))
        | inr (t, e') ↦ rw t (
            held_cons
              (IsHeld-same s (counted r) x w refl refl (
                store-other s.users r.user x.user
                  (some (record { handle = r.handle; reference_count = f r.count }))
                  (found-apart handle x.user r rs ux e')))
              (AllHeld-recount r rs held d e'))
      ]

pub entries-recount :
    (handle : Bytes) (f : ℕ → ℕ) (rs : List Row) → entries (recount handle f rs) ≡ entries rs
entries-recount handle f [] = refl
entries-recount handle f (r ∷ rs) = elim (Bool-cases (strcmp_equal r.handle handle)) [
  | inl t ↦ rw t
  | inr t ↦ rw (t, entries-recount handle f rs)
]

pub users-recount :
    (handle : Bytes) (f : ℕ → ℕ) (rs : List Row) → users (recount handle f rs) ≡ users rs
users-recount handle f [] = refl
users-recount handle f (r ∷ rs) = elim (Bool-cases (strcmp_equal r.handle handle)) [
  | inl t ↦ rw t
  | inr t ↦ rw (t, users-recount handle f rs)
]
