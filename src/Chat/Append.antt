-- ===== src/Chat/Append.antt =====
-- The rows of the registry of hw5/src/user_registry.c, when one is put at the end or its count changes.
use cse320_spring.Base.{
  ℕ, ◌+◌, ◌<◌, ◌%◌, ◌^◌, List, [], ◌∷◌, ◌++◌, ◌≡◌, ◌≢◌, refl, sym, ◌∙◌, ap, none, some, true, false,
  length,
}
use cse320_spring.Base.Text.{Bytes}
use cse320_spring.Chat.Users.{User, Heap, store, user_ref, search}
use cse320_spring.Chat.Links.{
  IsApart, apart_nil, apart_cons, IsDistinct, distinct_nil, distinct_cons, store-at, store-other,
  not_sym, Linked-append, Linked-prev,
}
use cse320_spring.Chat.Registry.{
  Row, entries, users, find_row, recount, IsHeld, AllHeld, held_nil, held_cons, IsRegistry, place,
  search_lem, IsHeld-same, AllHeld-store, AllHeld-recount, entries-recount, users-recount,
}

pub AllHeld-fields :
    (s s' : Heap) (rs : List Row)
    → s'.entry ≡ s.entry
    → s'.user ≡ s.user
    → s'.users ≡ s.users
    → AllHeld s rs
    → AllHeld s' rs
AllHeld-fields s s' [] e₁ e₂ e₃ held_nil = held_nil
AllHeld-fields s s' (r ∷ rs) e₁ e₂ e₃ (held_cons w held) =
    held_cons
      (IsHeld-same s s' r w (ap (λ f. f r.entry) e₁) (ap (λ f. f r.entry) e₂)
        (ap (λ f. f r.user) e₃))
      (AllHeld-fields s s' rs e₁ e₂ e₃ held)

AllHeld-new :
    (s : Heap) (new u : ℕ) (rs : List Row)
    → IsApart new (entries rs)
    → AllHeld s rs
    → AllHeld (record s { entry = store s.entry new true; user = store s.user new (some u) }) rs
AllHeld-new s new u [] q held_nil = held_nil
AllHeld-new s new u (r ∷ rs) (apart_cons h q) (held_cons w held) =
    held_cons
      (IsHeld-same s (record s { entry = store s.entry new true; user = store s.user new (some u) })
        r w (store-other s.entry new r.entry true (not_sym h))
        (store-other s.user new r.entry (some u) (not_sym h)) refl)
      (AllHeld-new s new u rs q held)

AllHeld-append :
    (s : Heap) (r : Row) (rs : List Row) → AllHeld s rs → IsHeld s r → AllHeld s (rs ++ r ∷ [])
AllHeld-append s r [] held_nil w = held_cons w held_nil
AllHeld-append s r (x ∷ rs) (held_cons v held) w = held_cons v (AllHeld-append s r rs held w)

pub IsApart-append : (a b : ℕ) (xs : List ℕ) → IsApart a xs → a ≢ b → IsApart a (xs ++ b ∷ [])
IsApart-append a b [] q h = apart_cons h apart_nil
IsApart-append a b (x ∷ xs) (apart_cons k q) h = apart_cons k (IsApart-append a b xs q h)

pub IsDistinct-append :
    (b : ℕ) (xs : List ℕ) → IsDistinct xs → IsApart b xs → IsDistinct (xs ++ b ∷ [])
IsDistinct-append b [] d q = distinct_cons apart_nil distinct_nil
IsDistinct-append b (x ∷ xs) (distinct_cons k d) (apart_cons h q) =
    distinct_cons (IsApart-append x b xs k (not_sym h)) (IsDistinct-append b xs d q)

entries-append : (rs : List Row) (r : Row) → entries (rs ++ r ∷ []) ≡ entries rs ++ r.entry ∷ []
entries-append [] r = refl
entries-append (x ∷ rs) r = ap (λ l. x.entry ∷ l) (entries-append rs r)

users-append : (rs : List Row) (r : Row) → users (rs ++ r ∷ []) ≡ users rs ++ r.user ∷ []
users-append [] r = refl
users-append (x ∷ rs) r = ap (λ l. x.user ∷ l) (users-append rs r)

pub user_ref_lem :
    (u : ℕ) (s : Heap) (x : User)
    → s.users u ≡ some x
    → user_ref u s
      ≡ some (record s {
        users = store s.users u (
            some
              (record { handle = x.handle; reference_count = (x.reference_count + 1) % 2 ^ 32 }));
      })
unfolding user_ref
user_ref_lem u s x e = rw (e, user_ref)

module _ (head : ℕ) (rows : List Row) (s : Heap) (w : IsRegistry head rows s) where
  pub head-IsApart : IsApart head (entries rows)
  head-IsApart = elim w.distinct [ distinct_cons q d ↦ q ]

  -- The loop, once the mutex is locked.
  pub search-locked :
      (fuel : ℕ) (handle : Bytes)
      → length rows < fuel
      → search fuel head handle head (record s { locked = true })
        ≡ some (place (find_row handle rows))
  search-locked fuel handle h =
      search_lem fuel head head handle (record s { locked = true }) rows h w.head_allocated w.linked
        head-IsApart (AllHeld-fields s (record s { locked = true }) rows refl refl refl w.held)

  -- The heap after a user was found and its count changed.
  pub recount-IsRegistry :
      (handle : Bytes) (f : ℕ → ℕ) (r : Row)
      → find_row handle rows ≡ some r
      → IsRegistry head (recount handle f rows) (record s {
        locked = false;
        users =
            store s.users r.user (some (record { handle = r.handle; reference_count = f r.count }));
      })
  recount-IsRegistry handle f r e = record {
    unlocked = refl;
    head_allocated = w.head_allocated;
    linked = rw (entries-recount handle f rows) w.linked;
    distinct = rw (entries-recount handle f rows) w.distinct;
    users_distinct = rw (users-recount handle f rows) w.users_distinct;
    held =
        AllHeld-recount (record s { locked = false }) handle f r rows
          (AllHeld-fields s (record s { locked = false }) rows refl refl refl w.held)
          w.users_distinct e;
  }

  -- The heap after a row was put at the end.
  abbrev pub appended : ℕ → ℕ → Bytes → Heap
  appended new u handle = record s {
    locked = false;
    entry = store s.entry new true;
    user = store s.user new (some u);
    next = store (store s.next (s.prev head) new) new head;
    prev = store (store s.prev new (s.prev head)) head new;
    users =
        store (store s.users u (some (record { handle = handle; reference_count = 1 }))) u
          (some (record { handle = handle; reference_count = 2 }));
  }

  pub append-IsRegistry :
      (new u : ℕ) (handle : Bytes)
      → IsApart new (head ∷ entries rows)
      → IsApart u (users rows)
      → IsRegistry head
          (rows ++ record { entry = new; user = u; handle = handle; count = 2 } ∷ [])
          (appended new u handle)
  append-IsRegistry new u handle (apart_cons nh na) ua =
      let r : Row = record { entry = new; user = u; handle = handle; count = 2 } in
      record {
        unlocked = refl;
        head_allocated = store-other s.entry new head true (not_sym nh) ∙ w.head_allocated;
        linked = rw (entries-append rows r) (
            Linked-append s.next s.prev new head (s.prev head) nh head (entries rows) w.linked
              (sym (Linked-prev s.next s.prev (entries rows) w.linked)) (apart_cons nh na)
              head-IsApart w.distinct);
        distinct =
            rw (entries-append rows r)
              (IsDistinct-append new (head ∷ entries rows) w.distinct (apart_cons nh na));
        users_distinct =
            rw (users-append rows r) (IsDistinct-append u (users rows) w.users_distinct ua);
        held =
            AllHeld-append (appended new u handle) r rows
              (AllHeld-fields
                (record s {
                  entry = store s.entry new true;
                  user = store s.user new (some u);
                  users =
                      store
                        (store s.users u (some (record { handle = handle; reference_count = 1 }))) u
                        (some (record { handle = handle; reference_count = 2 }));
                })
                (appended new u handle) rows refl refl refl
                (AllHeld-store
                  (record s {
                    entry = store s.entry new true;
                    user = store s.user new (some u);
                    users =
                        store s.users u (some (record { handle = handle; reference_count = 1 }));
                  })
                  u (some (record { handle = handle; reference_count = 2 })) rows
                  (AllHeld-store
                    (record s { entry = store s.entry new true; user = store s.user new (some u) })
                    u (some (record { handle = handle; reference_count = 1 })) rows
                    (AllHeld-new s new u rows na w.held) ua)
                  ua))
              (record {
                allocated = store-at s.entry new new true refl;
                user_at = store-at s.user new new (some u) refl;
                alive =
                    store-at
                      (store s.users u (some (record { handle = handle; reference_count = 1 }))) u u
                      (some (record { handle = handle; reference_count = 2 })) refl;
              });
      }

  -- The heap after a user was made and freed again, and the heap that only was locked.
  pub dropped-IsRegistry :
      (u : ℕ) (x : User)
      → IsApart u (users rows)
      → IsRegistry head rows
          (record s { locked = false; users = store (store s.users u (some x)) u none })
  dropped-IsRegistry u x ua = record {
    unlocked = refl;
    head_allocated = w.head_allocated;
    linked = w.linked;
    distinct = w.distinct;
    users_distinct = w.users_distinct;
    held =
        AllHeld-fields (record s { users = store (store s.users u (some x)) u none })
          (record s { locked = false; users = store (store s.users u (some x)) u none }) rows refl
          refl refl
          (AllHeld-store (record s { users = store s.users u (some x) }) u none rows
            (AllHeld-store s u (some x) rows w.held ua) ua);
  }

  pub unlocked-IsRegistry : IsRegistry head rows (record s { locked = false })
  unlocked-IsRegistry = record {
    unlocked = refl;
    head_allocated = w.head_allocated;
    linked = w.linked;
    distinct = w.distinct;
    users_distinct = w.users_distinct;
    held = AllHeld-fields s (record s { locked = false }) rows refl refl refl w.held;
  }
