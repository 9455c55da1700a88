-- ===== src/Chat/Register.antt =====
-- ureg_register of hw5/src/user_registry.c against the list of rows.
use cse320_spring.Base.{
  ℕ, ◌+◌, ◌<◌, ◌%◌, ◌^◌, List, [], ◌∷◌, ◌++◌, ◌≡◌, ◌⊎◌, refl, sym, subst, ◌∙◌, Option, none, some,
  if◌then◌else◌, inl, inr, true, false, ◌&&◌, ◌==◌, length, Bool-cases, Option-cases,
}
use cse320_spring.Base.Text.{Bytes}
use cse320_spring.Chat.Users.{
  Call, Heap, Library, store, user_create, user_unref, link, add_user, ureg_register,
}
use cse320_spring.Chat.Links.{IsApart, store-at}
use cse320_spring.Chat.Registry.{Row, entries, users, find_row, recount, IsRegistry, found-IsHeld}
use cse320_spring.Chat.Append.{
  user_ref_lem, search-locked, recount-IsRegistry, appended, append-IsRegistry, dropped-IsRegistry,
  unlocked-IsRegistry,
}

-- The user that user_create gives, if the C library has space for it.
abbrev pub created : Library → Option ℕ
created lib = elim lib.user_space [
  | none ↦ none
  | some u ↦ if lib.handle_space && (lib.mutex_space && lib.mutex_init == 0) then some u else none
]

-- What ureg_register does to the rows: one more reference to the user that has the handle, or a new
-- row at the end, whose user has two references.
abbrev pub registered : Library → Bytes → List Row → Option ℕ × List Row
registered lib handle rows = elim (find_row handle rows) [
  | some r ↦ (some r.user, recount handle (λ c. (c + 1) % 2 ^ 32) rows)
  | none ↦ elim (created lib) [
    | none ↦ (none, rows)
    | some u ↦ elim lib.entry_space [
      | none ↦ (none, rows)
      | some e ↦ (some u, rows ++ record { entry = e; user = u; handle = handle; count = 2 } ∷ [])
    ]
  ]
]

-- malloc gives no address that is in use.
pub record IsFresh (lib : Library) (head : ℕ) (rows : List Row) : Type 0 where
  pub user_fresh : (u : ℕ) → lib.user_space ≡ some u → IsApart u (users rows)
  pub entry_fresh : (e : ℕ) → lib.entry_space ≡ some e → IsApart e (head ∷ entries rows)

-- user_create, by whether it gives a user.
pub user_create_lem :
    (lib : Library) (handle : Bytes) (s : Heap)
    → user_create lib handle s ≡ elim (created lib) [
      | none ↦ (none, s)
      | some u ↦ (
        some u,
        record s {
          users = store s.users u (some (record { handle = handle; reference_count = 1 }));
        },
      )
    ]
unfolding user_create
user_create_lem lib handle s = elim (Option-cases lib.user_space) [
  | inl e ↦ rw (e, user_create)
  | inr (u, e) ↦ elim (Bool-cases (lib.handle_space && (lib.mutex_space && lib.mutex_init == 0))) [
    | inl t ↦ rw (e, user_create, t)
    | inr t ↦ rw (e, user_create, t)
  ]
]

pub created_cases :
    (lib : Library)
    → (created lib ≡ none) ⊎ ((u : ℕ) × (created lib ≡ some u) × (lib.user_space ≡ some u))
created_cases lib = elim (Option-cases lib.user_space) [
  | inl e ↦ inl (rw e)
  | inr (u, e) ↦ elim (Bool-cases (lib.handle_space && (lib.mutex_space && lib.mutex_init == 0))) [
    | inl t ↦ inr (u, rw (e, t), e)
    | inr t ↦ inl (rw (e, t))
  ]
]

user_unref-new :
    (u : ℕ) (handle : Bytes) (s : Heap)
    → user_unref u (record s {
      users = store s.users u (some (record { handle = handle; reference_count = 1 }));
    })
      ≡ some (record s {
        users =
            store (store s.users u (some (record { handle = handle; reference_count = 1 }))) u none;
      })
unfolding user_unref
user_unref-new u handle s =
    rw (
      store-at s.users u u (some (record { handle = handle; reference_count = 1 })) refl,
      user_unref,
    )

-- A call gives the result and leaves the rows that the abstract registry gives.
abbrev pub Gives : ℕ → Call (Option ℕ) → Option ℕ × List Row → Type 0
Gives head call spec = (s' : Heap) × (call ≡ some (spec.0, s')) × IsRegistry head spec.1 s'

module _ (lib : Library) (head : ℕ) (rows : List Row) (handle : Bytes) (s : Heap)
    (w : IsRegistry head rows s) (fresh : IsFresh lib head rows) where
  -- The heap before the last reference of a new row is counted.
  abbrev linked_heap : ℕ → ℕ → Heap
  linked_heap new u = record s {
    locked = true;
    entry = store s.entry new true;
    user = store s.user new (some u);
    next = store (store s.next (s.prev head) new) new head;
    prev = store (store s.prev new (s.prev head)) head new;
    users = store s.users u (some (record { handle = handle; reference_count = 1 }));
  }

  add_user-append :
      (new u : ℕ)
      → created lib ≡ some u
      → lib.entry_space ≡ some new
      → add_user lib head handle (record s { locked = true })
        ≡ some (some u, appended head rows s w new u handle)
  unfolding add_user link
  add_user-append new u c e =
      let made = user_create_lem lib handle (record s { locked = true }) in
      let counted =
        user_ref_lem u (linked_heap new u) (record { handle = handle; reference_count = 1 })
          (store-at s.users u u (some (record { handle = handle; reference_count = 1 })) refl) in
      rw (add_user, made, c, e, made, c, counted)

  -- The branch where no entry has the handle.
  add_user-Gives :
      find_row handle rows ≡ none
      → Gives head
          (add_user lib head handle (record s { locked = true }))
          (registered lib handle rows)
  unfolding add_user
  add_user-Gives n =
      let made = user_create_lem lib handle (record s { locked = true }) in
      let gives = Gives head (add_user lib head handle (record s { locked = true })) in
      elim (created_cases lib) [
        | inl c ↦
            let spec : registered lib handle rows ≡ (none, rows) = rw (registered, n, c) in
            subst gives (sym spec) (
              record s { locked = false },
              rw (add_user, made, c, made, c),
              unlocked-IsRegistry head rows s w,
            )
        | inr (u, c, us) ↦ elim (Option-cases lib.entry_space) [
          | inl e ↦
              let spec : registered lib handle rows ≡ (none, rows) = rw (registered, n, c, e) in
              subst gives (sym spec) (
                record s {
                  locked = false;
                  users =
                      store
                        (store s.users u (some (record { handle = handle; reference_count = 1 }))) u
                        none;
                },
                rw (
                  add_user,
                  made,
                  c,
                  e,
                  made,
                  c,
                  user_unref-new u handle (record s { locked = true }),
                ),
                dropped-IsRegistry head rows s w u (record { handle = handle; reference_count = 1 })
                    (fresh.user_fresh u us),
              )
          | inr (new, e) ↦
              let spec : registered lib handle rows ≡ (
                some u,
                rows ++ record { entry = new; user = u; handle = handle; count = 2 } ∷ [],
              ) =
                rw (registered, n, c, e) in
              subst gives (sym spec) (
                appended head rows s w new u handle,
                add_user-append new u c e,
                append-IsRegistry head rows s w new u handle (fresh.entry_fresh new e)
                    (fresh.user_fresh u us),
              )
        ]
      ]

  -- The whole call.
  register-Gives :
      (fuel : ℕ)
      → length rows < fuel
      → Gives head (ureg_register lib fuel head handle s) (registered lib handle rows)
  unfolding ureg_register
  register-Gives fuel h =
      let loop = search-locked head rows s w fuel handle h in
      elim (Option-cases (find_row handle rows)) [
        | inl n ↦
            let (s', e, w') = add_user-Gives n in
            let call : ureg_register lib fuel head handle s
                ≡ add_user lib head handle (record s { locked = true }) =
              rw (w.unlocked, loop, n) in
            (s', call ∙ e, w')
        | inr (r, e) ↦
            let alive = (found-IsHeld s handle r rows w.held e).alive in
            let spec : registered lib handle rows
                ≡ (some r.user, recount handle (λ c. (c + 1) % 2 ^ 32) rows) =
              rw (registered, e) in
            subst (Gives head (ureg_register lib fuel head handle s)) (sym spec) (
              record s {
                locked = false;
                users =
                    store s.users r.user (
                      some
                        (record { handle = r.handle; reference_count = (r.count + 1) % 2 ^ 32 }));
              },
              rw (
                w.unlocked,
                loop,
                e,
                user_ref_lem r.user (record s { locked = true })
                    (record { handle = r.handle; reference_count = r.count }) alive,
              ),
              recount-IsRegistry head rows s w handle (λ c. (c + 1) % 2 ^ 32) r e,
            )
      ]

-- On a registry that is not locked, whose rows are `rows`, with malloc results that are not in use
-- and fuel for each row and one round more, ureg_register returns and unlocks the mutex. If a row
-- has the handle, the result is the user of the first such row, and that user's count is one
-- higher, as a 32-bit number. Otherwise, if malloc and pthread_mutex_init succeed, the result is a
-- new user with two references, in a new row at the end, and if one of them fails, the result is
-- NULL and the rows are the same.
pub ureg_register-registered :
    (lib : Library) (fuel head : ℕ) (handle : Bytes) (rows : List Row) (s : Heap)
    → IsRegistry head rows s
    → IsFresh lib head rows
    → length rows < fuel
    → (s' : Heap) × (ureg_register lib fuel head handle s
        ≡ some ((registered lib handle rows).0, s'))
      × IsRegistry head (registered lib handle rows).1 s'
ureg_register-registered lib fuel head handle rows s w fresh h =
    register-Gives lib head rows handle s w fresh fuel h
