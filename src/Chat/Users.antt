-- ===== src/Chat/Users.antt =====
-- The users of hw5/src/user.c and the registry of hw5/src/user_registry.c, on an explicit heap.
use cse320_spring.Base.{
  ℕ, zero, suc, ◌+◌, ◌%◌, ◌^◌, Bool, true, false, ◌&&◌, Option, none, some, ◌==◌, if◌then◌else◌,
}
use cse320_spring.Base.Maybe.{◌>>=◌}
use cse320_spring.Base.Text.{Bytes, strcmp_equal}

-- `USER`. The count is the bit pattern of an `int`. The user's own mutex is held only inside
-- user_ref and user_unref, which are single steps here.
pub record User : Type 0 where
  pub handle : Bytes
  pub reference_count : ℕ

-- The registry's mutex and the heap: the fields of each `USER_REGISTRY` by its address, whether that
-- entry is allocated, and the users that are allocated. A NULL user is `none`.
pub record Heap : Type 0 where
  pub locked : Bool
  pub entry : ℕ → Bool
  pub user : ℕ → Option ℕ
  pub next : ℕ → ℕ
  pub prev : ℕ → ℕ
  pub users : ℕ → Option User

-- What the C library returns during one call: the address that malloc gives for a user, whether it
-- gives space for the handle and for a mutex, the result of pthread_mutex_init, and the address that
-- malloc gives for an entry.
pub record Library : Type 0 where
  pub user_space : Option ℕ
  pub handle_space : Bool
  pub mutex_space : Bool
  pub mutex_init : ℕ
  pub entry_space : Option ℕ

-- A call's result and the heap after it. `none` is a call that does not come back with a result: it
-- uses memory that is not allocated, waits for a mutex that is locked, or runs out of fuel.
abbrev pub Call : Type 0 → Type 0
Call A = Option (A × Heap)

-- A write to one address.
abbrev pub store {ℓ} : {A : Type ℓ} → (ℕ → A) → ℕ → A → ℕ → A
store f a v b = if b == a then v else f b

-- `pthread_mutex_lock` and `pthread_mutex_unlock` of the registry's mutex.
abbrev pub lock : Heap → Option Heap
lock s = if s.locked then none else some (record s { locked = true })

abbrev pub unlock : Heap → Heap
unlock s = record s { locked = false }

-- `user_create`.
unfoldable pub user_create : Library → Bytes → Heap → Option ℕ × Heap
user_create lib handle s = elim lib.user_space [
  | none ↦ (none, s)
  | some u ↦
      if lib.handle_space && (lib.mutex_space && lib.mutex_init == 0)
      then (
        some u,
        record s {
          users = store s.users u (some (record { handle = handle; reference_count = 1 }));
        },
      )
      else (none, s)
]

-- `user_ref`.
unfoldable pub user_ref : ℕ → Heap → Option Heap
user_ref u s = elim (s.users u) [
  | none ↦ none
  | some x ↦
      let n = (x.reference_count + 1) % 2 ^ 32 in
      some (record s { users = store s.users u (some (record x { reference_count = n })) })
]

-- `user_unref`.
unfoldable pub user_unref : ℕ → Heap → Option Heap
user_unref u s = elim (s.users u) [
  | none ↦ none
  | some x ↦
      let n = (x.reference_count + 4294967295) % 2 ^ 32 in
      if n == 0
      then some (record s { users = store s.users u none })
      else some (record s { users = store s.users u (some (record x { reference_count = n })) })
]

-- The while loop of ureg_register and ureg_unregister from the entry `current`: the entry whose user
-- has the handle, if it meets one, and the user.
unfoldable pub search : ℕ → ℕ → Bytes → ℕ → Heap → Option (Option (ℕ × ℕ))
search zero head handle current s = none
search (suc fuel) head handle current s =
    let e = s.next current in
    let rest = search fuel head handle e s in
    if s.entry current
    then if e == head
      then some none
      else if s.entry e
      then elim (s.user e) [
        | none ↦ none
        | some u ↦ elim (s.users u) [
          | none ↦ none
          | some x ↦ if strcmp_equal x.handle handle then some (some (e, u)) else rest
        ]
      ]
      else none
    else none

-- The four assignments that put the entry `new` at the end of the list.
unfoldable pub link : ℕ → ℕ → Heap → Heap
link head new s =
    let last = s.prev head in
    let next = store (store s.next last new) new head in
    let prev = store (store s.prev new last) head new in record s { next = next; prev = prev }

-- The two assignments that take `current` out.
unfoldable pub unlink : ℕ → Heap → Heap
unlink current s =
    let before = s.prev current in
    let next = store s.next before (s.next current) in
    record s { next = next; prev = store s.prev (next current) before }

-- The rest of ureg_register where no entry has the handle.
unfoldable pub add_user : Library → ℕ → Bytes → Heap → Call (Option ℕ)
add_user lib head handle s =
    let (created, s₁) = user_create lib handle s in
    elim created [
      | none ↦ some (none, unlock s₁)
      | some u ↦ elim lib.entry_space [
        | none ↦ do s₂ ← user_unref u s₁; some (none, unlock s₂)
        | some new ↦ do
          let s₂ : Heap = record s₁ {
            entry = store s₁.entry new true;
            user = store s₁.user new (some u);
          }
          s₃ ← user_ref u (link head new s₂)
          some (some u, unlock s₃)
      ]
    ]

-- `ureg_register`, with fuel for its loop.
unfoldable pub ureg_register : Library → ℕ → ℕ → Bytes → Heap → Call (Option ℕ)
ureg_register lib fuel head handle s = do
  s₁ ← lock s
  found ← search fuel head handle head s₁
  elim found [
    | none ↦ add_user lib head handle s₁
    | some (e, u) ↦ do s₂ ← user_ref u s₁; some (some u, unlock s₂)
  ]

-- `ureg_unregister`. The mutex stays locked where no entry has the handle.
unfoldable pub ureg_unregister : ℕ → ℕ → Bytes → Heap → Option Heap
ureg_unregister fuel head handle s = do
  s₁ ← lock s
  found ← search fuel head handle head s₁
  elim found [
    | none ↦ some s₁
    | some (e, u) ↦ do
      s₂ ← user_unref u s₁
      let s₃ = unlink e s₂
      some (unlock (record s₃ { entry = store s₃.entry e false }))
  ]

-- `ureg_init`, where malloc gives the address of the head and the mutex is initialised or not.
unfoldable pub ureg_init : Library → Heap → Option ℕ × Heap
ureg_init lib s = elim lib.entry_space [
  | none ↦ (none, s)
  | some head ↦
      if lib.mutex_space && lib.mutex_init == 0
      then (
        some head,
        record s {
          locked = false;
          entry = store s.entry head true;
          user = store s.user head none;
          next = store s.next head head;
          prev = store s.prev head head;
        },
      )
      else (none, s)
]

-- The while loop of ureg_fini, and ureg_fini.
unfoldable pub fini_loop : ℕ → ℕ → ℕ → Heap → Option Heap
fini_loop zero head current s = none
fini_loop (suc fuel) head current s =
    if current == head
    then some s
    else if s.entry current
    then elim (s.user current) [
      | none ↦ none
      | some u ↦ do
        s₁ ← user_unref u s
        let following = s₁.next current
        let freed = record s₁ { entry = store s₁.entry (s₁.prev following) false }
        if s₁.entry following then fini_loop fuel head following freed else none
    ]
    else none

unfoldable pub ureg_fini : ℕ → ℕ → Heap → Option Heap
ureg_fini fuel head s =
    if s.entry head
    then elim (fini_loop fuel head (s.next head) s) [
      | none ↦ none
      | some s₁ ↦ some (record s₁ { entry = store s₁.entry head false })
    ]
    else none
