-- ===== src/Chat/Clients.antt =====
-- The clients of hw5/src/client.c and their registry, hw5/src/client_registry.c.
use cse320_spring.Base.{
  ℕ, zero, suc, ◌+◌, ◌%◌, ◌^◌, Bool, true, false, Option, none, some, List, [], ◌∷◌, ◌++◌, ◌==◌,
  ltb, if◌then◌else◌,
}
use cse320_spring.Base.Maybe.{◌>>=◌}
use cse320_spring.Base.Search.{first}
use cse320_spring.Chat.Users.{Heap, store, user_ref, user_unref}
use cse320_spring.Chat.Mailbox.{Post, mb_ref, mb_unref, mb_shutdown}

-- `MAX_CLIENTS`
abbrev pub max_clients : ℕ
max_clients = 64

pub data ClientStatus : Type 0 where
  no_user logged_in : ClientStatus

-- `CLIENT`. The count is the bit pattern of an `int`. The client's mutex is held only inside one call
-- and is left out.
pub record Client : Type 0 where
  pub fd : ℕ
  pub status : ClientStatus
  pub user : Option ℕ
  pub mailbox : Option ℕ
  pub reference_count : ℕ

-- The clients that are allocated, the users and the mailboxes, the fields of the client registry, and
-- the mutex of client_login with its flag `init`. `none` in `slots` is NULL.
pub record Server : Type 0 where
  pub clients : ℕ → Option Client
  pub heap : Heap
  pub post : Post
  pub count : ℕ
  pub slots : ℕ → Option ℕ
  pub locked : Bool
  pub terminate : ℕ
  pub login_init : Bool
  pub login_locked : Bool

-- The fuel of the loop of mb_unref and the cells that malloc gives to its hook.
pub record Disposal : Type 0 where
  pub fuel : ℕ
  pub cells : ℕ → ℕ

-- `client_create`, where malloc gives `space`, and the mutex is made or not.
unfoldable pub client_create : Option ℕ → Bool → ℕ → Server → Option ℕ × Server
client_create none mutex fd s = (none, s)
client_create (some c) mutex fd s =
    if mutex
    then (
      some c,
      record s {
        clients = store s.clients c (
            some (record {
              fd = fd;
              status = no_user;
              user = none;
              mailbox = none;
              reference_count = 1;
            }));
      },
    )
    else (none, s)

abbrev pub put_client : ℕ → Client → Server → Server
put_client c x s = record s { clients = store s.clients c (some x) }

unfoldable pub client_ref : ℕ → Server → Option Server
client_ref c s = do
  x ← s.clients c
  some (put_client c (record x { reference_count = (x.reference_count + 1) % 2 ^ 32 }) s)

-- `user_unref` and `mb_unref` of pointers that may be NULL, as parts of a server.
abbrev pub drop_user : Option ℕ → Server → Option Server
drop_user user s = do u ← user; h ← user_unref u s.heap; some (record s { heap = h })

abbrev pub drop_mailbox : Disposal → Option ℕ → Server → Option Server
drop_mailbox d mailbox s = do
  m ← mailbox
  p ← mb_unref d.fuel d.cells m s.post
  some (record s { post = p })

-- What client_unref does before it frees the client.
unfoldable pub leave : Disposal → Client → Server → Option Server
leave d x s = elim x.status [
  | no_user ↦ some s
  | logged_in ↦ do s₁ ← drop_user x.user s; drop_mailbox d x.mailbox s₁
]

unfoldable pub client_unref : Disposal → ℕ → Server → Option Server
client_unref d c s = do
  x ← s.clients c
  let n = (x.reference_count + 4294967295) % 2 ^ 32
  let counted = put_client c (record x { reference_count = n }) s
  if n == 0
      then (do t ← leave d x counted; some (record t { clients = store t.clients c none }))
      else some counted

-- `client_logout`. The result is false where the code returns -1.
unfoldable pub client_logout : Disposal → ℕ → Server → Option (Bool × Server)
client_logout d c s = do
  x ← s.clients c
  elim x.status [
    | no_user ↦ some (false, s)
    | logged_in ↦ do
      m ← x.mailbox
      p ← mb_shutdown m s.post
      s₁ ← drop_mailbox d x.mailbox (record s { post = p })
      s₂ ← drop_user x.user s₁
      y ← s₂.clients c
      some (true, put_client c (record y { status = no_user; mailbox = none; user = none }) s₂)
  ]

-- `client_get_user` and `client_get_mailbox`, where `no_ref` is the argument of that name.
unfoldable pub client_get_user : ℕ → ℕ → Server → Option (Option ℕ × Server)
client_get_user no_ref c s = do
  x ← s.clients c
  elim x.status [
    | no_user ↦ some (none, s)
    | logged_in ↦
        if no_ref == 0
        then (do u ← x.user; h ← user_ref u s.heap; some (x.user, record s { heap = h }))
        else some (x.user, s)
  ]

unfoldable pub client_get_mailbox : ℕ → ℕ → Server → Option (Option ℕ × Server)
client_get_mailbox no_ref c s = do
  x ← s.clients c
  elim x.status [
    | no_user ↦ some (none, s)
    | logged_in ↦
        if no_ref == 0
        then (do m ← x.mailbox; p ← mb_ref m s.post; some (x.mailbox, record s { post = p }))
        else some (x.mailbox, s)
  ]

-- `creg_init`, where nothing fails.
unfoldable pub creg_init : Server → Server
creg_init s = record s { count = 0; slots = λ i. none; locked = false; terminate = 0 }

abbrev pub is_free : Option ℕ → Bool
is_free none = true
is_free (some c) = false

abbrev pub is_client : ℕ → Option ℕ → Bool
is_client c none = false
is_client c (some d) = d == c

-- `creg_register`. A NULL client is stored, and then its count is used.
unfoldable pub creg_register : Option ℕ → Bool → ℕ → Server → Option (Option ℕ × Server)
creg_register space mutex fd s =
    let (created, s₁) = client_create space mutex fd s in
    if s.locked
    then none
    else if ltb s.count max_clients
    then elim (first max_clients 0 (λ i. is_free (s₁.slots i))) [
      | none ↦ some (none, s₁)
      | some i ↦ do
        c ← created
        let s₂ : Server = record s₁ {
          slots = store s₁.slots i (some c);
          count = (s₁.count + 1) % 2 ^ 32;
        }
        s₃ ← client_ref c s₂
        some (some c, s₃)
    ]
    else some (none, s)

unfoldable pub creg_unregister : Disposal → ℕ → Server → Option (Bool × Server)
creg_unregister d c s =
    if s.locked then none else elim (first max_clients 0 (λ i. is_client c (s.slots i))) [
      | none ↦ some (false, s)
      | some i ↦ do
        s₁ ← client_unref d c s
        some (
          true,
          record s₁ {
            slots = store s₁.slots i none;
            count = (s₁.count + 4294967295) % 2 ^ 32;
            terminate = s₁.terminate + 1;
          },
        )
    ]

-- The loop of creg_all_clients for `rounds` slots from the slot `i`, where `clients` are found.
unfoldable pub collect : ℕ → ℕ → ℕ → List ℕ → Server → Option (List ℕ × Server)
collect zero i client_count clients s = some (clients, s)
collect (suc rounds) i client_count clients s =
    let rest = λ (n : ℕ) (found : List ℕ) (t : Server).
      if n == t.count then some (found, t) else collect rounds (i + 1) n found t in
    elim (s.slots i) [
      | none ↦ rest client_count clients s
      | some c ↦ elim (client_ref c s) [
        | none ↦ none
        | some t ↦ rest (client_count + 1) (clients ++ c ∷ []) t
      ]
    ]

-- `creg_all_clients`, where calloc gives the array.
unfoldable pub creg_all_clients : Server → Option (List ℕ × Server)
creg_all_clients s = if s.locked then none else collect max_clients 0 0 [] s

-- The for loop of creg_shutdown_all for `rounds` slots from the slot `i`: the connections that it
-- shuts down.
unfoldable pub shut_down : ℕ → ℕ → Server → Option (List ℕ)
shut_down zero i s = some []
shut_down (suc rounds) i s =
    let rest = shut_down rounds (i + 1) s in
    elim (s.slots i) [ none ↦ rest | some c ↦ do x ← s.clients c; fds ← rest; some (x.fd ∷ fds) ]
