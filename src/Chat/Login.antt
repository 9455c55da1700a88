-- ===== src/Chat/Login.antt =====
-- `client_login` of hw5/src/client.c.
use cse320_spring.Base.{
  ℕ, Bool, true, false, ◌||◌, Option, none, some, List, [], ◌∷◌, ◌==◌, if◌then◌else◌,
}
use cse320_spring.Base.Maybe.{◌>>=◌}
use cse320_spring.Base.Text.{Bytes}
use cse320_spring.Chat.Users.{Library, ureg_register, ureg_unregister}
use cse320_spring.Chat.Mailbox.{mb_init}
use cse320_spring.Chat.Clients.{
  no_user, logged_in, Client, Server, Disposal, put_client, client_unref, creg_all_clients,
  drop_user,
}

-- The user registry, with the fuel for its loop, and what one call gets: the results of the C library
-- in ureg_register, of pthread_mutex_init for `login_mutex`, and the addresses that mb_init gives to the
-- mailbox and its head, or `none` where it returns NULL.
pub record Entrance : Type 0 where
  pub library : Library
  pub registry : ℕ
  pub rounds : ℕ
  pub mutex_init : ℕ
  pub mailbox_space : Option (ℕ × ℕ)
  pub disposal : Disposal

abbrev pub holds_user : ℕ → Client → Bool
holds_user user x = elim x.status [
  | no_user ↦ false
  | logged_in ↦ elim x.user [ none ↦ false | some u ↦ user == u ]
]

-- The for loop over the clients: whether one of them is logged in as `user`.
unfoldable pub already : Disposal → ℕ → List ℕ → Bool → Server → Option (Bool × Server)
already d user [] already_exists s = some (already_exists, s)
already d user (c ∷ clients) already_exists s = do
  x ← s.clients c
  t ← client_unref d c s
  already d user clients (holds_user user x || already_exists) t

abbrev pub unlock_login : Server → Server
unlock_login s = record s { login_locked = false }

-- The end of client_login, where no client is logged in as `user`.
unfoldable pub enter : Entrance → ℕ → Bytes → ℕ → Server → Option (Bool × Server)
enter en c handle user s = elim en.mailbox_space [
  | none ↦ do
    h ← ureg_unregister en.rounds en.registry handle s.heap
    some (false, unlock_login (record s { heap = h }))
  | some (m, head) ↦ do
    x ← s.clients c
    let t = record s { post = mb_init m head handle s.post }
    some (
      true,
      unlock_login
          (put_client c (record x { status = logged_in; user = some user; mailbox = some m }) t),
    )
]

-- The part of client_login after the test of the status.
unfoldable pub login : Entrance → ℕ → Bytes → Server → Option (Bool × Server)
login en c handle s = do
  r ← ureg_register en.library en.rounds en.registry handle s.heap
  let s₁ : Server = record s { heap = r.1 }
  elim r.0 [
    | none ↦ some (false, unlock_login s₁)
    | some user ↦ do
      all ← creg_all_clients s₁
      found ← already en.disposal user all.0 false all.1
      if found.0
          then (do t ← drop_user (some user) found.1; some (false, unlock_login t))
          else enter en c handle user found.1
  ]

-- The rest of client_login from the lock of `login_mutex` on.
unfoldable pub locked_login : Entrance → ℕ → Bytes → Server → Option (Bool × Server)
locked_login en c handle s = do
  x ← s.clients c
  let t : Server = record s { login_locked = true }
  elim x.status [ logged_in ↦ some (false, t) | no_user ↦ login en c handle t ]

-- `client_login`. The result is false where the code returns -1, and `login_mutex` stays locked where
-- the client is logged in.
unfoldable pub client_login : Entrance → ℕ → Bytes → Server → Option (Bool × Server)
client_login en c handle s =
    if s.login_init || en.mutex_init == 0
    then if s.login_locked then none else locked_login en c handle (record s { login_init = true })
    else some (false, s)
