-- ===== src/Chat/Lockout.antt =====
-- A call of client_login of hw5/src/client.c that leaves `login_mutex` locked.
use cse320_spring.Base.{ℕ, ◌≡◌, ◌==◌, refl, true, false, ◌||◌, none, some}
use cse320_spring.Base.Text.{Bytes}
use cse320_spring.Chat.Clients.{Client, logged_in, Server}
use cse320_spring.Chat.Login.{Entrance, locked_login, client_login}

-- Where the login mutex can be made or was made, and is not locked, client_login of a client that is
-- logged in returns -1, but every later call, of whatever client, does not return.
pub client_login-stuck :
    (en : Entrance) (c : ℕ) (handle : Bytes) (x : Client) (s : Server)
    → s.clients c ≡ some x
    → x.status ≡ logged_in
    → (s.login_init || en.mutex_init == 0) ≡ true
    → s.login_locked ≡ false
    → (t : Server) × (client_login en c handle s ≡ some (false, t))
      × ((en' : Entrance) (c' : ℕ) (handle' : Bytes) → client_login en' c' handle' t ≡ none)
unfolding client_login locked_login
client_login-stuck en c handle x s at inside made free = (
  record s { login_init = true; login_locked = true },
  rw (client_login, made, free, locked_login, at, inside),
  λ en' c' handle'. refl,
)
