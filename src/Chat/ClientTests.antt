-- ===== src/Chat/ClientTests.antt =====
-- The registry of clients of hw5 with one client, and its theorems applied there.
use cse320_spring.Base.{
  ℕ, suc, ◌+◌, ◌≡◌, ◌<◌, refl, some, none, [], ◌∷◌, arith, true, false, if◌then◌else◌, ◌==◌, ◌⊎◌,
}
use cse320_spring.Base.Text.{Bytes}
use cse320_spring.Chat.Users.{Heap, store}
use cse320_spring.Chat.Mailbox.{Post}
use cse320_spring.Chat.Clients.{Client, logged_in, Server, Disposal, creg_register, creg_unregister}
use cse320_spring.Chat.Login.{Entrance, client_login}
use cse320_spring.Chat.Slots.{
  occupied, IsCounted, newcomer, creg_register-IsCounted, creg_unregister-IsCounted,
}
use cse320_spring.Chat.Lockout.{client_login-stuck}

abbrev no_users : Heap
no_users = record {
  locked = false;
  entry = λ a. false;
  user = λ a. none;
  next = λ a. a;
  prev = λ a. a;
  users = λ a. none;
}

abbrev no_boxes : Post
no_boxes = record {
  boxes = λ a. none;
  cell = λ a. false;
  content = λ a. none;
  next = λ a. a;
  prev = λ a. a;
}

abbrev visitor : Client
visitor = newcomer 4

abbrev member : Client
member = record { fd = 5; status = logged_in; user = some 7; mailbox = some 8; reference_count = 2 }

-- The client at 30 stands in the first slot.
abbrev server : Client → Server
server x = record {
  clients = λ a. if a == 30 then some x else none;
  heap = no_users;
  post = no_boxes;
  count = 1;
  slots = λ i. if i == 0 then some 30 else none;
  locked = false;
  terminate = 0;
  login_init = true;
  login_locked = false;
}

server-IsCounted : (x : Client) → IsCounted (server x)
unfolding occupied
server-IsCounted x = refl

abbrev disposal : Disposal
disposal = record { fuel = 5; cells = suc }

abbrev entrance : Entrance
entrance = record {
  library = record {
    user_space = some 40;
    handle_space = true;
    mutex_space = true;
    mutex_init = 0;
    entry_space = some 41;
  };
  registry = 42;
  rounds = 3;
  mutex_init = 0;
  mailbox_space = some (50, 51);
  disposal = disposal;
}

creg_register-IsCounted_example :
    (((server visitor).count ≡ 64)
      × (creg_register (some 31) true 6 (server visitor) ≡ some (none, server visitor)))
    ⊎ ((t : Server) × (i : ℕ) × (creg_register (some 31) true 6 (server visitor)
          ≡ some (some 31, t))
        × (i < 64)
        × ((server visitor).slots i ≡ none)
        × (t.slots ≡ store (server visitor).slots i (some 31))
        × (t.clients 31 ≡ some (newcomer 6))
        × IsCounted t)
creg_register-IsCounted_example =
    creg_register-IsCounted 31 6 (server visitor) refl (server-IsCounted visitor)

creg_unregister-IsCounted_example :
    (t : Server) × (k : ℕ) × (creg_unregister disposal 30 (server visitor) ≡ some (true, t))
    × ((server visitor).slots k ≡ some 30)
    × (t.slots ≡ store (server visitor).slots k none)
    × (t.terminate ≡ 0 + 1)
    × IsCounted t
creg_unregister-IsCounted_example =
    creg_unregister-IsCounted disposal 30 0 visitor (server visitor) refl (server-IsCounted visitor)
      refl refl (omega arith) refl

client_login-stuck_example :
    (t : Server) × (client_login entrance 30 (97 ∷ []) (server member) ≡ some (false, t))
    × ((en' : Entrance) (c' : ℕ) (handle' : Bytes) → client_login en' c' handle' t ≡ none)
client_login-stuck_example =
    client_login-stuck entrance 30 (97 ∷ []) member (server member) refl refl refl refl
