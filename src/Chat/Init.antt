-- ===== src/Chat/Init.antt =====
-- ureg_init of hw5/src/user_registry.c: the empty registry.
use cse320_spring.Base.{ℕ, [], ◌≡◌, refl, some, none, true, false}
use cse320_spring.Chat.Users.{Heap, Library, store, ureg_init}
use cse320_spring.Chat.Links.{last, apart_nil, distinct_nil, distinct_cons, store-at}
use cse320_spring.Chat.Registry.{IsRegistry, held_nil}

-- Where malloc gives an address for the head and space for a mutex, and pthread_mutex_init returns 0,
-- ureg_init gives the head of a registry that is not locked and has no rows.
pub ureg_init-IsRegistry :
    (lib : Library) (head : ℕ) (s : Heap)
    → lib.entry_space ≡ some head
    → lib.mutex_space ≡ true
    → lib.mutex_init ≡ 0
    → (s' : Heap) × (ureg_init lib s ≡ (some head, s')) × IsRegistry head [] s'
unfolding ureg_init
ureg_init-IsRegistry lib head s e m z =
    let s' : Heap = record s {
      locked = false;
      entry = store s.entry head true;
      user = store s.user head none;
      next = store s.next head head;
      prev = store s.prev head head;
    } in
    (
      s',
      rw (ureg_init, e, m, z),
      record {
        unlocked = refl;
        head_allocated = store-at s.entry head head true refl;
        linked = last (store-at s.next head head head refl) (store-at s.prev head head head refl);
        distinct = distinct_cons apart_nil distinct_nil;
        users_distinct = distinct_nil;
        held = held_nil;
      },
    )
