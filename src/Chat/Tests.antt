-- ===== src/Chat/Tests.antt =====
-- Runs of the registry of hw5 on a small heap, and its theorems applied there.
use cse320_spring.Base.{
  ℕ, ◌≡◌, subst, refl, some, none, List, [], ◌∷◌, arith, length, ◌<◌, true, false, if◌then◌else◌,
  ◌==◌,
}
use mathlib.Core.Option.{some-injective}
use cse320_spring.Base.Text.{Bytes, strcmp_equal}
use cse320_spring.Chat.Users.{
  Heap, Library, ureg_init, ureg_register, ureg_unregister, ureg_fini, user_unref, fini_loop,
}
use cse320_spring.Chat.Links.{
  IsApart, last, cell, apart_nil, apart_cons, distinct_nil, distinct_cons,
}
use cse320_spring.Chat.Registry.{Row, IsRegistry, find_row, remove_row, held_nil, held_cons}
use cse320_spring.Chat.Register.{registered, IsFresh, ureg_register-registered}
use cse320_spring.Chat.Fini.{AllClosed, ureg_fini-AllClosed}
use cse320_spring.Chat.Init.{ureg_init-IsRegistry}
use cse320_spring.Chat.Twice.{ureg_register-twice}
use cse320_spring.Chat.Unregister.{ureg_unregister-remove_row, ureg_unregister-stuck}

abbrev alice : Bytes
alice = 97 ∷ 108 ∷ []

abbrev bob : Bytes
bob = 98 ∷ []

-- The head is at 10, one entry at 11 and its user at 5.
abbrev small : Heap
small = record {
  locked = false;
  entry = λ a. if a == 10 then true else a == 11;
  user = λ a. if a == 11 then some 5 else none;
  next = λ a. if a == 10 then 11 else 10;
  prev = λ a. if a == 10 then 11 else 10;
  users = λ u. if u == 5 then some (record { handle = alice; reference_count = 2 }) else none;
}

abbrev rows : List Row
rows = record { entry = 11; user = 5; handle = alice; count = 2 } ∷ []

abbrev library : Library
library = record {
  user_space = some 6;
  handle_space = true;
  mutex_space = true;
  mutex_init = 0;
  entry_space = some 12;
}

small-IsRegistry : IsRegistry 10 rows small
small-IsRegistry = record {
  unlocked = refl;
  head_allocated = refl;
  linked = cell {a = 10} {x = 11} refl refl (last {a = 11} {b = 10} refl refl);
  distinct =
      distinct_cons (apart_cons (omega arith) apart_nil) (distinct_cons apart_nil distinct_nil);
  users_distinct = distinct_cons apart_nil distinct_nil;
  held = held_cons (record { allocated = refl; user_at = refl; alive = refl }) held_nil;
}

library-IsFresh : IsFresh library 10 rows
library-IsFresh = record {
  user_fresh = λ u e.
      subst (λ k. IsApart k (5 ∷ [])) (some-injective 6 u e) (apart_cons (omega arith) apart_nil);
  entry_fresh = λ u e.
      subst (λ k. IsApart k (10 ∷ 11 ∷ [])) (some-injective 12 u e)
        (apart_cons (omega arith) (apart_cons (omega arith) apart_nil));
}

-- A new handle, the handle of an entry, and a handle that is not there.
registered-bob : (registered library bob rows).0 ≡ some 6
unfolding strcmp_equal
registered-bob = refl

found_alice :
    find_row alice rows ≡ some (record { entry = 11; user = 5; handle = alice; count = 2 })
unfolding strcmp_equal
found_alice = refl

missed_bob : find_row bob rows ≡ none
unfolding strcmp_equal
missed_bob = refl

ureg_register-registered_example :
    (s' : Heap) × (ureg_register library 2 10 bob small
      ≡ some ((registered library bob rows).0, s'))
    × IsRegistry 10 (registered library bob rows).1 s'
ureg_register-registered_example =
    ureg_register-registered library 2 10 bob rows small small-IsRegistry library-IsFresh
      (omega arith)

ureg_unregister-remove_row_example :
    (s' : Heap) × (ureg_unregister 2 10 alice small ≡ some s')
    × IsRegistry 10 (remove_row alice rows) s'
    × (s'.users 5 ≡ some (record { handle = alice; reference_count = 1 }))
    × (s'.entry 11 ≡ false)
ureg_unregister-remove_row_example =
    ureg_unregister-remove_row 2 10 alice rows
      (record { entry = 11; user = 5; handle = alice; count = 2 }) small small-IsRegistry
      (omega arith) found_alice

ureg_unregister-stuck_example :
    (s' : Heap) × (ureg_unregister 2 10 bob small ≡ some s')
    × ((lib : Library) (fuel' : ℕ) (handle' : Bytes) → ureg_register lib fuel' 10 handle' s' ≡ none)
    × ((fuel' : ℕ) (handle' : Bytes) → ureg_unregister fuel' 10 handle' s' ≡ none)
ureg_unregister-stuck_example =
    ureg_unregister-stuck 2 10 bob rows small small-IsRegistry (omega arith) missed_bob

-- ureg_fini frees the entries and leaves the user that still has a reference.
fini_small :
    elim (ureg_fini 2 10 small) [ none ↦ none | some s ↦ s.users 5 ]
    ≡ some (record { handle = alice; reference_count = 1 })
unfolding ureg_fini fini_loop user_unref
fini_small = refl

ureg_fini-AllClosed_example :
    (s' : Heap) × (ureg_fini 2 10 small ≡ some s') × (s'.entry 10 ≡ false) × AllClosed s' rows
ureg_fini-AllClosed_example = ureg_fini-AllClosed 2 10 rows small small-IsRegistry (omega arith)

abbrev empty : Heap
empty = record {
  locked = false;
  entry = λ a. false;
  user = λ a. none;
  next = λ a. 0;
  prev = λ a. 0;
  users = λ u. none;
}

ureg_init-empty : (s' : Heap) × (ureg_init library empty ≡ (some 12, s')) × IsRegistry 12 [] s'
ureg_init-empty = ureg_init-IsRegistry library 12 empty refl refl refl

two_rows : length (registered library bob rows).1 < 3
unfolding strcmp_equal
two_rows = omega arith

ureg_register-twice_example :
    (s' : Heap) × (s'' : Heap) × (ureg_register library 3 10 bob small ≡ some (some 6, s'))
    × (ureg_register library 3 10 bob s' ≡ some (some 6, s''))
ureg_register-twice_example =
    ureg_register-twice library library 3 10 bob rows 6 small small-IsRegistry library-IsFresh
      (omega arith) two_rows registered-bob
