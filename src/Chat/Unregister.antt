-- ===== src/Chat/Unregister.antt =====
-- ureg_unregister of hw5/src/user_registry.c against the list of rows.
use cse320_spring.Base.{
  ℕ, ◌+◌, ◌<◌, ◌%◌, ◌^◌, List, [], ◌∷◌, ◌++◌, ◌≡◌, ◌≢◌, refl, sym, subst, ◌∙◌, ap, Option, none,
  some, if◌then◌else◌, inl, inr, true, false, ◌==◌, length, Bool-cases,
}
use cse320_spring.Base.Text.{Bytes}
use cse320_spring.Chat.Users.{
  User, Heap, Library, store, unlock, user_unref, unlink, ureg_register, ureg_unregister,
}
use cse320_spring.Chat.Links.{
  IsApart, apart_cons, IsDistinct, distinct_cons, store-at, store-other, not_sym, Linked,
  Linked-remove, Linked-before, apart-last_of-append,
}
use cse320_spring.Chat.Registry.{
  Row, entries, users, find_row, remove_row, find_row_cases, AllHeld, held_nil, held_cons,
  IsHeld-same, IsRegistry, found-IsHeld,
}
use cse320_spring.Chat.Append.{search-locked, head-IsApart}

-- The rows around the one that is found.
find_row-split :
    (handle : Bytes) (r : Row) (rs : List Row)
    → find_row handle rs ≡ some r
    → (ys : List Row) × (zs : List Row) × (rs ≡ ys ++ r ∷ zs) × (remove_row handle rs ≡ ys ++ zs)
find_row-split handle r [] e = absurd cc
find_row-split handle r (x ∷ rs) e = elim (find_row_cases handle r x rs e) [
  | inl (t, p) ↦ ([], rs, ap (λ y. y ∷ rs) p, rw t)
  | inr (t, e') ↦
      let (ys, zs, a, b) = find_row-split handle r rs e' in
      (x ∷ ys, zs, ap (λ l. x ∷ l) a, rw (t, b))
]

IsApart-remove : (a c : ℕ) (ys zs : List ℕ) → IsApart a (ys ++ c ∷ zs) → IsApart a (ys ++ zs)
IsApart-remove a c [] zs (apart_cons h q) = q
IsApart-remove a c (y ∷ ys) zs (apart_cons h q) = apart_cons h (IsApart-remove a c ys zs q)

IsDistinct-remove : (c : ℕ) (ys zs : List ℕ) → IsDistinct (ys ++ c ∷ zs) → IsDistinct (ys ++ zs)
IsDistinct-remove c [] zs (distinct_cons q d) = d
IsDistinct-remove c (y ∷ ys) zs (distinct_cons q d) =
    distinct_cons (IsApart-remove y c ys zs q) (IsDistinct-remove c ys zs d)

apart-middle : (a c : ℕ) (ys zs : List ℕ) → IsApart a (ys ++ c ∷ zs) → a ≢ c
apart-middle a c [] zs (apart_cons h q) = h
apart-middle a c (y ∷ ys) zs (apart_cons h q) = apart-middle a c ys zs q

middle-IsApart : (c : ℕ) (ys zs : List ℕ) → IsDistinct (ys ++ c ∷ zs) → IsApart c (ys ++ zs)
middle-IsApart c [] zs (distinct_cons q d) = q
middle-IsApart c (y ∷ ys) zs (distinct_cons q d) =
    apart_cons (not_sym (apart-middle y c ys zs q)) (middle-IsApart c ys zs d)

entries-++ : (xs ys : List Row) → entries (xs ++ ys) ≡ entries xs ++ entries ys
entries-++ [] ys = refl
entries-++ (x ∷ xs) ys = ap (λ l. x.entry ∷ l) (entries-++ xs ys)

users-++ : (xs ys : List Row) → users (xs ++ ys) ≡ users xs ++ users ys
users-++ [] ys = refl
users-++ (x ∷ xs) ys = ap (λ l. x.user ∷ l) (users-++ xs ys)

AllHeld-remove :
    (s : Heap) (r : Row) (ys zs : List Row) → AllHeld s (ys ++ r ∷ zs) → AllHeld s (ys ++ zs)
AllHeld-remove s r [] zs (held_cons w held) = held
AllHeld-remove s r (y ∷ ys) zs (held_cons w held) = held_cons w (AllHeld-remove s r ys zs held)

-- One user is written and one entry is freed, and they are of no row.
pub AllHeld-free :
    (s s' : Heap) (u e : ℕ) (v : Option User) (rs : List Row)
    → AllHeld s rs
    → IsApart u (users rs)
    → IsApart e (entries rs)
    → s'.entry ≡ store s.entry e false
    → s'.user ≡ s.user
    → s'.users ≡ store s.users u v
    → AllHeld s' rs
AllHeld-free s s' u e v [] held_nil q t e₁ e₂ e₃ = held_nil
AllHeld-free s s' u e v (r ∷ rs) (held_cons w held) (apart_cons h q) (apart_cons k t) e₁ e₂ e₃ =
    held_cons
      (IsHeld-same s s' r w
        (ap (λ f. f r.entry) e₁ ∙ store-other s.entry e r.entry false (not_sym k))
        (ap (λ f. f r.entry) e₂)
        (ap (λ f. f r.user) e₃ ∙ store-other s.users u r.user v (not_sym h)))
      (AllHeld-free s s' u e v rs held q t e₁ e₂ e₃)

-- What user_unref leaves of a user.
abbrev pub unreferenced : Row → Option User
unreferenced r =
    if (r.count + 4294967295) % 2 ^ 32 == 0
    then none
    else some (record { handle = r.handle; reference_count = (r.count + 4294967295) % 2 ^ 32 })

pub user_unref_lem :
    (s : Heap) (r : Row)
    → s.users r.user ≡ some (record { handle = r.handle; reference_count = r.count })
    → user_unref r.user s ≡ some (record s { users = store s.users r.user (unreferenced r) })
unfolding user_unref
user_unref_lem s r e = elim (Bool-cases ((r.count + 4294967295) % 2 ^ 32 == 0)) [
  | inl t ↦ rw (user_unref, e, t)
  | inr t ↦ rw (user_unref, e, t)
]

-- The heap without a row.
abbrev pub without : Heap → Row → Heap
without s r = record s {
  locked = false;
  entry = store s.entry r.entry false;
  next = store s.next (s.prev r.entry) (s.next r.entry);
  prev = store s.prev (s.next r.entry) (s.prev r.entry);
  users = store s.users r.user (unreferenced r);
}

remove-IsRegistry :
    (head : ℕ) (s : Heap) (r : Row) (ys zs : List Row)
    → IsRegistry head (ys ++ r ∷ zs) s
    → IsRegistry head (ys ++ zs) (without s r)
remove-IsRegistry head s r ys zs w =
    let es = entries-++ ys (r ∷ zs) in
    let es' = sym (entries-++ ys zs) in
    let us = users-++ ys (r ∷ zs) in
    let us' = sym (users-++ ys zs) in
    let d = subst (λ l. IsDistinct (head ∷ l)) es w.distinct in
    let ha = subst (IsApart head) es (head-IsApart head (ys ++ r ∷ zs) s w) in
    let eq : IsDistinct (entries ys ++ r.entry ∷ entries zs) = elim d [ distinct_cons q d' ↦ d' ] in
    let ud = subst IsDistinct us w.users_distinct in
    record {
      unlocked = refl;
      head_allocated =
          store-other s.entry r.entry head false
            (apart-middle head r.entry (entries ys) (entries zs) ha)
          ∙ w.head_allocated;
      linked =
          subst (λ l. Linked (without s r).next (without s r).prev head l head) es'
            (Linked-remove s.next s.prev r.entry head head (entries ys) (entries zs)
              (subst (λ l. Linked s.next s.prev head l head) es w.linked) d ha);
      distinct =
          subst (λ l. IsDistinct (head ∷ l)) es'
            (IsDistinct-remove r.entry (head ∷ entries ys) (entries zs) d);
      users_distinct = subst IsDistinct us' (IsDistinct-remove r.user (users ys) (users zs) ud);
      held =
          AllHeld-free s (without s r) r.user r.entry (unreferenced r) (ys ++ zs)
            (AllHeld-remove s r ys zs w.held)
            (subst (IsApart r.user) us' (middle-IsApart r.user (users ys) (users zs) ud))
            (subst (IsApart r.entry) es' (middle-IsApart r.entry (entries ys) (entries zs) eq)) refl
            refl refl;
    }

-- The neighbours of an entry are joined, where it does not follow itself.
unlink_lem :
    (c : ℕ) (s : Heap)
    → c ≢ s.prev c
    → unlink c s ≡ record s {
      next = store s.next (s.prev c) (s.next c);
      prev = store s.prev (s.next c) (s.prev c);
    }
unfolding unlink
unlink_lem c s h =
    ap
      (λ k. record s {
        next = store s.next (s.prev c) (s.next c);
        prev = store s.prev k (s.prev c);
      })
      (store-other s.next (s.prev c) c (s.next c) h)

before_other :
    (head : ℕ) (s : Heap) (r : Row) (ys zs : List Row)
    → IsRegistry head (ys ++ r ∷ zs) s
    → r.entry ≢ s.prev r.entry
before_other head s r ys zs w =
    let es = entries-++ ys (r ∷ zs) in
    let d = subst (λ l. IsDistinct (head ∷ l)) es w.distinct in
    let before =
      Linked-before s.next s.prev r.entry head head (entries ys) (entries zs)
        (subst (λ l. Linked s.next s.prev head l head) es w.linked) in
    λ k.
      apart-last_of-append r.entry head (entries ys) (entries zs)
        (middle-IsApart r.entry (head ∷ entries ys) (entries zs) d) (k ∙ before)

-- On a registry that is not locked, whose rows are `rows`, with fuel for each row and one round
-- more, where a row has the handle: ureg_unregister returns and unlocks the mutex, the first such row
-- is taken out, the other rows stay in order, and its user has one reference less or is freed when
-- that leaves none.
pub ureg_unregister-remove_row :
    (fuel head : ℕ) (handle : Bytes) (rows : List Row) (r : Row) (s : Heap)
    → IsRegistry head rows s
    → length rows < fuel
    → find_row handle rows ≡ some r
    → (s' : Heap) × (ureg_unregister fuel head handle s ≡ some s')
      × IsRegistry head (remove_row handle rows) s'
      × (s'.users r.user ≡ (
          if (r.count + 4294967295) % 2 ^ 32 == 0
          then none
          else some
              (record { handle = r.handle; reference_count = (r.count + 4294967295) % 2 ^ 32 })))
      × (s'.entry r.entry ≡ false)
unfolding ureg_unregister
ureg_unregister-remove_row fuel head handle rows r s w h e =
    let (ys, zs, a, b) = find_row-split handle r rows e in
    let alive = (found-IsHeld s handle r rows w.held e).alive in
    let loop = search-locked head rows s w fuel handle h in
    let unref = user_unref_lem (record s { locked = true }) r alive in
    let joined =
      unlink_lem r.entry (record s { locked = true; users = store s.users r.user (unreferenced r) })
        (before_other head s r ys zs (subst (λ l. IsRegistry head l s) a w)) in
    (
      without s r,
      rw (ureg_unregister, w.unlocked, loop, e, unref)
          (ap (λ k. some (unlock (record k { entry = store k.entry r.entry false }))) joined),
      subst (λ l. IsRegistry head l (without s r)) (sym b)
          (remove-IsRegistry head s r ys zs (subst (λ l. IsRegistry head l s) a w)),
      store-at s.users r.user r.user (unreferenced r) refl,
      store-at s.entry r.entry r.entry false refl,
    )

-- On a registry that is not locked, whose rows are `rows`, with fuel for each row and one round
-- more, where no row has the handle: ureg_unregister returns, but every later call of ureg_register
-- or ureg_unregister on that heap does not, because the mutex is still locked.
pub ureg_unregister-stuck :
    (fuel head : ℕ) (handle : Bytes) (rows : List Row) (s : Heap)
    → IsRegistry head rows s
    → length rows < fuel
    → find_row handle rows ≡ none
    → (s' : Heap) × (ureg_unregister fuel head handle s ≡ some s')
      × ((lib : Library) (fuel' : ℕ) (handle' : Bytes)
          → ureg_register lib fuel' head handle' s' ≡ none)
      × ((fuel' : ℕ) (handle' : Bytes) → ureg_unregister fuel' head handle' s' ≡ none)
unfolding ureg_register ureg_unregister
ureg_unregister-stuck fuel head handle rows s w h e =
    let loop = search-locked head rows s w fuel handle h in
    (
      record s { locked = true },
      rw (ureg_unregister, w.unlocked, loop, e),
      λ lib fuel' handle'. refl,
      λ fuel' handle'. refl,
    )
