-- ===== src/Chat/Slots.antt =====
-- The count of the client registry of hw5/src/client_registry.c and its slots.
use cse320_spring.Base.{
  ℕ, zero, suc, ◌+◌, ◌%◌, ◌^◌, ◌≤◌, ◌<◌, ◌≡◌, refl, sym, ap, ◌∙◌, ◌⊎◌, inl, inr, true, false,
  Option, none, some, ◌==◌, ltb, arith, Bool-cases, eq_cases, ==-eq-true, Option-cases, lt→ltb,
  eq_of_==,
}
use cse320_spring.Base.Search.{first, first-some, first-none}
use cse320_spring.Chat.Users.{store}
use cse320_spring.Chat.Links.{store-at, store-other}
use cse320_spring.Chat.Clients.{
  Client, no_user, Server, Disposal, max_clients, is_free, is_client, client_create, client_ref,
  client_unref, creg_register, creg_unregister, leave, put_client,
}

abbrev pub taken_slot : Option ℕ → ℕ
taken_slot none = 0
taken_slot (some c) = 1

-- The number of the first `n` slots that are not NULL.
unfoldable pub occupied : ℕ → (ℕ → Option ℕ) → ℕ
occupied zero slots = 0
occupied (suc n) slots = occupied n slots + taken_slot (slots n)

abbrev pub IsCounted : Server → Type 0
IsCounted s = s.count ≡ occupied max_clients s.slots

occupied_le : (n : ℕ) (slots : ℕ → Option ℕ) → occupied n slots ≤ n
unfolding occupied
occupied_le zero slots = omega arith
occupied_le (suc n) slots = elim (Option-cases (slots n)) [
  | inl e ↦ rw (e) (omega (arith, occupied_le n slots))
  | inr (c, e) ↦ rw (e) (omega (arith, occupied_le n slots))
]

-- A write past the first `n` slots, and into one of them.
occupied_past :
    (n i : ℕ) (v : Option ℕ) (slots : ℕ → Option ℕ)
    → n ≤ i
    → occupied n (store slots i v) ≡ occupied n slots
unfolding occupied
occupied_past zero i v slots h = refl
occupied_past (suc n) i v slots h =
    rw
      (store-other slots i n v (λ e. absurd (omega arith)), occupied_past n i v slots (omega arith))

occupied-store :
    (n i : ℕ) (v : Option ℕ) (slots : ℕ → Option ℕ)
    → i < n
    → occupied n (store slots i v) + taken_slot (slots i) ≡ occupied n slots + taken_slot v
unfolding occupied
occupied-store zero i v slots h = absurd (omega arith)
occupied-store (suc n) i v slots h = elim (eq_cases i n) [
  | inl e ↦
      let here : store slots i v n ≡ v = store-at slots i n v (sym e) in
      let same : slots i ≡ slots n = ap slots e in
      rw (here, same, occupied_past n i v slots (omega arith)) (omega arith)
  | inr ne ↦
      let there : store slots i v n ≡ slots n = store-other slots i n v (λ e. ne (sym e)) in
      rw (there) (omega (arith, occupied-store n i v slots (omega arith)))
]

occupied_all :
    (n : ℕ) (slots : ℕ → Option ℕ)
    → ((j : ℕ) → j < n → is_free (slots j) ≡ false)
    → occupied n slots ≡ n
unfolding occupied
occupied_all zero slots h = refl
occupied_all (suc n) slots h = elim (Option-cases (slots n)) [
  | inl e ↦ absurd (cc (ap is_free e, h n (omega arith)))
  | inr (c, e) ↦ rw (e) (omega (arith, occupied_all n slots (λ j k. h j (omega arith))))
]

-- A new client with two references, of the caller and of the registry.
abbrev pub newcomer : ℕ → Client
newcomer fd = record { fd = fd; status = no_user; user = none; mailbox = none; reference_count = 2 }

creg_register_run :
    (c fd i : ℕ) (s : Server)
    → s.locked ≡ false
    → s.count < 64
    → first max_clients 0 (λ k. is_free (s.slots k)) ≡ some i
    → creg_register (some c) true fd s
      ≡ some (
        some c,
        record s {
          clients =
              store
                (store s.clients c (some (record (newcomer fd) { reference_count = 1 })))
                c
                (some (newcomer fd));
          slots = store s.slots i (some c);
          count = (s.count + 1) % 2 ^ 32;
        },
      )
unfolding creg_register client_create client_ref
creg_register_run c fd i s free room found =
    rw
      (
        creg_register,
        free,
        lt→ltb s.count 64 room,
        found,
        store-at s.clients c c (some (record (newcomer fd) { reference_count = 1 })) refl,
      )
      (ap
        (λ l. some (
          some c,
          record s {
            clients =
                store (store s.clients c (some (record (newcomer fd) { reference_count = 1 }))) c
                  (some (newcomer fd));
            slots = store s.slots i (some c);
            count = (s.count + 1) % 2 ^ 32;
            locked = l;
          },
        ))
        free)

is_free-none : (o : Option ℕ) → is_free o ≡ true → o ≡ none
is_free-none none e = refl
is_free-none (some c) e = absurd (cc)

-- For a registry whose mutex is free and whose count is the number of its slots that are not NULL,
-- where malloc gives the client and its mutex is made: if the count is 64, creg_register returns NULL
-- and changes nothing, and otherwise it returns the client, which stands in a slot that was NULL and
-- has two references, the other slots are the same, and the count is again that number.
pub creg_register-IsCounted :
    (c fd : ℕ) (s : Server)
    → s.locked ≡ false
    → IsCounted s
    → ((s.count ≡ 64) × (creg_register (some c) true fd s ≡ some (none, s)))
      ⊎ ((t : Server) × (i : ℕ) × (creg_register (some c) true fd s ≡ some (some c, t))
          × (i < 64)
          × (s.slots i ≡ none)
          × (t.slots ≡ store s.slots i (some c))
          × (t.clients c ≡ some (newcomer fd))
          × IsCounted t)
unfolding creg_register
creg_register-IsCounted c fd s free counted = elim (Bool-cases (ltb s.count 64)) [
  | inr full ↦ inl (ground (arith, occupied_le 64 s.slots), rw (creg_register, free, full))
  | inl room ↦ elim (Option-cases (first max_clients 0 (λ k. is_free (s.slots k)))) [
    | inl e ↦
        let all =
          occupied_all 64 s.slots
            (λ j h. first-none 64 0 (λ k. is_free (s.slots k)) e j (omega arith) (omega arith)) in
        absurd (ground (arith, all))
    | inr (i, e) ↦
        let (a, b, f, l) = first-some 64 0 (λ k. is_free (s.slots k)) i e in
        let nothing : taken_slot (s.slots i) ≡ 0 = ap taken_slot (is_free-none (s.slots i) f) in
        let less : s.count < 64 = ground arith in
        inr (
          record s {
            clients =
                store (store s.clients c (some (record (newcomer fd) { reference_count = 1 }))) c
                  (some (newcomer fd));
            slots = store s.slots i (some c);
            count = (s.count + 1) % 2 ^ 32;
          },
          i,
          creg_register_run c fd i s free less e,
          omega arith,
          is_free-none (s.slots i) f,
          refl,
          store-at (store s.clients c (some (record (newcomer fd) { reference_count = 1 }))) c c
              (some (newcomer fd)) refl,
          omega (arith, occupied-store 64 i (some c) s.slots (omega arith)),
        )
  ]
]

is_client-some : (c : ℕ) (o : Option ℕ) → is_client c o ≡ true → o ≡ some c
is_client-some c none e = absurd (cc)
is_client-some c (some d) e = ap some (eq_of_== d c e)

leave-some : (d : Disposal) (x : Client) (s : Server) → x.status ≡ no_user → leave d x s ≡ some s
unfolding leave
leave-some d x s outside = rw (leave, outside)

client_unref_kept :
    (d : Disposal) (c : ℕ) (x : Client) (s : Server)
    → s.clients c ≡ some x
    → x.status ≡ no_user
    → (t : Server) × (client_unref d c s ≡ some t)
      × (t.slots ≡ s.slots)
      × (t.count ≡ s.count)
      × (t.terminate ≡ s.terminate)
unfolding client_unref
client_unref_kept d c x s at outside =
    let n = (x.reference_count + 4294967295) % 2 ^ 32 in
    let counted = put_client c (record x { reference_count = n }) s in
    elim (Bool-cases (n == 0)) [
      | inl e ↦ (
        record counted { clients = store counted.clients c none },
        rw (at, e, leave-some d x counted outside),
        refl,
        refl,
        refl,
      )
      | inr e ↦ (counted, rw (at, e), refl, refl, refl)
    ]

creg_unregister_run :
    (d : Disposal) (c k : ℕ) (s s₁ : Server)
    → s.locked ≡ false
    → first max_clients 0 (λ j. is_client c (s.slots j)) ≡ some k
    → client_unref d c s ≡ some s₁
    → creg_unregister d c s
      ≡ some (
        true,
        record s₁ {
          slots = store s₁.slots k none;
          count = (s₁.count + 4294967295) % 2 ^ 32;
          terminate = s₁.terminate + 1;
        },
      )
unfolding creg_unregister
creg_unregister_run d c k s s₁ free e run = rw (creg_unregister, free, e, run)

-- For a registry whose mutex is free and whose count is the number of its slots that are not NULL,
-- where a client that is not logged in stands in a slot, creg_unregister returns 0, one slot of that
-- client is NULL and the others are the same, the semaphore is posted, and the count is again that
-- number.
pub creg_unregister-IsCounted :
    (d : Disposal) (c i : ℕ) (x : Client) (s : Server)
    → s.locked ≡ false
    → IsCounted s
    → s.clients c ≡ some x
    → x.status ≡ no_user
    → i < 64
    → s.slots i ≡ some c
    → (t : Server) × (k : ℕ) × (creg_unregister d c s ≡ some (true, t))
      × (s.slots k ≡ some c)
      × (t.slots ≡ store s.slots k none)
      × (t.terminate ≡ s.terminate + 1)
      × IsCounted t
unfolding creg_unregister
creg_unregister-IsCounted d c i x s free counted at outside small here =
    let (s₁, run, e₁, e₂, e₃) = client_unref_kept d c x s at outside in
    elim (Option-cases (first max_clients 0 (λ k. is_client c (s.slots k)))) [
      | inl e ↦
          let no = first-none 64 0 (λ k. is_client c (s.slots k)) e i (omega arith) (omega arith) in
          let yes : is_client c (s.slots i) ≡ true = ap (is_client c) here ∙ ==-eq-true c c refl in
          absurd (cc)
      | inr (k, e) ↦
          let (a, b, f, l) = first-some 64 0 (λ j. is_client c (s.slots j)) k e in
          let slot : s.slots k ≡ some c = is_client-some c (s.slots k) f in
          let full : taken_slot (s.slots k) ≡ 1 = ap taken_slot slot in
          (
            record s₁ {
              slots = store s₁.slots k none;
              count = (s₁.count + 4294967295) % 2 ^ 32;
              terminate = s₁.terminate + 1;
            },
            k,
            creg_unregister_run d c k s s₁ free e run,
            slot,
            ap (λ g. store g k none) e₁,
            ap (λ n. n + 1) e₃,
            rw (e₁, e₂)
                (omega
                  (arith, occupied-store 64 k none s.slots (omega arith), occupied_le 64 s.slots)),
          )
    ]
