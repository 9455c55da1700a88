-- ===== src/Bdd/Insert.antt =====
-- bdd_lookup adds a node: the store stays well formed.
use cse320_spring.Base.{
  ℕ, ◌+◌, ◌≤◌, ◌<◌, ◌≡◌, ◌≢◌, refl, sym, ap, subst, ◌∙◌, false, none, some, Option, ◌⊎◌, inl, inr,
  arith, eq_cases, lt_cases, lt→ltb, ltb_of_le,
}
use cse320_spring.Bdd.Store.{
  Node, Store, num_leaves, nodes_max, hash_size, hash, zero_node, equal_node, update, insert,
  returned, exited,
}
use cse320_spring.Bdd.Occupancy.{used-update, slot}
use cse320_spring.Bdd.Probe.{Miss, equal_node_refl}
use cse320_spring.Bdd.Invariant.{IsInner, IsPlaced, IsValid, Extends}

abbrev pub inserted : Store → ℕ → Node → Store
inserted s k n = record {
  nodes = update s.nodes s.next n;
  hash_map = update s.hash_map k (some s.next);
  next = s.next + 1;
}

pub update_ne {ℓ} : {A : Type ℓ} (f : ℕ → A) (k : ℕ) (v : A) (i : ℕ) → i ≢ k → update f k v i ≡ f i
update_ne f k v i h = ground arith

pub update_eq {ℓ} : {A : Type ℓ} (f : ℕ → A) (k : ℕ) (v : A) (i : ℕ) → i ≡ k → update f k v i ≡ v
update_eq f k v i h = ground arith

pub insert_room :
    (s : Store) (k : ℕ) (n : Node)
    → s.next < nodes_max
    → s.nodes s.next ≡ zero_node
    → insert k n s ≡ returned (some s.next) (inserted s k n)
unfolding insert
insert_room s k n h e = rw (lt→ltb s.next nodes_max h, e)

pub insert_full : (s : Store) (k : ℕ) (n : Node) → nodes_max ≤ s.next → insert k n s ≡ exited s
unfolding insert
insert_full s k n h = rw (ltb_of_le s.next nodes_max h)

update-some :
    (f : ℕ → Option ℕ) (k w i j : ℕ) → f k ≡ none → f i ≡ some j → update f k (some w) i ≡ some j
update-some f k w i j e h = ground arith

ne-none-update : (f : ℕ → Option ℕ) (k w i : ℕ) → f i ≢ none → update f k (some w) i ≢ none
ne-none-update f k w i h = elim (eq_cases i k) [
  | inl e ↦ λ p. cc (update_eq f k (some w) i e)
  | inr e ↦ λ p. h (sym (update_ne f k (some w) i e) ∙ p)
]

-- A node that is in the table is met before the first free slot of its probe sequence.
pub not-mem_of_Miss :
    (s : Store) (n : Node) (t i : ℕ) → Miss s n (hash n) t → IsPlaced s i → s.nodes i ≢ n
not-mem_of_Miss s n t i miss p e = elim (lt_cases p.round t) [
  | inl h ↦ let (j, q, w) = miss.2 p.round h in meet j q w
  | inr h ↦ elim (eq_cases p.round t) [
    | inl same ↦ cc (found, ap (λ u. s.hash_map (slot (hash n) u)) same, miss.1)
    | inr other ↦
        p.before t (omega arith) (subst (λ m. s.hash_map (slot (hash m) t) ≡ none) (sym e) miss.1)
  ]
]
  where
    found : s.hash_map (slot (hash n) p.round) ≡ some i
    found = subst (λ m. s.hash_map (slot (hash m) p.round) ≡ some i) e p.found

    meet :
        (j : ℕ) → s.hash_map (slot (hash n) p.round) ≡ some j → equal_node n (s.nodes j) ≡ false → ⊥
    meet j q w = cc (found, equal_node_refl n, e)

module _ (s : Store) (v : IsValid s) (n : Node) (inner : IsInner s n) (t : ℕ)
    (miss : Miss s n (hash n) t) (room : s.next < nodes_max) where
  after : Store
  after = inserted s (slot (hash n) t) n

  old : (i : ℕ) → i < s.next → after.nodes i ≡ s.nodes i
  unfolding after
  old i h = update_ne s.nodes s.next n i (omega arith)

  new : after.nodes s.next ≡ n
  unfolding after
  new = update_eq s.nodes s.next n s.next refl

  not_equal : (i : ℕ) → num_leaves ≤ i → i < s.next → s.nodes i ≢ n
  not_equal i lo hi = not-mem_of_Miss s n t i miss (v.placed i lo hi)

  keep-IsInner : (m : Node) → IsInner s m → IsInner after m
  unfolding after
  keep-IsInner m h = record {
    level_pos = h.level_pos;
    level_max = h.level_max;
    left_in = omega (arith, h.left_in);
    right_in = omega (arith, h.right_in);
    left_below = rw (old m.left h.left_in) h.left_below;
    right_below = rw (old m.right h.right_in) h.right_below;
    reduced = h.reduced;
  }

  old-IsPlaced : (i : ℕ) → num_leaves ≤ i → i < s.next → IsPlaced after i
  unfolding after
  old-IsPlaced i lo hi =
      let p = v.placed i lo hi in
      record {
        round = p.round;
        round_lt = p.round_lt;
        found =
            subst (λ m. after.hash_map (slot (hash m) p.round) ≡ some i) (sym (old i hi))
              (update-some s.hash_map _ s.next _ i miss.1 p.found);
        before = λ u h.
            subst (λ m. after.hash_map (slot (hash m) u) ≢ none) (sym (old i hi))
              (ne-none-update s.hash_map _ s.next _ (p.before u h));
      }

  new-IsPlaced : IsPlaced after s.next
  unfolding after
  new-IsPlaced = record {
    round = t;
    round_lt = miss.0;
    found =
        subst (λ m. after.hash_map (slot (hash m) t) ≡ some s.next) (sym new)
          (update_eq s.hash_map _ (some s.next) _ refl);
    before = λ u h.
        subst (λ m. after.hash_map (slot (hash m) u) ≢ none) (sym new)
          (ne-none-update s.hash_map _ s.next _ (let (j, q, w) = miss.2 u h in λ e. cc));
  }

  new_cases : (i : ℕ) → i < s.next + 1 → (i < s.next) ⊎ (i ≡ s.next)
  new_cases i h = elim (lt_cases i s.next) [ inl p ↦ inl p | inr p ↦ inr (omega arith) ]

  new_unique :
      (i j : ℕ)
      → num_leaves ≤ i
      → i < s.next + 1
      → num_leaves ≤ j
      → j < s.next + 1
      → after.nodes i ≡ after.nodes j
      → i ≡ j
  new_unique i j li hi lj hj e = elim (new_cases i hi) [
    | inl p ↦ elim (new_cases j hj) [
      | inl q ↦ v.unique i j li p lj q (sym (old i p) ∙ e ∙ old j q)
      | inr q ↦ absurd (not_equal i li p (sym (old i p) ∙ e ∙ ap after.nodes q ∙ new))
    ]
    | inr p ↦ elim (new_cases j hj) [
      | inl q ↦ absurd (not_equal j lj q (sym (old j q) ∙ sym e ∙ ap after.nodes p ∙ new))
      | inr q ↦ p ∙ sym q
    ]
  ]

  new-entries : (k j : ℕ) → after.hash_map k ≡ some j → (num_leaves ≤ j) × (j < s.next + 1)
  unfolding after
  new-entries k j h = elim (eq_cases k (slot (hash n) t)) [
    | inl p ↦
        let e : s.next ≡ j = cc (update_eq s.hash_map _ (some s.next) k p) in omega (arith, v.low)
    | inr p ↦
        let q = v.entries k j (sym (update_ne s.hash_map _ (some s.next) k p) ∙ h) in omega arith
  ]

  pub inserted-IsValid : IsValid (inserted s (slot (hash n) t) n)
  unfolding after
  inserted-IsValid = record {
    low = omega (arith, v.low);
    high = omega arith;
    leaves = λ i h. old i (omega (arith, v.low)) ∙ v.leaves i h;
    fresh = λ i h. update_ne s.nodes s.next n i (omega arith) ∙ v.fresh i (omega arith);
    inner = λ i lo hi. elim (new_cases i hi) [
      | inl p ↦ rw (old i p) (keep-IsInner _ (v.inner i lo p))
      | inr p ↦ rw (p, new) (keep-IsInner n inner)
    ];
    unique = new_unique;
    placed = λ i lo hi. elim (new_cases i hi) [
      | inl p ↦ old-IsPlaced i lo p
      | inr p ↦ rw p new-IsPlaced
    ];
    entries = new-entries;
    counted = omega (
      arith,
      v.counted,
      used-update s.hash_map (slot (hash n) t) s.next hash_size miss.1 (omega arith),
    );
  }

  pub inserted-Extends : Extends s (inserted s (slot (hash n) t) n)
  unfolding after
  inserted-Extends = record { grown = omega arith; kept = old }
