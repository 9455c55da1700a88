-- ===== src/Bdd/Lookup.antt =====
-- bdd_lookup of hw1/src/bdd.c as a whole.
use cse320_spring.Base.{
  ℕ, ◌≤◌, ◌<◌, ◌≡◌, ◌≢◌, ◌⊎◌, refl, none, some, inl, inr, arith, eq_cases, lt_cases, ==-eq-false,
  ==-eq-true, ltb_of_le, leb_of_lt,
}
use cse320_spring.Bdd.Store.{
  Node, Store, Index, returned, num_leaves, nodes_max, levels_max, hash_size, hash, insert, probe,
  bdd_lookup,
}
use cse320_spring.Bdd.Occupancy.{used_free, slot}
use cse320_spring.Bdd.Probe.{Miss, Hit, probe_lem, hash-lt}
use cse320_spring.Bdd.Invariant.{IsInner, IsValid, Extends, Extends-refl, Ensures}
use cse320_spring.Bdd.Insert.{
  inserted, inserted-IsValid, inserted-Extends, update_eq, insert_room, insert_full,
}

-- The index stands for a node of at most the level.
abbrev pub Stands : Store → ℕ → ℕ → Type 0
Stands s i level = (i < s.next) × ((s.nodes i).level ≤ level)

-- What a bdd_lookup from `s` that returned `i` and left `s'` has found.
pub record Found (s : Store) (level l r i : ℕ) (s' : Store) : Type 0 where
  pub valid : IsValid s'
  pub extends : Extends s s'
  pub stands : Stands s' i level
  pub node :
      ((l ≡ r) × (i ≡ l))
      ⊎ ((num_leaves ≤ i) × (s'.nodes i ≡ record { level = level; left = l; right = r }) × (l ≢ r))

-- A run that returned the index of a node with the property.
abbrev pub Finds : (ℕ → Store → Type 0) → Index → Store → Type 0
Finds P none s = ⊥
Finds P (some i) s = P i s

-- Children that stand one level below.
pub record Fits (s : Store) (level l r : ℕ) : Type 0 where
  pub level_pos : 0 < level
  pub level_max : level ≤ levels_max
  pub left_in : l < s.next
  pub right_in : r < s.next
  pub left_below : (s.nodes l).level < level
  pub right_below : (s.nodes r).level < level

module _ (s : Store) (v : IsValid s) (level l r : ℕ) (fits : Fits s level l r) where
  wanted : Node
  wanted = record { level = level; left = l; right = r }

  inserted-Found :
      (t : ℕ)
      → l ≢ r
      → Miss s wanted (hash wanted) t
      → s.next < nodes_max
      → Found s level l r s.next (inserted s (slot (hash wanted) t) wanted)
  unfolding wanted
  inserted-Found t ne miss room = record {
    valid = inserted-IsValid s v wanted inner t miss room;
    extends = inserted-Extends s v wanted inner t miss room;
    stands = (omega arith, rw (update_eq s.nodes s.next wanted s.next refl) (omega arith));
    node = inr (v.low, update_eq s.nodes s.next wanted s.next refl, ne);
  }
    where
      inner : IsInner s wanted
      inner = record {
        level_pos = fits.level_pos;
        level_max = fits.level_max;
        left_in = fits.left_in;
        right_in = fits.right_in;
        left_below = fits.left_below;
        right_below = fits.right_below;
        reduced = ne;
      }

  insert-Finds :
      (t : ℕ)
      → l ≢ r
      → Miss s wanted (hash wanted) t
      → Ensures (insert (slot (hash wanted) t) wanted s) (Finds (Found s level l r))
  insert-Finds t ne miss = elim (lt_cases s.next nodes_max) [
    | inl room ↦
        rw (insert_room s (slot (hash wanted) t) wanted room (v.fresh s.next (omega arith)))
          (inserted-Found t ne miss room)
    | inr full ↦ rw (insert_full s (slot (hash wanted) t) wanted full) (omega (arith, v.high))
  ]

  Hit-Found : (j u : ℕ) → l ≢ r → Hit s wanted (hash wanted) j u → Found s level l r j s
  unfolding wanted
  Hit-Found j u ne (e, p) =
      let (lo, hi) = v.entries _ j e in
      record {
        valid = v;
        extends = Extends-refl s;
        stands = (hi, rw p (omega arith));
        node = inr (lo, p, ne);
      }

  pub lookup_equal : l ≡ r → bdd_lookup level (some l) (some r) s ≡ returned (some l) s
  unfolding bdd_lookup
  lookup_equal e = rw (
    ltb_of_le levels_max level fits.level_max,
    leb_of_lt nodes_max l (omega (arith, v.high, fits.left_in)),
    leb_of_lt nodes_max r (omega (arith, v.high, fits.right_in)),
    ==-eq-true l r e,
  )

  lookup_probe :
      l ≢ r
      → bdd_lookup level (some l) (some r) s ≡ probe hash_size (hash wanted) (hash wanted) wanted s
  unfolding bdd_lookup wanted
  lookup_probe ne = rw (
    ltb_of_le levels_max level fits.level_max,
    leb_of_lt nodes_max l (omega (arith, v.high, fits.left_in)),
    leb_of_lt nodes_max r (omega (arith, v.high, fits.right_in)),
    ==-eq-false l r ne,
  )

  pub lookup_search :
      (n : Node)
      → n ≡ record { level = level; left = l; right = r }
      → l ≢ r
      → bdd_lookup level (some l) (some r) s ≡ probe hash_size (hash n) (hash n) n s
  unfolding wanted
  lookup_search n e ne = rw e (lookup_probe ne)

  start_slot : slot (hash wanted) 0 ≡ hash wanted
  start_slot = omega (arith, hash-lt wanted)

  probe-Finds :
      (fuel : ℕ)
      → fuel ≡ hash_size
      → l ≢ r
      → Ensures
          (probe fuel (hash wanted) (slot (hash wanted) 0) wanted s)
          (Finds (Found s level l r))
  probe-Finds fuel e ne =
      elim (probe_lem s wanted (hash wanted) fuel 0 (hash-lt wanted) (omega arith) (omega arith)
        free (λ u h. absurd (omega arith))) [
          | inl (j, p, (u, hit)) ↦ rw p (Hit-Found j u ne hit)
          | inr (u, p, miss) ↦ rw p (insert-Finds u ne miss)
        ]
    where
      free : ¬ ((u : ℕ) → u < hash_size → s.hash_map (slot (hash wanted) u) ≢ none)
      free = used_free s.hash_map (hash wanted) (hash-lt wanted) (omega (arith, v.counted, v.high))

  -- For children that stand below the level, bdd_lookup returns an index, never -1, or exits because
  -- the node table is full. The store stays well formed and its nodes are kept. The index is the
  -- child, if the children are equal, and else a node with just this level and these children.
  pub bdd_lookup-Found : Ensures (bdd_lookup level (some l) (some r) s) (Finds (Found s level l r))
  bdd_lookup-Found = elim (eq_cases l r) [
    | inl e ↦ rw (lookup_equal e) (record {
      valid = v;
      extends = Extends-refl s;
      stands = (fits.left_in, omega (arith, fits.left_below));
      node = inl (e, refl);
    })
    | inr ne ↦ rw (lookup_probe ne) (rw start_slot at (probe-Finds hash_size refl ne))
  ]
