-- ===== src/Bdd/Invariant.antt =====
-- The well-formed stores of hw1/src/bdd.c: a reduced, ordered, shared diagram behind a hash map.
use cse320_spring.Base.{ℕ, ◌+◌, ◌≤◌, ◌<◌, ◌≡◌, ◌≢◌, refl, ◌∙◌, none, some, arith}
use cse320_spring.Bdd.Store.{
  Node, Store, Run, returned, exited, diverged, num_leaves, nodes_max, levels_max, hash_size, hash,
  initial, zero_node, M, ◌>>=◌,
}
use cse320_spring.Bdd.Occupancy.{used, used_empty, slot}

-- An entry of the table that stands for a node: children of lower levels, which differ.
pub record IsInner (s : Store) (n : Node) : Type 0 where
  pub level_pos : 0 < n.level
  pub level_max : n.level ≤ levels_max
  pub left_in : n.left < s.next
  pub right_in : n.right < s.next
  pub left_below : (s.nodes n.left).level < n.level
  pub right_below : (s.nodes n.right).level < n.level
  pub reduced : n.left ≢ n.right

-- The probe sequence of a node finds it before any free slot.
pub record IsPlaced (s : Store) (i : ℕ) : Type 0 where
  pub round : ℕ
  pub round_lt : round < hash_size
  pub found : s.hash_map (slot (hash (s.nodes i)) round) ≡ some i
  pub before : (u : ℕ) → u < round → s.hash_map (slot (hash (s.nodes i)) u) ≢ none

pub record IsValid (s : Store) : Type 0 where
  pub low : num_leaves ≤ s.next
  pub high : s.next ≤ nodes_max
  pub leaves : (i : ℕ) → i < num_leaves → s.nodes i ≡ zero_node
  pub fresh : (i : ℕ) → s.next ≤ i → s.nodes i ≡ zero_node
  pub inner : (i : ℕ) → num_leaves ≤ i → i < s.next → IsInner s (s.nodes i)
  pub unique :
      (i j : ℕ)
      → num_leaves ≤ i
      → i < s.next
      → num_leaves ≤ j
      → j < s.next
      → s.nodes i ≡ s.nodes j
      → i ≡ j
  pub placed : (i : ℕ) → num_leaves ≤ i → i < s.next → IsPlaced s i
  pub entries : (k j : ℕ) → s.hash_map k ≡ some j → (num_leaves ≤ j) × (j < s.next)
  pub counted : used s.hash_map hash_size + num_leaves ≡ s.next

-- Nodes are only ever added.
pub record Extends (s s' : Store) : Type 0 where
  pub grown : s.next ≤ s'.next
  pub kept : (i : ℕ) → i < s.next → s'.nodes i ≡ s.nodes i

pub Extends-refl : (s : Store) → Extends s s
Extends-refl s = record { grown = omega arith; kept = λ i h. refl }

pub Extends-trans : {s t u : Store} → Extends s t → Extends t u → Extends s u
Extends-trans a b = record {
  grown = omega arith;
  kept = λ i h. b.kept i (omega arith) ∙ a.kept i h;
}

-- The run does not diverge; where it exits, the node table is full; else the result satisfies `P`.
abbrev pub Ensures : {A : Type 0} → Run A → (A → Store → Type 0) → Type 0
Ensures (returned a s) P = P a s
Ensures (exited s) P = s.next ≡ nodes_max
Ensures diverged P = ⊥

pub Ensures-bind :
    {A B : Type 0} (m : M A) (f : A → M B) (P : A → Store → Type 0) (Q : B → Store → Type 0)
    (s : Store)
    → Ensures (m s) P
    → ((a : A) (s' : Store) → P a s' → Ensures (f a s') Q)
    → Ensures ((m >>= f) s) Q
Ensures-bind m f P Q s h k = go (m s) h
  where
    go :
        (r : Run _)
        → Ensures r P
        → Ensures
            (elim r [ returned a s' ↦ f a s' | exited s' ↦ exited s' | diverged ↦ diverged ])
            Q
    go (returned a s') p = k a s' p
    go (exited s') p = p
    go diverged p = p

-- The store of a program that starts is well formed.
pub initial-IsValid : IsValid initial
initial-IsValid = record {
  low = omega arith;
  high = omega arith;
  leaves = λ i h. refl;
  fresh = λ i h. refl;
  inner = λ i h k. absurd (omega arith);
  unique = λ i j h k. absurd (omega arith);
  placed = λ i h k. absurd (omega arith);
  entries = λ k j h. cc;
  counted = omega (arith, used_empty initial.hash_map hash_size (λ k. refl));
}
