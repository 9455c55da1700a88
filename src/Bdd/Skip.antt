-- ===== src/Bdd/Skip.antt =====
-- Levels that a diagram of hw1 skips: a node read at a level above its own.
use cse320_spring.Base.{
  ℕ, zero, suc, ◌+◌, ◌-◌, ◌≤◌, ◌≡◌, refl, ◌∙◌, Bool, arith, List, [], ◌∷◌, length, ==-eq-false,
}
use cse320_spring.Bdd.Store.{Store, Index, Run}
use cse320_spring.Bdd.Invariant.{Ensures}
use cse320_spring.Bdd.Lookup.{Finds}
use cse320_spring.Bdd.Denote.{denote}
use cse320_spring.Bdd.Combine.{Draws, Ensures-mono, Finds-mono}

-- An image at one level is read at any higher level by skipping the top halvings.
abbrev pub skip : ℕ → List Bool → List Bool
skip zero p = p
skip (suc k) [] = []
skip (suc k) (b ∷ p) = skip k p

pub denote-skip :
    (s : Store) (i m k : ℕ) (p : List Bool)
    → (s.nodes i).level ≤ m
    → length p ≡ k + m
    → denote s.nodes i p ≡ denote s.nodes i (skip k p)
denote-skip s i m zero p h e = refl
denote-skip s i m (suc k) [] h e = refl
denote-skip s i m (suc k) (b ∷ p) h e =
    rw (==-eq-false (s.nodes i).level (suc (length p)) (omega arith))
      (denote-skip s i m k p h (omega arith))

pub length-skip : (k m : ℕ) (p : List Bool) → length p ≡ k + m → length (skip k p) ≡ m
length-skip zero m p e = omega arith
length-skip (suc k) m [] e = absurd (omega arith)
length-skip (suc k) m (b ∷ p) e = length-skip k m p (omega arith)

-- A node keeps its image one level up, where nothing splits.
pub Draws-raise :
    {s s' : Store} (m n : ℕ) (f : List Bool → ℕ) (g : List Bool → ℕ) (i : ℕ)
    → m ≤ n
    → ((p : List Bool) → length p ≡ n → f (skip (n - m) p) ≡ g p)
    → Draws s m f i s'
    → Draws s n g i s'
Draws-raise {s} {s'} m n f g i h e d = record {
  valid = d.valid;
  extends = d.extends;
  stands = (d.stands.0, omega (arith, d.stands.1));
  image = λ p q.
      denote-skip s' i m (n - m) p d.stands.1 (omega arith)
      ∙ d.image (skip (n - m) p) (length-skip (n - m) m p (omega arith))
      ∙ e p q;
}

pub raise :
    (r : Run Index) (s : Store) (m n : ℕ) (f g : List Bool → ℕ)
    → m ≤ n
    → ((p : List Bool) → length p ≡ n → f (skip (n - m) p) ≡ g p)
    → Ensures r (Finds (Draws s m f))
    → Ensures r (Finds (Draws s n g))
raise r s m n f g h e d =
    Ensures-mono r (Finds (Draws s m f)) (Finds (Draws s n g)) d
      (Finds-mono (Draws s m f) (Draws s n g) (λ i t x. Draws-raise m n f g i h e x))
