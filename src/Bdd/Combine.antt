-- ===== src/Bdd/Combine.antt =====
-- bdd_lookup of hw1/src/bdd.c seen from its callers: two images side by side make one.
use cse320_spring.Base.{
  ℕ, suc, ◌≤◌, ◌≡◌, ◌≢◌, refl, ◌∙◌, Bool, true, false, some, none, inl, inr, arith, List, [], ◌∷◌,
  length, if◌then◌else◌, ==-eq-true, ==-eq-false,
}
use cse320_spring.Bdd.Store.{
  Store, Index, Run, returned, exited, diverged, M, levels_max, bdd_lookup, ◌>>=◌,
}
use cse320_spring.Bdd.Invariant.{IsValid, Extends, Extends-refl, Extends-trans, Ensures}
use cse320_spring.Bdd.Lookup.{Stands, Finds, Fits, Found, bdd_lookup-Found}
use cse320_spring.Bdd.Denote.{descend, denote, denote-Extends}

-- A run from `s` that returned `i` and left `s'`: `i` stands at the level for the image `f`.
pub record Draws (s : Store) (level : ℕ) (f : List Bool → ℕ) (i : ℕ) (s' : Store) : Type 0 where
  pub valid : IsValid s'
  pub extends : Extends s s'
  pub stands : Stands s' i level
  pub image : (p : List Bool) → length p ≡ level → denote s'.nodes i p ≡ f p

-- The image with one half for `false` and the other for `true`.
abbrev pub beside : (Bool → List Bool → ℕ) → List Bool → ℕ
beside f [] = 0
beside f (b ∷ p) = f b p

pub Ensures-mono :
    {A : Type 0} (r : Run A) (P Q : A → Store → Type 0)
    → Ensures r P
    → ((a : A) (s : Store) → P a s → Q a s)
    → Ensures r Q
Ensures-mono (returned a s) P Q h k = k a s h
Ensures-mono (exited s) P Q h k = h
Ensures-mono diverged P Q h k = h

pub Finds-mono :
    (P Q : ℕ → Store → Type 0)
    → ((i : ℕ) (s : Store) → P i s → Q i s)
    → (a : Index) (s : Store) → Finds P a s
    → Finds Q a s
Finds-mono P Q k none s h = h
Finds-mono P Q k (some i) s h = k i s h

-- One image described in two ways.
pub repaint :
    (r : Run Index) (s : Store) (level : ℕ) (f g : List Bool → ℕ)
    → ((p : List Bool) → length p ≡ level → f p ≡ g p)
    → Ensures r (Finds (Draws s level f))
    → Ensures r (Finds (Draws s level g))
repaint r s level f g e h = Ensures-mono r (Finds (Draws s level f)) (Finds (Draws s level g)) h (
    Finds-mono (Draws s level f) (Draws s level g) (λ i t d. record {
      valid = d.valid;
      extends = d.extends;
      stands = d.stands;
      image = λ p q. d.image p q ∙ e p q;
    }))

-- The next call of a chain, after one that drew an image.
pub Draws-then :
    {B : Type 0} (m : M Index) (k : Index → M B) (s₀ s : Store) (level : ℕ) (f : List Bool → ℕ)
    (Q : B → Store → Type 0)
    → Extends s₀ s
    → Ensures (m s) (Finds (Draws s level f))
    → ((i : ℕ) (s' : Store) → Extends s₀ s' → Draws s level f i s' → Ensures (k (some i) s') Q)
    → Ensures ((m >>= k) s) Q
Draws-then m k s₀ s level f Q x h next = go (m s) h
  where
    found : (a : Index) (s' : Store) → Finds (Draws s level f) a s' → Ensures (k a s') Q
    found none s' h = absurd h
    found (some i) s' h = next i s' (Extends-trans x h.extends) h

    go :
        (r : Run Index)
        → Ensures r (Finds (Draws s level f))
        → Ensures
            (elim r [ returned a s' ↦ k a s' | exited s' ↦ exited s' | diverged ↦ diverged ])
            Q
    go (returned a s') p = found a s' p
    go (exited s') p = p
    go diverged p = p

-- A drawing keeps its image while the store grows.
pub Draws-Extends :
    {s s' t : Store} {level : ℕ} {f : List Bool → ℕ} {i : ℕ}
    → Draws s level f i s'
    → Extends s' t
    → Stands t i level × ((p : List Bool) → length p ≡ level → denote t.nodes i p ≡ f p)
Draws-Extends {s} {s'} {t} {level} {f} {i} d x = (
  (omega (arith, d.stands.0, x.grown), rw (x.kept i d.stands.0) d.stands.1),
  λ p e. denote-Extends s' d.valid t x p i (d.stands.0, rw e d.stands.1) ∙ d.image p e,
)

module _ (s : Store) (v : IsValid s) (level l r : ℕ) (f : Bool → List Bool → ℕ) where
  abbrev side : Bool → ℕ
  side b = if b then r else l

  Found-Draws :
      ((b : Bool) → Stands s (side b) level)
      → ((b : Bool) (p : List Bool) → length p ≡ level → denote s.nodes (side b) p ≡ f b p)
      → (i : ℕ) (s' : Store) → Found s (suc level) l r i s'
      → Draws s (suc level) (beside f) i s'
  Found-Draws st im i s' d = record {
    valid = d.valid;
    extends = d.extends;
    stands = d.stands;
    image = halves;
  }
    where
      pick : (b : Bool) → l ≡ r → l ≡ side b
      pick true e = e
      pick false e = refl

      low : l ≡ r → i ≡ l → (s'.nodes i).level ≢ suc level
      low e p = rw (p, d.extends.kept l (st false).0) (let below = (st false).1 in omega arith)

      same : (b : Bool) → descend s'.nodes (suc level) b i ≡ side b
      same b = elim d.node [
        | inl (e, p) ↦ rw (==-eq-false _ _ (low e p)) (p ∙ pick b e)
        | inr (lo, p, ne) ↦ rw (p, ==-eq-true (suc level) (suc level) refl)
      ]

      halves : (p : List Bool) → length p ≡ suc level → denote s'.nodes i p ≡ beside f p
      halves [] e = absurd (omega arith)
      halves (b ∷ p) e =
          let e' : length p ≡ level = omega arith in
          rw (e', same b)
            (denote-Extends s v s' d.extends p (side b) ((st b).0, rw e' (st b).1) ∙ im b p e')

  -- Two images of a level that bdd_lookup combines make the image of the next level.
  pub bdd_lookup-Draws :
      suc level ≤ levels_max
      → ((b : Bool) → Stands s (side b) level)
      → ((b : Bool) (p : List Bool) → length p ≡ level → denote s.nodes (side b) p ≡ f b p)
      → Ensures
          (bdd_lookup (suc level) (some l) (some r) s)
          (Finds (Draws s (suc level) (beside f)))
  bdd_lookup-Draws hl st im =
      Ensures-mono _ _ _ (bdd_lookup-Found s v (suc level) l r fits)
        (Finds-mono _ _ (Found-Draws st im))
    where
      fits : Fits s (suc level) l r
      fits = record {
        level_pos = omega arith;
        level_max = hl;
        left_in = (st false).0;
        right_in = (st true).0;
        left_below = omega (arith, (st false).1);
        right_below = omega (arith, (st true).1);
      }

-- Two calls that each draw a half, and bdd_lookup on their results.
abbrev pub both : M Index → M Index → ℕ → M Index
both m m' level = m >>= λ left. m' >>= λ right. bdd_lookup level left right

Draws-from :
    {s t u : Store} {level : ℕ} {f : List Bool → ℕ} (i : ℕ)
    → Extends s t
    → Draws t level f i u
    → Draws s level f i u
Draws-from i x d = record {
  valid = d.valid;
  extends = Extends-trans x d.extends;
  stands = d.stands;
  image = d.image;
}

pub both-Draws :
    (m m' : M Index) (s : Store) (level : ℕ) (f : Bool → List Bool → ℕ)
    → suc level ≤ levels_max
    → Ensures (m s) (Finds (Draws s level (f false)))
    → ((t : Store) → IsValid t → Extends s t → Ensures (m' t) (Finds (Draws t level (f true))))
    → Ensures (both m m' (suc level) s) (Finds (Draws s (suc level) (beside f)))
both-Draws m m' s level f h first second =
    Draws-then m (λ left. m' >>= λ right. bdd_lookup (suc level) left right) s s level (f false) _
      (Extends-refl s) first
      (λ l t x dl.
        Draws-then m' (λ right. bdd_lookup (suc level) (some l) right) s t level (f true) _ x
          (second t dl.valid x) (λ r u y dr. combined l t dl r u y dr))
  where
    combined :
        (l : ℕ) (t : Store)
        → Draws s level (f false) l t
        → (r : ℕ) (u : Store) → Extends s u
        → Draws t level (f true) r u
        → Ensures
            (bdd_lookup (suc level) (some l) (some r) u)
            (Finds (Draws s (suc level) (beside f)))
    combined l t dl r u y dr =
        let (stands, image) = Draws-Extends dl dr.extends in
        Ensures-mono _ _ _
          (bdd_lookup-Draws u dr.valid level l r f h (elim [ true ↦ dr.stands | false ↦ stands ])
            (elim [ true ↦ dr.image | false ↦ image ]))
          (Finds-mono _ _ (λ i w d. Draws-from i y d))
