-- ===== src/Bdd/Turn.antt =====
-- The quarter turn of bdd_rotate in hw1/src/bdd.c, by rows and columns.
use cse320_spring.Base.{
  ℕ, zero, suc, ◌+◌, ◌-◌, ◌/◌, ◌%◌, ◌^◌, ◌≤◌, ◌<◌, ◌≡◌, refl, sym, ◌∙◌, ap, ap₂, not, inl, inr,
  arith, ◌∷◌, ==-eq-true, ==-eq-false, lt_cases, digit, leb_of_lt, le→leb, mod-pow_suc, pow_suc,
  pow_pos,
}
use native.Mathlib.Nat.{mod-eq_of_lt}
use cse320_spring.Bdd.Store.{Store, levels_max}
use cse320_spring.Bdd.Invariant.{IsValid, Extends, Ensures}
use cse320_spring.Bdd.Image.{bdd_rotate}
use cse320_spring.Bdd.Lookup.{Stands, Finds}
use cse320_spring.Bdd.Denote.{denote, path, length-path}
use cse320_spring.Bdd.Combine.{Ensures-mono, Finds-mono}
use cse320_spring.Bdd.Rotate.{turned, twice, bdd_rotate-Draws}

-- The two coordinates of a square of 2 ^ d that lie across from one another.
abbrev Across : ℕ → ℕ → ℕ → Type 0
Across d r x = r % 2 ^ d + x % 2 ^ d + 1 ≡ 2 ^ d

module _ (d r x : ℕ) (across : Across (suc d) r x) where
  Across-digit : (digit x d ≡ not (digit r d)) × Across d r x
  Across-digit = elim (lt_cases (r % 2 ^ suc d) (2 ^ d)) [
    | inl h ↦
        let a = leb_of_lt _ _ h in
        let m : r % 2 ^ suc d ≡ 0 + r % 2 ^ d = rw a at (mod-pow_suc r d) in
        let b = le→leb (2 ^ d) (x % 2 ^ suc d) (omega (arith, pow_suc d)) in
        let n : x % 2 ^ suc d ≡ 2 ^ d + x % 2 ^ d = rw b at (mod-pow_suc x d) in
        (rw (a, b), omega (arith, pow_suc d))
    | inr h ↦
        let a = le→leb _ _ h in
        let m : r % 2 ^ suc d ≡ 2 ^ d + r % 2 ^ d = rw a at (mod-pow_suc r d) in
        let b = leb_of_lt (2 ^ d) (x % 2 ^ suc d) (omega (arith, pow_suc d)) in
        let n : x % 2 ^ suc d ≡ 0 + x % 2 ^ d = rw b at (mod-pow_suc x d) in
        (rw (a, b), omega (arith, pow_suc d))
  ]

twice-eq-add : (d : ℕ) → twice d ≡ d + d
twice-eq-add zero = omega arith
twice-eq-add (suc d) = omega (arith, twice-eq-add d)

path-twice : (d r c : ℕ) → path (twice (suc d)) r c ≡ digit r d ∷ digit c d ∷ path (twice d) r c
path-twice d r c = rw (
  ==-eq-false (suc (suc (twice d)) % 2) 1 (omega (arith, twice-eq-add d)),
  ==-eq-true (suc (twice d) % 2) 1 (omega (arith, twice-eq-add d)),
  upper,
  lower,
)
  where
    upper : suc (twice d) / 2 ≡ d
    upper = omega (arith, twice-eq-add d)

    lower : twice d / 2 ≡ d
    lower = omega (arith, twice-eq-add d)

turned-path : (d r c x : ℕ) → Across d r x → turned (path (twice d) r c) ≡ path (twice d) c x
turned-path zero r c x h = refl
turned-path (suc d) r c x h =
    let (e, h') = Across-digit d r x h in
    ap turned (path-twice d r c)
    ∙ ap₂ (λ b p. digit c d ∷ b ∷ p) (sym e) (turned-path d r c x h')
    ∙ sym (path-twice d c x)

-- What a turn of a square of 2 ^ d pixels by 2 ^ d leaves of a node `i` of the store `s`.
pub record Turned (s : Store) (d i j : ℕ) (t : Store) : Type 0 where
  pub valid : IsValid t
  pub extends : Extends s t
  pub pixels :
      (r c : ℕ)
      → r < 2 ^ d
      → c < 2 ^ d
      → denote t.nodes j (path (twice d) r c) ≡ denote s.nodes i (path (twice d) c (2 ^ d - 1 - r))

-- bdd_rotate ends for a square of 2 ^ d by 2 ^ d after d nested calls. It returns a node, or exits
-- because the node table is full. The pixel at a row and a column is the old one at that column's
-- row and at the column from the right that the row is from the top.
pub bdd_rotate-Turned :
    (fuel d : ℕ) (s : Store) (i : ℕ)
    → d < fuel
    → twice d ≤ levels_max
    → IsValid s
    → Stands s i (twice d)
    → Ensures (bdd_rotate fuel i (twice d) s) (Finds (Turned s d i))
bdd_rotate-Turned fuel d s i hf hl v st =
    Ensures-mono (bdd_rotate fuel i (twice d) s) _ _ (bdd_rotate-Draws fuel d hf hl s i v st) (
      Finds-mono _ _ (λ j t x. record {
        valid = x.valid;
        extends = x.extends;
        pixels = λ r c hr hc.
            x.image (path (twice d) r c) (length-path (twice d) r c)
            ∙ ap (denote s.nodes i) (turned-path d r c (2 ^ d - 1 - r) (opposite r hr));
      }))
  where
    opposite : (r : ℕ) → r < 2 ^ d → Across d r (2 ^ d - 1 - r)
    opposite r hr = omega (
      arith,
      mod-eq_of_lt hr,
      mod-eq_of_lt {n = 2 ^ d - 1 - r} {m = 2 ^ d} (omega (arith, pow_pos d)),
    )
