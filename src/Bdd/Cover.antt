-- ===== src/Bdd/Cover.antt =====
-- The doubling loops of hw1: the least power of two that covers a length.
use cse320_spring.Base.{
  ℕ, zero, suc, ◌+◌, ◌^◌, ◌≤◌, ◌<◌, ◌≡◌, false, ◌&&◌, some, inl, inr, arith, leb, lt→ltb, ltb_of_le,
  le→leb, lt_cases, eq_cases, Bool-cases, pow-lt-pow, pow-le-pow,
}
use cse320_spring.Bdd.Raster.{cover, bdd_min_level, square_level, int_shifts}

-- The least `k` with `w ≤ 2 ^ k`.
pub record IsCover (w k : ℕ) : Type 0 where
  pub covers : w ≤ 2 ^ k
  pub least : (j : ℕ) → j < k → 2 ^ j < w

cover_lem :
    (rounds w level : ℕ)
    → w ≤ 2 ^ (level + rounds)
    → ((j : ℕ) → j < level → 2 ^ j < w)
    → (k : ℕ) × (cover (suc rounds) w level ≡ some k) × IsCover w k
unfolding cover
cover_lem zero w level h below =
    let e : level + 0 ≡ level = omega arith in
    let h' : w ≤ 2 ^ level = rw e at h in
    (level, rw (ltb_of_le _ _ h'), record { covers = h'; least = below })
cover_lem (suc rounds) w level h below = elim (lt_cases (2 ^ level) w) [
  | inr p ↦ (level, rw (ltb_of_le _ _ p), record { covers = p; least = below })
  | inl p ↦
      let e : level + suc rounds ≡ level + 1 + rounds = omega arith in
      let (k, q, c) = cover_lem rounds w (level + 1) (rw e at h) (below_suc w level below p) in
      (k, rw (lt→ltb _ _ p) q, c)
]
  where
    below_suc :
        (w level : ℕ)
        → ((j : ℕ) → j < level → 2 ^ j < w)
        → 2 ^ level < w
        → (j : ℕ) → j < level + 1
        → 2 ^ j < w
    below_suc w level below p j hj = elim (eq_cases j level) [
      | inl e ↦ rw e p
      | inr ne ↦ below j (omega arith)
    ]

-- A length that an `int` can shift to has a least covering power of two, and the loop finds it.
pub cover-IsCover : (w : ℕ) → w ≤ 2 ^ 30 → (k : ℕ) × (cover int_shifts w 0 ≡ some k) × IsCover w k
cover-IsCover w h = cover_lem 30 w 0 h (λ j p. absurd (omega arith))

-- For sizes up to 2 ^ 30 bdd_min_level ends. It is the sum of the least numbers of halvings that
-- cover the width and the height: no smaller power of two covers either.
pub bdd_min_level-IsCover :
    (w h : ℕ)
    → w ≤ 2 ^ 30
    → h ≤ 2 ^ 30
    → (a b : ℕ) × (bdd_min_level w h ≡ some (a + b)) × IsCover w a × IsCover h b
unfolding bdd_min_level
bdd_min_level-IsCover w h hw hh =
    let (a, p, x) = cover-IsCover w hw in
    let (b, q, y) = cover-IsCover h hh in (a, b, rw (p, q), x, y)

IsCover-unique : (w a b : ℕ) → IsCover w a → IsCover w b → a ≡ b
IsCover-unique w a b x y = elim (lt_cases a b) [
  | inl h ↦ absurd (omega (arith, y.least a h, x.covers))
  | inr h ↦ elim (lt_cases b a) [
    | inl h' ↦ absurd (omega (arith, x.least b h', y.covers))
    | inr h' ↦ omega arith
  ]
]

pub IsCover-pow : (k : ℕ) → IsCover (2 ^ k) k
IsCover-pow k = record { covers = omega arith; least = λ j h. pow-lt-pow h }

pub bdd_min_level-pow : (a b : ℕ) → a ≤ 30 → b ≤ 30 → bdd_min_level (2 ^ a) (2 ^ b) ≡ some (a + b)
bdd_min_level-pow a b ha hb =
    let (a', b', e, x, y) = bdd_min_level-IsCover (2 ^ a) (2 ^ b) (pow-le-pow ha) (pow-le-pow hb) in
    rw (
      e,
      IsCover-unique (2 ^ a) a' a x (IsCover-pow a),
      IsCover-unique (2 ^ b) b' b y (IsCover-pow b),
    )

-- The square that covers both lengths.
square_lem :
    (w h rounds level k : ℕ)
    → w ≤ 2 ^ k
    → h ≤ 2 ^ k
    → level ≤ k
    → k < level + rounds
    → (d : ℕ) × (square_level w h rounds level ≡ some d) × (w ≤ 2 ^ d) × (h ≤ 2 ^ d) × (d ≤ k)
unfolding square_level
square_lem w h zero level k hw hh lo hi = absurd (omega arith)
square_lem w h (suc rounds) level k hw hh lo hi =
    elim (Bool-cases (leb w (2 ^ level) && leb h (2 ^ level))) [
      | inl e ↦ (level, rw e, ground arith, ground arith, lo)
      | inr e ↦
          let (d, q, x, y, z) = square_lem w h rounds (level + 1) k hw hh (next e) (omega arith) in
          (d, rw e q, x, y, z)
    ]
  where
    next : (leb w (2 ^ level) && leb h (2 ^ level)) ≡ false → level + 1 ≤ k
    next e = elim (eq_cases level k) [
      | inl q ↦ cc (le→leb w (2 ^ level) (rw q hw), le→leb h (2 ^ level) (rw q hh))
      | inr ne ↦ omega arith
    ]

pub square_level-covers :
    (w h k : ℕ)
    → w ≤ 2 ^ k
    → h ≤ 2 ^ k
    → k ≤ 30
    → (d : ℕ) × (square_level w h int_shifts 0 ≡ some d) × (w ≤ 2 ^ d) × (h ≤ 2 ^ d) × (d ≤ k)
square_level-covers w h k hw hh hk = square_lem w h int_shifts 0 k hw hh (omega arith) (omega arith)
