-- ===== src/Bdd/Halving.antt =====
-- The halvings of bdd_apply in hw1/src/bdd.c: the window that is left lies round the pixel.
use cse320_spring.Base.{
  ℕ, suc, ◌+◌, ◌-◌, ◌/◌, ◌%◌, ◌^◌, ◌≤◌, ◌<◌, ◌≡◌, ◌≢◌, refl, Bool, true, false, inl, inr, arith,
  if◌then◌else◌, ==-eq-true, ==-eq-false, eq_cases, lt_cases, lt→ltb, ltb_of_le, leb_of_lt, le→leb,
  digit, mod-pow_suc, pow_suc,
}
use native.Mathlib.Nat.{mod-eq_of_lt}
use cse320_spring.Bdd.Image.{Window, is_odd, halve}

-- Before the halving at a level the window lies round the pixel, on a multiple of its size.
pub record IsFramed (level r c : ℕ) (w : Window) : Type 0 where
  pub cols : w.left + c % 2 ^ (level - level / 2) ≡ c
  pub width : w.right ≡ w.left + 2 ^ (level - level / 2)
  pub rows : w.top + r % 2 ^ (level / 2) ≡ r
  pub height : w.bottom ≡ w.top + 2 ^ (level / 2)

abbrev pub whole : ℕ → Window
whole level = record {
  left = 0;
  right = 2 ^ (level - level / 2);
  top = 0;
  bottom = 2 ^ (level / 2);
}

pub whole-IsFramed :
    (level r c : ℕ)
    → r < 2 ^ (level / 2)
    → c < 2 ^ (level - level / 2)
    → IsFramed level r c (whole level)
whole-IsFramed level r c hr hc = record {
  cols = omega (arith, mod-eq_of_lt hc);
  width = omega arith;
  rows = omega (arith, mod-eq_of_lt hr);
  height = omega arith;
}

-- The middle of a range of 2 ^ suc k, and the half that a position lies in.
middle : (lo hi k : ℕ) → hi ≡ lo + 2 ^ suc k → (hi + lo) / 2 ≡ lo + 2 ^ k
middle lo hi k h = omega (arith, pow_suc k)

module _ (x lo k : ℕ) (e : lo + x % 2 ^ suc k ≡ x) where
  low_half : x % 2 ^ suc k < 2 ^ k → (digit x k ≡ false) × (x < lo + 2 ^ k) × (lo + x % 2 ^ k ≡ x)
  low_half h =
      let d = leb_of_lt _ _ h in
      let m : x % 2 ^ suc k ≡ 0 + x % 2 ^ k = rw d at (mod-pow_suc x k) in
      (d, omega arith, omega arith)

  high_half :
      2 ^ k ≤ x % 2 ^ suc k → (digit x k ≡ true) × (lo + 2 ^ k ≤ x) × (lo + 2 ^ k + x % 2 ^ k ≡ x)
  high_half h =
      let d = le→leb _ _ h in
      let m : x % 2 ^ suc k ≡ 2 ^ k + x % 2 ^ k = rw d at (mod-pow_suc x k) in
      (d, omega arith, omega arith)

-- What one halving does to the window.
abbrev pub Halves : ℕ → ℕ → ℕ → Bool × Window → Type 0
Halves n r c h = (h.0 ≡ digit (if is_odd (suc n) then c else r) (n / 2)) × IsFramed n r c h.1

halve_odd :
    (n r c : ℕ) (w : Window)
    → suc n % 2 ≡ 1
    → IsFramed (suc n) r c w
    → Halves n r c (halve (suc n) r c w)
unfolding halve
halve_odd n r c w o f =
    rw (==-eq-true (suc n % 2) 1 o, middle w.left w.right (n / 2) wide)
      (elim (lt_cases (c % 2 ^ suc (n / 2)) (2 ^ (n / 2))) [
        | inl h ↦
            let (d, less, here) = low_half c w.left (n / 2) cols' h in
            rw (d, lt→ltb _ _ less)
              (
                refl,
                record {
                  cols = rw down here;
                  width = rw down refl;
                  rows = rows';
                  height = height';
                },
              )
        | inr h ↦
            let (d, more, here) = high_half c w.left (n / 2) cols' h in
            rw (d, ltb_of_le _ _ more)
              (
                refl,
                record {
                  cols = rw down here;
                  width = rw down (omega (arith, wide, pow_suc (n / 2)));
                  rows = rows';
                  height = height';
                },
              )
      ])
  where
    up : suc n - suc n / 2 ≡ suc (n / 2)
    up = omega arith

    down : n - n / 2 ≡ n / 2
    down = omega arith

    across : suc n / 2 ≡ n / 2
    across = omega arith

    cols' : w.left + c % 2 ^ suc (n / 2) ≡ c
    cols' = rw up at f.cols

    wide : w.right ≡ w.left + 2 ^ suc (n / 2)
    wide = rw up at f.width

    rows' : w.top + r % 2 ^ (n / 2) ≡ r
    rows' = rw across at f.rows

    height' : w.bottom ≡ w.top + 2 ^ (n / 2)
    height' = rw across at f.height

halve_even :
    (n r c : ℕ) (w : Window)
    → suc n % 2 ≢ 1
    → IsFramed (suc n) r c w
    → Halves n r c (halve (suc n) r c w)
unfolding halve
halve_even n r c w o f =
    rw (==-eq-false (suc n % 2) 1 o, middle w.top w.bottom (n / 2) tall)
      (elim (lt_cases (r % 2 ^ suc (n / 2)) (2 ^ (n / 2))) [
        | inl h ↦
            let (d, less, here) = low_half r w.top (n / 2) rows' h in
            rw (d, lt→ltb _ _ less)
              (refl, record { cols = cols'; width = width'; rows = here; height = refl })
        | inr h ↦
            let (d, more, here) = high_half r w.top (n / 2) rows' h in
            rw (d, ltb_of_le _ _ more)
              (
                refl,
                record {
                  cols = cols';
                  width = width';
                  rows = here;
                  height = omega (arith, tall, pow_suc (n / 2));
                },
              )
      ])
  where
    up : suc n / 2 ≡ suc (n / 2)
    up = omega arith

    across : suc n - suc n / 2 ≡ n - n / 2
    across = omega arith

    rows' : w.top + r % 2 ^ suc (n / 2) ≡ r
    rows' = rw up at f.rows

    tall : w.bottom ≡ w.top + 2 ^ suc (n / 2)
    tall = rw up at f.height

    cols' : w.left + c % 2 ^ (n - n / 2) ≡ c
    cols' = rw across at f.cols

    width' : w.right ≡ w.left + 2 ^ (n - n / 2)
    width' = rw across at f.width

pub halve_lem :
    (n r c : ℕ) (w : Window) → IsFramed (suc n) r c w → Halves n r c (halve (suc n) r c w)
halve_lem n r c w f = elim (eq_cases (suc n % 2) 1) [
  | inl o ↦ halve_odd n r c w o f
  | inr o ↦ halve_even n r c w o f
]
