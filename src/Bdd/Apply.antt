-- ===== src/Bdd/Apply.antt =====
-- bdd_apply of hw1/src/bdd.c: it reads the pixel at a row and a column.
use cse320_spring.Base.{
  ℕ, zero, suc, ◌-◌, ◌/◌, ◌^◌, ◌<◌, ◌≡◌, refl, sym, ap, Bool, true, false, some, inl, inr, arith,
  ◌==◌, ltb, if◌then◌else◌, ◌&&◌, ==-eq-true, ==-eq-false, eq_cases, lt_cases, lt→ltb, ltb_of_le,
  digit,
}
use cse320_spring.Bdd.Store.{Store, num_leaves}
use cse320_spring.Bdd.Invariant.{IsValid}
use cse320_spring.Bdd.Image.{Window, child, is_odd, apply_loop, bdd_apply}
use cse320_spring.Bdd.Lookup.{Stands}
use cse320_spring.Bdd.Denote.{
  descend, denote, denote-leaf, leaf_of_level, descend-Stands, path, length-path,
}
use cse320_spring.Bdd.Halving.{IsFramed, whole, whole-IsFramed, halve_lem}

&&-false : (b : Bool) → (b && false) ≡ false
&&-false true = refl
&&-false false = refl

module _ (s : Store) (v : IsValid s) (r c : ℕ) where
  abbrev turn : ℕ → Bool
  turn n = digit (if is_odd (suc n) then c else r) (n / 2)

  denote-path :
      (n i : ℕ)
      → denote s.nodes i (path (suc n) r c)
        ≡ denote s.nodes (descend s.nodes (suc n) (turn n) i) (path n r c)
  denote-path n i =
      ap (λ k. denote s.nodes (descend s.nodes (suc k) (turn n) i) (path n r c)) (length-path n r c)

  -- What the loop does with the fuel that is left, below the halving at `suc n`.
  abbrev Reads : ℕ → Type 0
  Reads fuel =
      (n i : ℕ) (w : Window)
      → Stands s i (suc n)
      → 0 < (s.nodes i).level
      → n < fuel
      → IsFramed (suc n) r c w
      → apply_loop fuel s.nodes r c (suc n) w i ≡ some (denote s.nodes i (path (suc n) r c))

  Reads-rest :
      (fuel n j : ℕ) (w : Window)
      → Reads fuel
      → Stands s j n
      → 0 < (s.nodes j).level
      → n < suc fuel
      → IsFramed n r c w
      → apply_loop fuel s.nodes r c (suc n - 1) w j ≡ some (denote s.nodes j (path n r c))
  Reads-rest fuel zero j w rec st pos hf f = absurd (omega (arith, st.1))
  Reads-rest fuel (suc n) j w rec st pos hf f =
      let e : suc (suc n) - 1 ≡ suc n = omega arith in rw e (rec n j w st pos (omega arith) f)

  Reads-step :
      (fuel n i : ℕ) (w : Window) (b : Bool)
      → Reads fuel
      → Stands s i (suc n)
      → 0 < (s.nodes i).level
      → n < suc fuel
      → IsFramed n r c w
      → (if ltb (child b (s.nodes i)) num_leaves && (suc n == (s.nodes i).level)
          then some (child b (s.nodes i))
          else apply_loop fuel s.nodes r c
              (suc n - 1)
              w
              (if suc n == (s.nodes i).level then child b (s.nodes i) else i))
        ≡ some (denote s.nodes (descend s.nodes (suc n) b i) (path n r c))
  Reads-step fuel n i w b rec st pos hf f = elim (eq_cases (s.nodes i).level (suc n)) [
    | inr ne ↦
        rw
          (
            ==-eq-false (suc n) (s.nodes i).level (λ q. ne (sym q)),
            ==-eq-false (s.nodes i).level (suc n) ne,
            &&-false (ltb (child b (s.nodes i)) num_leaves),
          )
          (Reads-rest fuel n i w rec (st.0, omega (arith, st.1)) pos hf f)
    | inl e ↦ elim (lt_cases (child b (s.nodes i)) num_leaves) [
      | inl leaf ↦
          rw
            (
              lt→ltb (child b (s.nodes i)) num_leaves leaf,
              ==-eq-true (suc n) (s.nodes i).level (sym e),
              ==-eq-true (s.nodes i).level (suc n) e,
            )
            (ap some (sym (denote-leaf s v (path n r c) (child b (s.nodes i)) leaf)))
      | inr big ↦
          rw
            (
              ltb_of_le (child b (s.nodes i)) num_leaves big,
              ==-eq-true (suc n) (s.nodes i).level (sym e),
              ==-eq-true (s.nodes i).level (suc n) e,
            )
            (Reads-rest fuel n (child b (s.nodes i)) w rec (below e)
              (v.inner _ big (below e).0).level_pos hf f)
    ]
  ]
    where
      below : (s.nodes i).level ≡ suc n → Stands s (child b (s.nodes i)) n
      below e = rw (==-eq-true _ _ e) at (descend-Stands s v b n i st)

  reads : (fuel : ℕ) → Reads fuel
  unfolding apply_loop
  reads zero n i w st pos hf f = absurd (omega arith)
  reads (suc fuel) n i w st pos hf f =
      let (b, f') = halve_lem n r c w f in
      rw (b, denote-path n i) (Reads-step fuel n i _ (turn n) (reads fuel) st pos (omega arith) f')

  -- On a well-formed store bdd_apply always ends, within as many rounds as the node has levels, and
  -- returns the leaf that the node's image has at the row and the column, which lie in the raster
  -- that the node's own level spans.
  pub bdd_apply-denote :
      (i : ℕ)
      → i < s.next
      → r < 2 ^ ((s.nodes i).level / 2)
      → c < 2 ^ ((s.nodes i).level - (s.nodes i).level / 2)
      → bdd_apply s.nodes i r c ≡ some (denote s.nodes i (path (s.nodes i).level r c))
  unfolding bdd_apply
  bdd_apply-denote i hi hr hc = elim (eq_cases (s.nodes i).level 0) [
    | inl e ↦ let h = leaf_of_level s v i (hi, omega arith) in rw e (ap some (omega arith))
    | inr ne ↦ positive ((s.nodes i).level - 1) (omega arith)
  ]
    where
      positive :
          (n : ℕ)
          → (s.nodes i).level ≡ suc n
          → bdd_apply s.nodes i r c ≡ some (denote s.nodes i (path (s.nodes i).level r c))
      positive n e =
          rw (==-eq-false (s.nodes i).level 0 (omega arith), e)
            (reads (suc (suc n)) n i (whole (suc n)) (hi, omega arith) (omega arith) (omega arith)
              (whole-IsFramed (suc n) r c (rw e at hr) (rw e at hc)))
