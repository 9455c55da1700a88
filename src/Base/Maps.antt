-- ===== src/Base/Maps.antt =====
-- Arrays and heaps as functions of an index, and a write to one index.
use Prim.Native.Nat.{ℕ}
use mathlib.Core.Path.{◌≡◌, refl}
use mathlib.Core.Logic.{◌≢◌}
use cse320_spring.Base.Tests.{◌==◌, ==-eq-true, ==-eq-false, if◌then◌else◌}

module _ {ℓ} {A : Type ℓ} where
  abbrev pub update : (ℕ → A) → ℕ → A → ℕ → A
  update f k v j = if j == k then v else f j

  pub update_self : (f : ℕ → A) (k : ℕ) (v : A) → update f k v k ≡ v
  update_self f k v = rw (==-eq-true k k refl)

  pub update_other : (f : ℕ → A) (k j : ℕ) (v : A) → j ≢ k → update f k v j ≡ f j
  update_other f k j v h = rw (==-eq-false j k h)
