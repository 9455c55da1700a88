-- ===== src/Alloc/Blocks.antt =====
-- The heap of hw3 as a sequence of blocks, by its headers and footers.
use cse320_spring.Base.{
  ℕ, zero, ◌+◌, ◌-◌, ◌*◌, ◌%◌, ◌≤◌, ◌≡◌, ◌≢◌, ◌⊎◌, inl, inr, refl, ◌∙◌, Bool, true, false, List, [],
  ◌∷◌, arith,
}

abbrev pub flag : Bool → ℕ
flag true = 1
flag false = 0

-- The header of a block: its size, whether it is allocated, and whether the block before it is.
abbrev pub header : ℕ → Bool → Bool → ℕ
header size allocated before = size + flag allocated + 2 * flag before

-- A block is its size and whether it is allocated. The blocks stand one after the other from the
-- address `a` to the epilogue at `e`, where `p` tells whether the block before `a` is allocated.
pub data Tiles (w : ℕ → ℕ) (e : ℕ) : ℕ → Bool → List (ℕ × Bool) → Type 0 where
  epilogue : {a : ℕ} {p : Bool} → a ≡ e → w a ≡ header 0 true p → Tiles w e a p []
  block :
      {a : ℕ} {p : Bool} {size : ℕ} {allocated : Bool} {bs : List (ℕ × Bool)}
      → w a ≡ header size allocated p
      → size % 16 ≡ 0
      → 32 ≤ size
      → (allocated ≡ false → w (a + size - 8) ≡ header size false p)
      → Tiles w e (a + size) allocated bs
      → Tiles w e a p ((size, allocated) ∷ bs)

pub Tiles-le : {w : ℕ → ℕ} {e a : ℕ} {p : Bool} {bs : List (ℕ × Bool)} → Tiles w e a p bs → a ≤ e
Tiles-le (epilogue at h) = omega arith
Tiles-le (block h m l f t) = omega (arith, Tiles-le t)

-- The first and the last row of a block, and the row of the epilogue.
abbrev pub IsRow : ℕ → List (ℕ × Bool) → ℕ → Type 0
IsRow a [] r = r ≡ a
IsRow a ((n, al) ∷ bs) r = (r ≡ a) ⊎ (r ≡ a + n - 8) ⊎ IsRow (a + n) bs r

-- A free block stands at an address.
abbrev pub IsFree : ℕ → List (ℕ × Bool) → ℕ → Type 0
IsFree a [] x = 1 ≡ zero
IsFree a ((n, true) ∷ bs) x = IsFree (a + n) bs x
IsFree a ((n, false) ∷ bs) x = (x ≡ a) ⊎ IsFree (a + n) bs x

pub IsRow-le :
    {w : ℕ → ℕ} {e a : ℕ} {p : Bool} {bs : List (ℕ × Bool)} {r : ℕ}
    → Tiles w e a p bs
    → IsRow a bs r
    → a ≤ r
IsRow-le (epilogue at h) k = omega arith
IsRow-le (block h m l f t) (inl k) = omega arith
IsRow-le (block h m l f t) (inr (inl k)) = omega arith
IsRow-le (block h m l f t) (inr (inr k)) = omega (arith, IsRow-le t k)

pub IsRow-ge :
    {w : ℕ → ℕ} {e a : ℕ} {p : Bool} {bs : List (ℕ × Bool)} {r : ℕ}
    → Tiles w e a p bs
    → IsRow a bs r
    → r ≤ e
IsRow-ge (epilogue at h) k = omega arith
IsRow-ge (block h m l f t) (inl k) = omega (arith, Tiles-le t)
IsRow-ge (block h m l f t) (inr (inl k)) = omega (arith, Tiles-le t)
IsRow-ge (block h m l f t) (inr (inr k)) = IsRow-ge t k

pub IsFree-le :
    {w : ℕ → ℕ} {e : ℕ} {p : Bool} (a : ℕ) (bs : List (ℕ × Bool)) (x : ℕ)
    → Tiles w e a p bs
    → IsFree a bs x
    → a ≤ x
IsFree-le a [] x t k = omega arith
IsFree-le a ((n, true) ∷ bs) x (block h m l f t) k = omega (arith, IsFree-le (a + n) bs x t k)
IsFree-le a ((n, false) ∷ bs) x (block h m l f t) (inl k) = omega arith
IsFree-le a ((n, false) ∷ bs) x (block h m l f t) (inr k) =
    omega (arith, IsFree-le (a + n) bs x t k)

abbrev pub FieldsApart : ℕ → ℕ → Type 0
FieldsApart x r = (r ≢ x + 8) × (r ≢ x + 16)

-- The two link fields of a free block are not the first or the last row of a block.
pub IsFree-apart :
    {w : ℕ → ℕ} {e : ℕ} {p : Bool} (a : ℕ) (bs : List (ℕ × Bool)) (x r : ℕ)
    → Tiles w e a p bs
    → IsFree a bs x
    → IsRow a bs r
    → FieldsApart x r
IsFree-apart a [] x r t k row = (omega arith, omega arith)
IsFree-apart a ((n, true) ∷ bs) x r (block h m l f t) k (inl row) =
    let le : a + n ≤ x = IsFree-le (a + n) bs x t k in (omega arith, omega arith)
IsFree-apart a ((n, true) ∷ bs) x r (block h m l f t) k (inr (inl row)) =
    let le : a + n ≤ x = IsFree-le (a + n) bs x t k in (omega arith, omega arith)
IsFree-apart a ((n, true) ∷ bs) x r (block h m l f t) k (inr (inr row)) =
    IsFree-apart (a + n) bs x r t k row
IsFree-apart a ((n, false) ∷ bs) x r (block h m l f t) (inl k) (inl row) =
    (omega arith, omega arith)
IsFree-apart a ((n, false) ∷ bs) x r (block h m l f t) (inl k) (inr (inl row)) =
    (omega arith, omega arith)
IsFree-apart a ((n, false) ∷ bs) x r (block h m l f t) (inl k) (inr (inr row)) =
    let le : a + n ≤ r = IsRow-le t row in (omega arith, omega arith)
IsFree-apart a ((n, false) ∷ bs) x r (block h m l f t) (inr k) (inl row) =
    let le : a + n ≤ x = IsFree-le (a + n) bs x t k in (omega arith, omega arith)
IsFree-apart a ((n, false) ∷ bs) x r (block h m l f t) (inr k) (inr (inl row)) =
    let le : a + n ≤ x = IsFree-le (a + n) bs x t k in (omega arith, omega arith)
IsFree-apart a ((n, false) ∷ bs) x r (block h m l f t) (inr k) (inr (inr row)) =
    IsFree-apart (a + n) bs x r t k row

-- Only the rows of the blocks matter.
pub Tiles-frame :
    (w w' : ℕ → ℕ) (e a : ℕ) (p : Bool) (bs : List (ℕ × Bool))
    → ((r : ℕ) → IsRow a bs r → w' r ≡ w r)
    → Tiles w e a p bs
    → Tiles w' e a p bs
Tiles-frame w w' e a p [] same (epilogue at h) = epilogue at (same a refl ∙ h)
Tiles-frame w w' e a p ((size, al) ∷ bs) same (block h m l f t) =
    block (same a (inl refl) ∙ h) m l (λ k. same (a + size - 8) (inr (inl refl)) ∙ f k)
      (Tiles-frame w w' e (a + size) al bs (λ r k. same r (inr (inr k))) t)
