-- ===== src/Alloc/Sample.antt =====
-- A heap of three blocks in the memory of hw3, to which the theorems on the allocator are applied.
use cse320_spring.Base.{
  ℕ, zero, suc, ◌+◌, ◌*◌, ◌≤◌, ◌≡◌, inl, inr, refl, sym, ap, subst, Bool, true, false, List, [],
  ◌∷◌, ◌++◌, ◌==◌, if◌then◌else◌, arith,
}
use cse320_spring.Alloc.Sizes.{IsFreeOf}
use cse320_spring.Alloc.Rings.{class_of}
use cse320_spring.Alloc.Ring.{IsListed}
use cse320_spring.Alloc.Reach.{Reach, here, more}
use cse320_spring.Alloc.Memory.{Memory, class_from}
use cse320_spring.Alloc.Blocks.{epilogue, block}
use cse320_spring.Alloc.Cycle.{IsHalf}
use cse320_spring.Alloc.Heap.{IsHead, IsFiled, IsHeap, IsLinked}

-- The first block and the last one are free; the last one is the wilderness.
abbrev rows : List (ℕ × ℕ)
rows =
    (1032, 4136)
    ∷ (1040, 4136)
    ∷ (1056, 1048)
    ∷ (1064, 1048)
    ∷ (1080, 1072)
    ∷ (1088, 1072)
    ∷ (1104, 1096)
    ∷ (1112, 1096)
    ∷ (1128, 1120)
    ∷ (1136, 1120)
    ∷ (1152, 1144)
    ∷ (1160, 1144)
    ∷ (1176, 1168)
    ∷ (1184, 1168)
    ∷ (1200, 4232)
    ∷ (1208, 4232)
    ∷ (4104, 33)
    ∷ (4136, 34)
    ∷ (4144, 1024)
    ∷ (4152, 1024)
    ∷ (4160, 34)
    ∷ (4168, 65)
    ∷ (4232, 50)
    ∷ (4240, 1192)
    ∷ (4248, 1192)
    ∷ (4272, 50)
    ∷ (4280, 1)
    ∷ []

abbrev row_of : List (ℕ × ℕ) → ℕ → ℕ
row_of [] r = 0
row_of ((a, v) ∷ rest) r = if r == a then v else row_of rest r

abbrev pub heap : Memory
heap = record { word = row_of rows; start = 4096; stop = 4288; lists = 1024; errno = 0 }

abbrev blocks : List (ℕ × Bool)
blocks = ((32, false) ∷ []) ++ (64, true) ∷ (48, false) ∷ []

abbrev next_row : ℕ → ℕ
next_row x = row_of rows (x + 8)

abbrev prev_row : ℕ → ℕ
prev_row x = row_of rows (x + 16)

abbrev IsHalfAt : (ℕ → ℕ) → (ℕ → ℕ) → ℕ → Type 0
IsHalfAt f g x = IsLinked 1024 4096 blocks (f x) × (g (f x) ≡ x)

next_row-IsHalfAt : (k : ℕ) → k ≤ 7 → IsHalfAt next_row prev_row (1024 + 24 * k)
next_row-IsHalfAt zero le = (inr (inl refl), refl)
next_row-IsHalfAt (suc zero) le = (inl (1, le, refl), refl)
next_row-IsHalfAt (suc (suc zero)) le = (inl (2, le, refl), refl)
next_row-IsHalfAt (suc (suc (suc zero))) le = (inl (3, le, refl), refl)
next_row-IsHalfAt (suc (suc (suc (suc zero)))) le = (inl (4, le, refl), refl)
next_row-IsHalfAt (suc (suc (suc (suc (suc zero))))) le = (inl (5, le, refl), refl)
next_row-IsHalfAt (suc (suc (suc (suc (suc (suc zero)))))) le = (inl (6, le, refl), refl)
next_row-IsHalfAt (suc (suc (suc (suc (suc (suc (suc zero))))))) le = (inr (inr (inl refl)), refl)
next_row-IsHalfAt (suc (suc (suc (suc (suc (suc (suc (suc k)))))))) le = omega arith

next_row-IsHalf : IsHalf (IsLinked 1024 4096 blocks) next_row prev_row
next_row-IsHalf x (inl (k, le, same)) =
    subst (IsHalfAt next_row prev_row) (sym same) (next_row-IsHalfAt k le)
next_row-IsHalf x (inr (inl same)) =
    subst (IsHalfAt next_row prev_row) (sym same) (inl (0, omega arith, refl), refl)
next_row-IsHalf x (inr (inr (inl same))) =
    subst (IsHalfAt next_row prev_row) (sym same) (inl (7, omega arith, refl), refl)
next_row-IsHalf x (inr (inr (inr k))) = omega arith

prev_row-IsHalfAt : (k : ℕ) → k ≤ 7 → IsHalfAt prev_row next_row (1024 + 24 * k)
prev_row-IsHalfAt zero le = (inr (inl refl), refl)
prev_row-IsHalfAt (suc zero) le = (inl (1, le, refl), refl)
prev_row-IsHalfAt (suc (suc zero)) le = (inl (2, le, refl), refl)
prev_row-IsHalfAt (suc (suc (suc zero))) le = (inl (3, le, refl), refl)
prev_row-IsHalfAt (suc (suc (suc (suc zero)))) le = (inl (4, le, refl), refl)
prev_row-IsHalfAt (suc (suc (suc (suc (suc zero))))) le = (inl (5, le, refl), refl)
prev_row-IsHalfAt (suc (suc (suc (suc (suc (suc zero)))))) le = (inl (6, le, refl), refl)
prev_row-IsHalfAt (suc (suc (suc (suc (suc (suc (suc zero))))))) le = (inr (inr (inl refl)), refl)
prev_row-IsHalfAt (suc (suc (suc (suc (suc (suc (suc (suc k)))))))) le = omega arith

prev_row-IsHalf : IsHalf (IsLinked 1024 4096 blocks) prev_row next_row
prev_row-IsHalf x (inl (k, le, same)) =
    subst (IsHalfAt prev_row next_row) (sym same) (prev_row-IsHalfAt k le)
prev_row-IsHalf x (inr (inl same)) =
    subst (IsHalfAt prev_row next_row) (sym same) (inl (0, omega arith, refl), refl)
prev_row-IsHalf x (inr (inr (inl same))) =
    subst (IsHalfAt prev_row next_row) (sym same) (inl (7, omega arith, refl), refl)
prev_row-IsHalf x (inr (inr (inr k))) = omega arith

abbrev IsFiledAt : ℕ → ℕ → Type 0
IsFiledAt = IsFiled 1024 4288 4096 blocks

head-IsFiled : (y : ℕ) → IsHead 1024 y → IsFiledAt y y
unfolding IsFreeOf
head-IsFiled y (k, le, same) = (
  (k, le, same),
  λ n free. elim (free) [
    | inl e ↦ omega arith
    | inr free ↦ elim (free) [ inl e ↦ omega arith | inr e ↦ omega arith ]
  ],
)

first-IsFiled : IsFiledAt 1024 4136
unfolding IsFreeOf class_from
first-IsFiled = (
  (0, omega arith, refl),
  λ n free. elim (free) [
    | inl e ↦ ap (λ k. 1024 + 24 * class_of 4288 k 4136) (sym e.1)
    | inr free ↦ elim (free) [ inl e ↦ omega arith | inr e ↦ omega arith ]
  ],
)

last-IsFiled : IsFiledAt 1192 4232
unfolding IsFreeOf class_from
last-IsFiled = (
  (7, omega arith, refl),
  λ n free. elim (free) [
    | inl e ↦ omega arith
    | inr free ↦ elim (free) [
      | inl e ↦ ap (λ k. 1024 + 24 * class_of 4288 k 4232) (sym e.1)
      | inr e ↦ omega arith
    ]
  ],
)

abbrev IsListedAt : ℕ → Type 0
IsListedAt y = (h : ℕ) × IsFiledAt h y × IsLinked 1024 4096 blocks h × Reach next_row h y

heap-IsListed : IsListed IsFiledAt (IsLinked 1024 4096 blocks) next_row
heap-IsListed y (inl k) = (y, head-IsFiled y k, inl k, here)
heap-IsListed y (inr (inl same)) =
    subst IsListedAt (sym same) (1024, first-IsFiled, inl (0, omega arith, refl), more here)
heap-IsListed y (inr (inr (inl same))) =
    subst IsListedAt (sym same) (1192, last-IsFiled, inl (7, omega arith, refl), more here)
heap-IsListed y (inr (inr (inr k))) =
    let at : y ≡ 1024 = omega arith in
    (
      1024,
      subst (IsFiledAt 1024) (sym at) (head-IsFiled 1024 (0, omega arith, refl)),
      inl (0, omega arith, refl),
      subst (Reach next_row 1024) (sym at) here,
    )

pub heap-IsHeap : IsHeap heap blocks
heap-IsHeap = (
  refl,
  omega arith,
  inl (omega arith),
  (next_row-IsHalf, prev_row-IsHalf, heap-IsListed),
  (
    refl,
    block refl refl (omega arith) (λ k. refl)
        (block refl refl (omega arith) (λ k. cc)
          (block refl refl (omega arith) (λ k. refl) (epilogue refl refl))),
  ),
)
