-- ===== src/Alloc/Check.antt =====
-- sf_check_pointer of hw3 on the payload of an allocated block.
use cse320_spring.Base.{
  ℕ, ◌+◌, ◌-◌, ◌%◌, ◌≤◌, ◌≡◌, inl, inr, refl, Bool, true, false, not, List, [], ◌∷◌, ◌++◌, ◌==◌,
  ==-eq-false, ltb_of_le, leb_of_lt, Bool-cases, arith,
}
use cse320_spring.Alloc.Memory.{
  Memory, this_allocated, prev_allocated, block_size, sf_check_pointer,
}
use cse320_spring.Alloc.Blocks.{header, Tiles, block, Tiles-le}
use cse320_spring.Alloc.Among.{address}

-- What a block of `size` bytes at `b` has.
abbrev pub IsBlock : (ℕ → ℕ) → ℕ → ℕ → ℕ → ℕ → Type 0
IsBlock w e a b size =
    (b % 16 ≡ 8)
    × (a ≤ b)
    × (size % 16 ≡ 0)
    × (32 ≤ size)
    × (b + size ≤ e)
    × ((q : Bool) × (w b ≡ header size true q) × (q ≡ false → this_allocated (w (b - 8)) ≡ 0))

footer_bit :
    (n : ℕ) (p al : Bool) (w : ℕ → ℕ) (r : ℕ)
    → n % 16 ≡ 0
    → (al ≡ false → w r ≡ header n false p)
    → al ≡ false
    → this_allocated (w r) ≡ 0
footer_bit n true al w r rows footer free = rw (footer free) (omega arith)
footer_bit n false al w r rows footer free = rw (footer free) (omega arith)

pub Tiles-IsBlock :
    (w : ℕ → ℕ) (e a size : ℕ) (p : Bool) (pre bs : List (ℕ × Bool))
    → a % 16 ≡ 8
    → (p ≡ false → this_allocated (w (a - 8)) ≡ 0)
    → Tiles w e a p (pre ++ (size, true) ∷ bs)
    → IsBlock w e a (address a pre) size
Tiles-IsBlock w e a size p [] bs place bit (block at rows large footer t) =
    (place, omega arith, rows, large, Tiles-le t, (p, at, bit))
Tiles-IsBlock w e a size p ((n, al) ∷ pre) bs place bit (block at rows large footer t) =
    let rest =
      Tiles-IsBlock w e (a + n) size al pre bs (omega arith)
        (footer_bit n p al w (a + n - 8) rows footer) t in
    (rest.0, omega (arith, rest.1), rest.2, rest.3, rest.4, rest.5)

-- It is refused where the last row of the payload is like the header.
pub sf_check_pointer-IsBlock :
    (m : Memory) (b size : ℕ)
    → IsBlock m.word (m.stop - 8) (m.start + 40) b size
    → sf_check_pointer (b + 8) m ≡ not (m.word (b + size - 8) == m.word b)
unfolding sf_check_pointer
sf_check_pointer-IsBlock m b size (place, low, rows, large, high, (true, at, bit)) =
    let h = header size true true in
    let back : b + 8 - 8 ≡ b = omega arith in
    let whole : block_size h ≡ size = omega arith in
    let odd : this_allocated h ≡ 1 = omega arith in
    let before : prev_allocated h ≡ 2 = omega arith in
    let multiple : (b + 8) % 16 ≡ 0 = omega arith in
    elim (Bool-cases (m.word (b + size - 8) == h)) [
      | inl e ↦ rw (
        back,
        at,
        multiple,
        whole,
        rows,
        odd,
        before,
        e,
        ==-eq-false (b + 8) 0 (omega arith),
        ltb_of_le (b + 8) m.start (omega arith),
        ltb_of_le b (m.start + 40) low,
        leb_of_lt (m.stop - 8) b (omega arith),
        ltb_of_le size 32 large,
      )
      | inr e ↦ rw (
        back,
        at,
        multiple,
        whole,
        rows,
        odd,
        before,
        e,
        ==-eq-false (b + 8) 0 (omega arith),
        ltb_of_le (b + 8) m.start (omega arith),
        ltb_of_le b (m.start + 40) low,
        leb_of_lt (m.stop - 8) b (omega arith),
        ltb_of_le size 32 large,
        ltb_of_le (m.stop - 8) (b + size) high,
      )
    ]
sf_check_pointer-IsBlock m b size (place, low, rows, large, high, (false, at, bit)) =
    let h = header size true false in
    let back : b + 8 - 8 ≡ b = omega arith in
    let whole : block_size h ≡ size = omega arith in
    let odd : this_allocated h ≡ 1 = omega arith in
    let before : prev_allocated h ≡ 0 = omega arith in
    let multiple : (b + 8) % 16 ≡ 0 = omega arith in
    elim (Bool-cases (m.word (b + size - 8) == h)) [
      | inl e ↦ rw (
        back,
        at,
        multiple,
        whole,
        rows,
        odd,
        before,
        e,
        ==-eq-false (b + 8) 0 (omega arith),
        ltb_of_le (b + 8) m.start (omega arith),
        ltb_of_le b (m.start + 40) low,
        leb_of_lt (m.stop - 8) b (omega arith),
        ltb_of_le size 32 large,
      )
      | inr e ↦ rw (
        back,
        at,
        multiple,
        whole,
        rows,
        odd,
        before,
        e,
        bit refl,
        ==-eq-false (b + 8) 0 (omega arith),
        ltb_of_le (b + 8) m.start (omega arith),
        ltb_of_le b (m.start + 40) low,
        leb_of_lt (m.stop - 8) b (omega arith),
        ltb_of_le size 32 large,
        ltb_of_le (m.stop - 8) (b + size) high,
      )
    ]
