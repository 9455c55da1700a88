-- ===== src/Bdd/Tests.antt =====
-- Runs of the image functions of hw1 at concrete inputs, and their theorems applied there.
use cse320_spring.Base.{
  ℕ, ◌-◌, ◌+◌, ◌*◌, ◌%◌, ◌≤◌, ◌<◌, ◌^◌, ◌≡◌, refl, some, none, arith, take, Option, true, false,
}
use native.Mathlib.Nat.{mod-lt}
use cse320_spring.Base.Int.{pos, negsuc}
use cse320_spring.Bdd.Store.{
  Node, Store, Index, Run, returned, initial, num_leaves, hash, insert, probe, bdd_lookup,
  null_node,
}
use cse320_spring.Bdd.Occupancy.{slot}
use cse320_spring.Bdd.Probe.{Miss}
use cse320_spring.Bdd.Invariant.{IsInner, IsValid, Ensures, initial-IsValid}
use cse320_spring.Bdd.Insert.{inserted, inserted-IsValid}
use cse320_spring.Bdd.Lookup.{Finds, Found, bdd_lookup-Found}
use cse320_spring.Bdd.Image.{bdd_apply, bdd_map, bdd_rotate, bdd_zoom, apply_loop, halve}
use cse320_spring.Bdd.Denote.{denote, path}
use cse320_spring.Bdd.Unique.{bdd_lookup-canonical}
use cse320_spring.Bdd.Combine.{Draws}
use cse320_spring.Bdd.Map.{bdd_map-Draws}
use cse320_spring.Bdd.Apply.{bdd_apply-denote}
use cse320_spring.Bdd.Raster.{bdd_min_level, bdd_from_raster, bdd_to_raster}
use cse320_spring.Bdd.Cover.{IsCover, bdd_min_level-IsCover}
use cse320_spring.Bdd.Window.{window_at}
use cse320_spring.Bdd.RoundTrip.{
  scan_rows, bdd_to_raster-scan, entries_from, bdd_from_raster-Draws, bdd_to_raster-bdd_from_raster,
}
use cse320_spring.Bdd.Rotate.{twice}
use cse320_spring.Bdd.Turn.{Turned, bdd_rotate-Turned}
use cse320_spring.Bdd.ZoomIn.{bdd_zoom-magnified}
use cse320_spring.Bdd.ZoomOut.{shrunk, bdd_zoom-shrunk}
use cse320_spring.Bdd.Serial.{Writer, bdd_serialize, bdd_deserialize}
use cse320_spring.Bdd.Serialize.{bdd_deserialize-bdd_serialize}

-- Two rows of two pixels: black above white.
abbrev two_rows : Node
two_rows = record { level = 2; left = 0; right = 255 }

abbrev flag : Store
flag = inserted initial (slot (hash two_rows) 0) two_rows

flag-IsValid : IsValid flag
flag-IsValid = inserted-IsValid initial initial-IsValid two_rows inner 0 miss (omega arith)
  where
    inner : IsInner initial two_rows
    inner = omega arith

    miss : Miss initial two_rows (hash two_rows) 0
    miss = (omega arith, refl, λ u h. absurd (omega arith))

-- The second call for one node finds the first call's.
first_lookup : Run Index
first_lookup = bdd_lookup 2 (some 0) (some 255) initial

abbrev result_of : Run Index → Option Index
result_of (returned i s) = some i
result_of _ = none

first_lookup_runs : result_of first_lookup ≡ some (some 256)
unfolding first_lookup bdd_lookup probe hash insert null_node
first_lookup_runs = refl

flag_pixels : bdd_apply flag.nodes 256 1 0 ≡ some 255
unfolding bdd_apply apply_loop halve
flag_pixels = refl

bdd_lookup-Found_example :
    Ensures (bdd_lookup 3 (some 256) (some 9) flag) (Finds (Found flag 3 256 9))
bdd_lookup-Found_example = bdd_lookup-Found flag flag-IsValid 3 256 9 (omega arith)

bdd_lookup-canonical_example : bdd_lookup 2 (some 0) (some 255) flag ≡ returned (some 256) flag
bdd_lookup-canonical_example =
    bdd_lookup-canonical flag flag-IsValid 1 0 255 (omega arith)
      (elim [ false ↦ (omega arith, omega arith) | true ↦ (omega arith, omega arith) ]) 256
      (omega arith) (elim [ false ↦ λ p e. rw (e) refl | true ↦ λ p e. rw (e) refl ])

bdd_apply-denote_example : bdd_apply flag.nodes 256 1 0 ≡ some (denote flag.nodes 256 (path 2 1 0))
bdd_apply-denote_example =
    bdd_apply-denote flag flag-IsValid 1 0 256 (omega arith) (omega arith) (omega arith)

abbrev complement : ℕ → ℕ
complement x = 255 - x

bdd_map-Draws_example :
    Ensures
      (bdd_map 3 complement 256 flag)
      (Finds (Draws flag 2 (λ p. complement (denote flag.nodes 256 p))))
bdd_map-Draws_example =
    bdd_map-Draws complement (λ x h. omega arith) 3 flag 2 256 flag-IsValid (omega arith)
      (omega arith) (omega arith)

bdd_rotate-Turned_example : Ensures (bdd_rotate 2 256 (twice 1) flag) (Finds (Turned flag 1 256))
bdd_rotate-Turned_example =
    bdd_rotate-Turned 2 1 flag 256 (omega arith) (omega arith) flag-IsValid (omega arith)

bdd_zoom-magnified_example :
    Ensures
      (bdd_zoom 3 (pos 1) 256 flag)
      (Finds (Draws flag (2 + 2 * 1) (λ p. denote flag.nodes 256 (take 2 p))))
bdd_zoom-magnified_example =
    bdd_zoom-magnified 1 3 2 (omega arith) (omega arith) flag 256 flag-IsValid (omega arith)

bdd_zoom-shrunk_example :
    Ensures
      (bdd_zoom 3 (negsuc 0) 256 flag)
      (Finds (Draws flag (2 - 2 * 1) (shrunk flag.nodes 2 256)))
bdd_zoom-shrunk_example =
    bdd_zoom-shrunk 0 3 2 (omega arith) (omega arith) flag 256 flag-IsValid (omega arith)
      (omega arith)

abbrev ramp : ℕ → ℕ
ramp k = k % 256

ramp_bytes : (k : ℕ) → ramp k < num_leaves
ramp_bytes k = mod-lt k (omega arith)

bdd_from_raster-Draws_example :
    (d : ℕ) × (2 ≤ 2 ^ d)
    × (3 ≤ 2 ^ d)
    × Ensures
        (bdd_from_raster 2 3 ramp initial)
        (Finds (Draws initial (d + d) (window_at 2 3 ramp 0 0)))
bdd_from_raster-Draws_example =
    bdd_from_raster-Draws 2 3 ramp ramp_bytes initial initial-IsValid (omega arith) (omega arith)
      (omega arith)

bdd_to_raster-scan_example :
    bdd_to_raster flag.nodes 256 2 2
    ≡ some (scan_rows (λ r c. denote flag.nodes 256 (path 2 r c)) 2 2 0)
bdd_to_raster-scan_example = bdd_to_raster-scan flag flag-IsValid 256 1 (omega arith) 2 2

bdd_to_raster-bdd_from_raster_example :
    Ensures
      (bdd_from_raster 2 3 ramp initial)
      (Finds (λ i t. bdd_to_raster t.nodes i 2 3 ≡ some (entries_from ramp (3 * 2) 0)))
bdd_to_raster-bdd_from_raster_example =
    bdd_to_raster-bdd_from_raster 2 3 ramp ramp_bytes initial initial-IsValid (omega arith)
      (omega arith) (omega arith)

bdd_min_level-IsCover_example :
    (a b : ℕ) × (bdd_min_level 5 3 ≡ some (a + b)) × IsCover 5 a × IsCover 3 b
bdd_min_level-IsCover_example = bdd_min_level-IsCover 5 3 (omega arith) (omega arith)

bdd_deserialize-bdd_serialize_example :
    (w : Writer) × (bdd_serialize 3 flag.nodes 256 ≡ some w)
    × (bdd_deserialize w.counter (λ k. none) 0 w.out flag ≡ returned (some (some 256)) flag)
bdd_deserialize-bdd_serialize_example =
    bdd_deserialize-bdd_serialize flag flag-IsValid (omega arith) (λ k. none) 3 256 (omega arith)
      (omega arith)
