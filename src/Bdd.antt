-- ===== src/Bdd.antt =====
-- The binary decision diagrams of hw1: images as nodes of a shared, reduced table.
pub mod Store
pub mod Occupancy
pub mod Probe
pub mod Invariant
pub mod Insert
pub mod Lookup
pub mod Image
pub mod Denote
pub mod Canonical
pub mod Combine
pub mod Skip
pub mod Map
pub mod Halving
pub mod Apply
pub mod Raster
pub mod Cover
pub mod Window
pub mod Split
pub mod Coordinates
pub mod RoundTrip
pub mod Rotate
pub mod Turn
pub mod ZoomIn
pub mod ZoomOut
pub mod Serial
pub mod Existing
pub mod Reading
pub mod Numbering
pub mod Serialize
pub mod Unique
mod Tests
