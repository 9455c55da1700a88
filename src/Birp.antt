-- ===== src/Birp.antt =====
-- The command line of hw1.
pub mod Strings
pub mod Args
pub mod Options
mod Tests
