-- ===== src/Spool.antt =====
-- The print spooler of hw4.
pub mod Mask
pub mod State
pub mod Jobs
pub mod Words
pub mod Commands
pub mod Cli
pub mod Invariant
pub mod Keep
pub mod Processes
pub mod Find
pub mod Reap
pub mod Tables
pub mod Scan
pub mod ScanKeep
pub mod Lines
pub mod Dispatch
pub mod Rounds
pub mod Reach
pub mod Idle
pub mod WordsLaws
pub mod Deleted
pub mod Verdicts
mod Tests
