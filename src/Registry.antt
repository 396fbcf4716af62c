-- ===== src/Registry.antt =====
-- The append-only registry of prospective forecasts: src/edgar_moe/forward/registry.py.
pub mod Records
pub mod Session
pub mod Registrations
pub mod Runs
pub mod Batches
pub mod Growth
pub mod Rules
pub mod Invariant
pub mod Advance
pub mod Commands
pub mod Forecasts
pub mod Counts
pub mod Status
pub mod Reads
pub mod Untouched
pub mod Endings
pub mod Lives
pub mod Labelled
pub mod Tests
mod CountTests
