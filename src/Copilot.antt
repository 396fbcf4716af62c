-- ===== src/Copilot.antt =====
-- The research copilot: src/edgar_moe/copilot.
pub mod Contracts
pub mod Provider
pub mod Agent
pub mod Texts
pub mod Policy
pub mod Sources
pub mod Tools
pub mod Baseline
pub mod Verification
mod Tests
