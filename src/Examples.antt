-- ===== src/Examples.antt =====
-- Concrete clocks, hashes and stores, and the theorems at concrete inputs.
pub mod Worlds
mod Paths
mod Ids
mod Trust
mod Claims
mod Approval
mod Batch
pub mod Transition
mod Campaign
mod Base64
pub mod Contradictions
pub mod Coordination
pub mod Wiki
mod Apply
