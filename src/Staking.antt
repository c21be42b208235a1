-- ===== src/Staking.antt =====
-- pallets/bfc-staking: nominations, candidates, nominators and rounds.
pub mod Nominations
pub mod Types
pub mod Storage
pub mod Requests
pub mod Nominator
pub mod Candidate
pub mod Execution
pub mod Election
pub mod Snapshot
mod Tests
