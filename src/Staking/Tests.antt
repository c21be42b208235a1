-- ===== src/Staking/Tests.antt =====
-- The theorems at concrete inputs: a candidate with a full top of two bonds and one bond below.
mod Execution
mod Bonding
mod Fixtures
mod Nominations
mod Candidate
mod Requests
mod Election
mod Snapshot
