-- ===== src/Staking/Candidate.antt =====
-- pallets/bfc-staking/src/lib.rs: the methods of `CandidateMetadata` on the candidate's own
-- fields. The children hold those on its bond and on its nominations.
pub mod Status
pub mod Bonding
pub mod Metadata
pub mod Selection
pub mod Restake
pub mod Restaked
pub mod Valid
pub mod Place
pub mod Relist
pub mod Add
pub mod Remove
pub mod Increase
pub mod Decrease
