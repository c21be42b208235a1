-- ===== src/Lib.antt =====
-- bifrost-node is a Substrate chain. This library models the core of its staking pallet,
-- pallets/bfc-staking, of pallets/blaze, which holds the UTXOs of the bridge to Bitcoin and picks
-- those that a transaction spends, and of pallets/bfc-offences, which counts the offences of the
-- validators, from the source, and proves what these pallets rely on.
--
-- The staking pallet keeps, for each validator candidate, a `CandidateMetadata` and two lists of
-- nominations: the top, which counts towards the voting power, and the bottom, which waits. A
-- nominator has a `Nominator` with the amounts that it nominates and the requests to lower or
-- revoke them, which fall due some rounds later.
--
--  * Prelude: tests, lists, maps and machine words that all parts share.
--  * Staking/Nominations: `Bond` and `Nominations` of pallets/bfc-staking/src/lib.rs. The binary
--    search and the stable sort are those of Rust's `slice`, written out: the search as the halving
--    loop of the standard library, on as much fuel as the list has elements, and each round leaves
--    at most the upper half of a window of two or more.
--  * Staking/Types, Staking/Storage: the records and enums of the same file, and the storage values,
--    configuration, errors and events of pallets/bfc-staking/src/pallet/mod.rs that this code uses.
--  * Staking/Requests: `PendingNominationRequests`.
--  * Staking/Nominator: the methods of `Nominator`.
--  * Staking/Candidate: the methods of `CandidateMetadata`: Status, Bonding, and those on the
--    nominations in Add, Remove, Increase and Decrease. Valid says what holds of a candidate between
--    the calls, Place in which list a nomination is, Restaked what a call may change.
--  * Staking/Execution: the methods of `Nominator` that change its candidate too, and
--    `nominator_leaves_candidate` of pallets/bfc-staking/src/pallet/impls.rs.
--  * Staking/Election: `compute_top_candidates` of the same file. Ranking is about falling lists, Elected
--    about who is chosen.
--  * Staking/Snapshot: `TotalSnapshot` and `refresh_total_snapshot`, with Balance for how its figures
--    fit together.
--  * Blaze/Coins: `select_coins` of pallets/blaze/src/pallet/impls.rs. The two nested `dfs` are one
--    function, `dfs`, on a record of what differs, by recursion on what is left of the sorted pool;
--    `tries` and the best selection are its state. Search has the rule for its calls, Bounds counts
--    them, Sound says what is recorded, Least that nothing better is passed over; Branch and Waste are
--    about `select_coins_bnb`, Split, Knapsack and Selection about the knapsack solver and both.
--  * Blaze/Types: the storage of pallets/blaze, its errors, events and configuration. Blaze/Utxos: the
--    votes of the relayers that make a UTXO available, the transactions that lock and spend it, and
--    `replace_authority`; Votes, Broadcast, Locks, Reports and Counts are about them. Blaze/Fees: the fee rates
--    and their median. Blaze/Outbound: the pool of Socket messages. Blaze/Activation: the switch and
--    the counter of failures. Blaze/Steps: all of these as the steps of one
--    state machine. The majority, which relay-manager holds, and the maximum fee rate, which
--    btc-socket-queue holds, are read from the configuration at the time of each call, and each step
--    has its own.
--  * Offences: pallets/bfc-offences, with Counting for an offence too many and Expiry for what a session
--    removes.
--
-- `sort_by`, in Prelude/Sorting, is Rust's stable sort, written as an insertion sort. A storage map is a function of the account number, a `BTreeMap` an association list. Balances are
-- `u128` and counters `u32`: saturating operations are written with `min`, the plain operators of the
-- release build with a remainder. A method takes the candidate (or nominator) and the storage and
-- returns them changed, or an error with no state: the pallet's calls are transactional, and where a
-- method tries another after an error (`or_if_dne`) the first has written nothing yet. A panic is an
-- error of its own.
--
-- The balances pallet is not part of the repository: its ledger is a type, and `reserve` and
-- `unreserve` are functions that the configuration gives, as are, for pallets/blaze, the hash of a
-- UTXO, the descriptor of an address with the size of an input and the reading of a Socket message.
-- A loop of pallets/blaze over a storage map goes through its association list, in whatever order that
-- is. Weights, logging, encoding and the runtime's
-- wiring are not modelled.
mod Prelude
pub mod Staking
pub mod Blaze
pub mod Offences
