-- ===== src/Blaze.antt =====
-- pallets/blaze: the memory pool of UTXOs the relayers keep on chain, and the selection of the
-- coins a transaction spends.
pub mod Coins
pub mod Types
pub mod Activation
pub mod Fees
pub mod Outbound
pub mod Utxos
pub mod Steps
mod Tests
