-- ===== src/Blaze/Tests.antt =====
-- Witnesses and runs of the pallet.
mod Coins
mod Pallet
