-- ===== src/Jupiter.antt =====
-- lib/client/jupiter.ts: the Jupiter Vaults accounts that the client reads, and their addresses.
-- Ticks: tick numbers and the group of a position id. Accounts: the decoders. Addresses: the seeds.
pub mod Ticks
pub mod Accounts
pub mod Addresses
