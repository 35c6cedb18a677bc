-- ===== src/Consensus.antt =====
-- The sidechain consensus, p2pearl/consensus: one module for each file.
mod Tests
pub mod Subsidy
pub mod Difficulty
pub mod Pplns
pub mod Share
pub mod Sharechain
