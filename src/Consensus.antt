-- ===== src/Consensus.antt =====
-- The consensus of a proposer (consensus/): the votes on a block and their aggregation.
pub mod Votes
pub mod Proposer
