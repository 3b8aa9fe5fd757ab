-- ===== src/Node/Ballot.antt =====
-- The term and the vote of a node, and their durable copy.
pub mod Keeps
pub mod Steps
pub mod Handlers
pub mod Replication
pub mod Histories
