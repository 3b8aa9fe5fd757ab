-- ===== src/Node.antt =====
-- src/raft/raft_node.{h,cc}, one module for each group of methods.
pub mod State
pub mod Send
pub mod Reads
pub mod Apply
pub mod Propose
pub mod Roles
pub mod Votes
pub mod Append
pub mod Snapshots
pub mod Ticks
pub mod Recovery
pub mod Events
pub mod Core
pub mod Ballot
pub mod Progress
pub mod Voting
pub mod Matching
pub mod Waiting
pub mod Limits
pub mod Examples
pub mod Applied
pub mod Conflict
pub mod Majority
