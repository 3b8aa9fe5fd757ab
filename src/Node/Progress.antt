-- ===== src/Node/Progress.antt =====
-- The log, the commit index and the applied index of a node.
pub mod Relation
pub mod Applying
pub mod Committing
pub mod Elections
pub mod Following
pub mod Covering
pub mod Installing
pub mod Responses
pub mod Histories
