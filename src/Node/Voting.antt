-- ===== src/Node/Voting.antt =====
-- HandleRequestVote: answers and votes.
pub mod Grants
pub mod Promises
