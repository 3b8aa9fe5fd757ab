-- ===== src/Node/Waiting.antt =====
-- Linearizable reads: where they wait, and their answers.
pub mod Counting
pub mod Answering
pub mod Sending
pub mod Requests
pub mod Settling
pub mod Leaving
pub mod Deadlines
