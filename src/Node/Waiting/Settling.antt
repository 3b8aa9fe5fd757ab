-- ===== src/Node/Waiting/Settling.antt =====
-- ProcessPendingReads: the reads that the applied index has reached.
use raft_kv.Base.{ℕ, ◌+◌, ◌≤◌, ◌≡◌, refl, arith}
use raft_kv.Node.State.{Node}
use raft_kv.Node.Reads.{requests_of}
use raft_kv.Node.Waiting.Counting.{total_reads, total_outputs, waiting, failed_reads}
use raft_kv.Node.Waiting.Answering.{reached, early}

-- Between two states no read that index i has reached came to wait for it, none that it has not
-- reached was served, no read was failed, and none came to wait for its round.
pub record Tidies {S : Type 0} (i : ℕ) (n m : Node S) : Type 0 where
  pub pending : total_reads (reached i) m.pending_reads ≡ total_reads (reached i) n.pending_reads
  pub timely : total_outputs (early i) m.outbox ≡ total_outputs (early i) n.outbox
  pub failures : (c : ℕ) → failed_reads c m.outbox ≡ failed_reads c n.outbox
  pub unconfirmed :
      (c : ℕ)
      → waiting c (requests_of m.rounds) + waiting c m.unsent_reads
        ≤ waiting c (requests_of n.rounds) + waiting c n.unsent_reads

module _ {S : Type 0} where
  same-Tidies : (i : ℕ) (n : Node S) → Tidies i n n
  same-Tidies i n = record {
    pending = refl;
    timely = refl;
    failures = λ c. refl;
    unconfirmed = λ c. omega arith;
  }
