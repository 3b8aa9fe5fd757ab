-- ===== src/Node/Examples/Clients.antt =====
-- Proposals and reads.
use raft_kv.Base.{false, ◌∷◌, ℕ, ◌+◌, ◌≡◌, refl, true, some, List, [], Bytes, arith}
use raft_kv.Outcome.{state}
use raft_kv.Node.State.{Node, Env, Role, ReadRequest, Round}
use raft_kv.Node.Propose.{fail_pending}
use raft_kv.Node.Reads.{requests_of}
use raft_kv.Node.Apply.{settle}
use raft_kv.Node.Examples.{world, node3}
use raft_kv.Node.State.{Proposal, Reason}
use raft_kv.Node.Propose.{admission, admitted, append_proposals, expire_uncommitted_proposals}
use raft_kv.Node.Reads.{request_read_index, ack_read_index_probe, check_read_index_timeout}
use raft_kv.Node.Limits.{IsAccounted, proposals-Accounted}
use raft_kv.Node.Waiting.Counting.{waiting, served_reads, failed_reads, reads_of}
use raft_kv.Node.Roles.{become_follower, persist_term, stop}
use raft_kv.Log.{save_hard_state}
use raft_kv.Node.Waiting.Requests.{request_read_index-reads_of}
use raft_kv.Node.Waiting.Leaving.{held, Failed, become_follower-Failed}
use raft_kv.Node.Waiting.Deadlines.{
  timely, timely_rounds, check_read_index_timeout-Failed, ack_read_index_probe-Confirms,
}

-- A leader that has committed in its term.
abbrev leading : Node (List Bytes)
leading = record node3 { role = Role.leader; leader_id = some 1; can_serve_read = true }

proposals-Accounted_example :
    ((ps : List Proposal) (first : ℕ)
      → admission ps leading ≡ admitted first
      → IsAccounted (state (append_proposals world first ps leading)))
    × ((i : ℕ) (results : List Bytes) → IsAccounted (settle i results leading))
    × IsAccounted (expire_uncommitted_proposals world leading)
    × ((why : Reason) → IsAccounted (fail_pending why leading))
proposals-Accounted_example =
    proposals-Accounted world leading
      (record { counted = refl; few = omega arith; small = omega arith })

request_read_index-reads_of_example :
    reads_of 7 (state (request_read_index world 7 leading)) ≡ reads_of 7 leading + 1
request_read_index-reads_of_example = request_read_index-reads_of world 7 7 leading tt

abbrev read : ℕ → ℕ → ℕ → ReadRequest
read c index at = record { read_index = index; callback = c; created_at = at }

-- A round that waits for its second answer, a read behind it, and two reads that wait to be applied.
abbrev round : Round
round = record {
  round_id = 1;
  acks = 1 ∷ [];
  requests = read 7 0 990 ∷ read 7 1 990 ∷ [];
  probe_rpc_ids = (2, 5) ∷ [];
  sent_at = 990;
  confirmed = false;
}

abbrev busy : Node (List Bytes)
busy = record leading {
  rounds = round ∷ [];
  unsent_reads = read 7 1 995 ∷ [];
  pending_reads = read 7 0 0 ∷ read 7 1 995 ∷ [];
}

-- The node after it has learnt of term 4.
abbrev deposed : Node (List Bytes)
deposed = state (become_follower world 4 busy)

become_follower-Failed_example : Failed 7 busy deposed × Failed 7 busy (stop busy)
unfolding become_follower persist_term save_hard_state
become_follower-Failed_example = become_follower-Failed world 7 4 busy deposed refl

-- Eight seconds later, one read of them is young.
abbrev late_world : Env (List Bytes)
late_world = record world { now = 9000 }

abbrev aged : Node (List Bytes)
aged = record busy { unsent_reads = read 7 1 10 ∷ read 7 1 8990 ∷ [] }

check_read_index_timeout-Failed_example :
    (waiting 7 (requests_of (check_read_index_timeout late_world aged).rounds)
      ≡ timely_rounds 7 late_world.now aged.rounds)
    × (waiting 7 (check_read_index_timeout late_world aged).unsent_reads
        ≡ timely 7 late_world.now aged.unsent_reads)
    × (waiting 7 (check_read_index_timeout late_world aged).pending_reads
        ≡ timely 7 late_world.now aged.pending_reads)
    × (failed_reads 7 (check_read_index_timeout late_world aged).outbox
          + held 7 (check_read_index_timeout late_world aged)
        ≡ 0 + held 7 aged)
    × (served_reads 7 (check_read_index_timeout late_world aged).outbox ≡ 0)
check_read_index_timeout-Failed_example =
    check_read_index_timeout-Failed late_world 7 aged (omega arith, tt)
      (omega arith, (omega arith, tt)) (omega arith, (omega arith, tt))

abbrev acked : Node (List Bytes)
acked = ack_read_index_probe world 2 5 busy

ack_read_index_probe-Confirms_example :
    (waiting 7 (requests_of acked.rounds) + 2 ≡ 2)
    × (served_reads 7 acked.outbox ≡ 0 + 1)
    × (waiting 7 acked.pending_reads ≡ 2 + 1)
    × (failed_reads 7 acked.outbox ≡ 0)
    × (acked.unsent_reads ≡ busy.unsent_reads)
ack_read_index_probe-Confirms_example =
    ack_read_index_probe-Confirms world 7 2 5 busy round [] true refl refl refl refl
