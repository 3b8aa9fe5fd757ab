-- ===== src/Node/Examples.antt =====
-- Runs of a node of three peers, and the theorems at them.
pub mod Runs
pub mod Votes
pub mod Methods
pub mod Clients
use raft_kv.Base.{
  ℕ, ◌≤◌, ◌<◌, ◌≡◌, ◌↔◌, ◌≢◌, refl, Bool, true, false, none, some, List, [], ◌∷◌, ◌++◌, map, Bytes,
  pos, arith, All,
}
use raft_kv.Outcome.{state}
use raft_kv.Log.{Log, Entry, get_term}
use raft_kv.Log.Terms.{Known}
use raft_kv.Message.{RequestVote, AppendEntries, InstallSnapshot, request_vote, install_snapshot}
use raft_kv.Node.State.{Node, Env, Role}
use raft_kv.Node.Send.{no_flight}
use raft_kv.Node.Reads.{quorum_size}
use raft_kv.Node.Send.{emit}
use raft_kv.Node.Votes.{
  handle_request_vote, accepts_vote_request, is_remote_peer, answer_vote_request, is_sticky,
  cast_vote, grants_vote, is_log_up_to_date, reply_vote,
}
use raft_kv.Log.{save_hard_state, get, truncate_suffix, append_batch, consecutive}
use raft_kv.Node.Roles.{become_follower, persist_term, step_down, reset_election_timer}
use raft_kv.Node.Propose.{fail_pending}
use raft_kv.Node.Ticks.{tick, campaign_if, lead_if}
use raft_kv.Node.Append.{resolve_conflict}
use raft_kv.Node.Reads.{
  clear_read_index_queues, process_pending_reads, ready_reads, finish_read_index_rounds,
  drop_confirmed, try_start_read_round, maybe_send_read_probes, send_probes,
}
use raft_kv.Node.Apply.{
  apply_loop, gather, apply_now, finish_apply, enable_reads, settle, take_pending, maybe_snapshot,
  snapshot_due, sort_falling, insert_falling,
}
use raft_kv.Node.Append.{handle_append_entries, conflict_index, store_entries}
use raft_kv.Node.Snapshots.{handle_install_snapshot}
use raft_kv.Node.Apply.{majority_match, raise_commit, apply_committed}
use raft_kv.Node.Events.{Event, received, ticked, step, run}
use raft_kv.Node.Ballot.Keeps.{ballot}
use raft_kv.Node.Ballot.Steps.{BallotStep}
use raft_kv.Node.Ballot.Histories.{run-Moves}
use raft_kv.Node.Progress.Relation.{progress, Advances, Grows}
use raft_kv.Node.Progress.Following.{handle_append_entries-Grows}
use raft_kv.Node.Progress.Installing.{handle_install_snapshot-Grows}
use raft_kv.Node.Progress.Histories.{run-Grows}
use raft_kv.Node.Voting.Grants.{handle_request_vote-grant}
use raft_kv.Node.Voting.Promises.{Unmoved, handle_request_vote-Unmoved, one_vote}
use raft_kv.Node.Matching.{store_entries-Known}
use raft_kv.Node.Majority.{
  reached, majority_match-reached, raise_commit-majority, raise_commit_complete,
}
use raft_kv.Node.Conflict.{conflict_index-IsFirst}
use raft_kv.Node.Applied.{apply_committed-caught_up}

-- A state machine that keeps the commands, and answers each with itself.
abbrev pub world : Env (List Bytes)
world = record {
  now = 1000;
  draw_timeout = λ k. 150;
  link = λ p. true;
  disk_ok = true;
  executor_accepts = true;
  entry_size = λ e. 10;
  apply_batch = λ m first cs. some (cs, m ++ cs);
  export_snapshot = λ m. some [];
  valid_snapshot = λ m i b. true;
  replace_all = λ m i b. some [];
}

abbrev pub entry : ℕ → ℕ → Entry
entry i t = record { index = i; term = t; command = i ∷ [] }

abbrev pub disk : List Entry → Log
disk es = record {
  snapshot = record { index = 0; term = 0; bytes = [] };
  entries = es;
  hard = record { term = 3; voted_for = none };
  intent = none;
}

-- Node 1 of the peers 1, 2 and 3, a follower in term 3.
abbrev pub node_with : List Entry → ℕ → Node (List Bytes)
node_with es commit = record {
  node_id = 1;
  peers = 1 ∷ 2 ∷ 3 ∷ [];
  machine = [];
  log = disk es;
  async_apply = false;
  apply_inflight = none;
  storage_healthy = true;
  current_term = 3;
  voted_for = none;
  role = Role.follower;
  running = true;
  commit_index = commit;
  last_applied = 0;
  leader_id = none;
  votes = [];
  next_index = λ p. 1;
  match_index = λ p. p;
  inflight = λ p. no_flight;
  snapshot_receive = none;
  snapshot_threshold = 0;
  last_snapshot_attempt = 0;
  lease_reads = false;
  snapshot_chunk_bytes = 1024;
  rpc_sequence = 0;
  election_deadline = 2000;
  timeouts_drawn = 0;
  leader_since = 0;
  peer_active = λ p. none;
  lease_confirmed = λ p. none;
  heartbeat_timer_ms = 50;
  pending = [];
  pending_bytes = 0;
  can_serve_read = false;
  next_round_id = 0;
  rounds = [];
  unsent_reads = [];
  pending_reads = [];
  outbox = [];
}

abbrev pub log3 : List Entry
log3 = entry 1 1 ∷ entry 2 3 ∷ entry 3 3 ∷ []

abbrev pub node3 : Node (List Bytes)
node3 = node_with log3 1

abbrev pub vote_call : ℕ → Bool → RequestVote
vote_call t pre = record {
  term = pos t;
  candidate_id = pos 2;
  last_log_index = pos 3;
  last_log_term = pos 3;
  prevote = pre;
}

abbrev pub append_call : AppendEntries
append_call = record {
  term = pos 4;
  leader_id = pos 2;
  prev_log_index = pos 1;
  prev_log_term = pos 1;
  entries = record { index = pos 2; term = pos 4; command = [] } ∷ [];
  leader_commit = pos 2;
  rpc_id = 7;
}

abbrev pub snapshot_call : InstallSnapshot
snapshot_call = record {
  term = pos 4;
  leader_id = pos 2;
  last_included_index = pos 9;
  last_included_term = pos 4;
  offset = pos 0;
  bytes = [];
  is_last = true;
  rpc_id = 8;
}

abbrev pub history : List (Env (List Bytes) × Event)
history =
    (world, received 2 (install_snapshot snapshot_call))
    ∷ (world, received 2 (request_vote (vote_call 5 false)))
    ∷ (world, ticked)
    ∷ []
