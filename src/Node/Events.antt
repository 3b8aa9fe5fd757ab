-- ===== src/Node/Events.antt =====
-- What drives a RaftNode: the messages of its peers, the timer, clients, and the completion of an
-- asynchronous apply. All run on the owner's thread, one after the other.
use raft_kv.Base.{ℕ, List, [], ◌∷◌}
use raft_kv.Outcome.{Outcome, done, ◌>>=◌}
use raft_kv.Message.{
  Message, request_vote, request_vote_response, append_entries, append_entries_response,
  install_snapshot, install_snapshot_response,
}
use raft_kv.Node.State.{Node, Env, Proposal}
use raft_kv.Node.Reads.{request_read_index}
use raft_kv.Node.Apply.{apply_completed}
use raft_kv.Node.Propose.{propose_batch}
use raft_kv.Node.Roles.{start, stop}
use raft_kv.Node.Votes.{handle_request_vote, handle_request_vote_response}
use raft_kv.Node.Append.{handle_append_entries, handle_append_entries_response}
use raft_kv.Node.Snapshots.{handle_install_snapshot, handle_install_snapshot_response}
use raft_kv.Node.Ticks.{tick}

pub data Event : Type 0 where
  received : ℕ → Message → Event
  ticked : Event
  proposed : List Proposal → Event
  read_requested : ℕ → Event
  apply_finished : Event
  started : Event
  stopped : Event

module _ {S : Type 0} (env : Env S) where
  unfoldable pub dispatch : ℕ → Message → Node S → Outcome (Node S)
  dispatch from (request_vote r) n = handle_request_vote env from r n
  dispatch from (request_vote_response r) n = handle_request_vote_response env from r n
  dispatch from (append_entries r) n = handle_append_entries env from r n
  dispatch from (append_entries_response r) n = handle_append_entries_response env from r n
  dispatch from (install_snapshot r) n = handle_install_snapshot env from r n
  dispatch from (install_snapshot_response r) n = handle_install_snapshot_response env from r n

  unfoldable pub step : Event → Node S → Outcome (Node S)
  step (received from m) n = dispatch from m n
  step ticked n = tick env n
  step (proposed ps) n = propose_batch env ps n
  step (read_requested c) n = request_read_index env c n
  step apply_finished n = apply_completed env n
  step started n = start env n
  step stopped n = done (stop n)

-- A history: each event with what it takes from outside. A throw ends the process.
unfoldable pub run : {S : Type 0} → List (Env S × Event) → Node S → Outcome (Node S)
run [] n = done n
run ((env, e) ∷ es) n = step env e n >>= run es
