-- ===== src/Node/Ballot/Histories.antt =====
-- Snapshot handlers, the timer, and any history of events.
use raft_kv.Base.{
  ℕ, ◌≡◌, refl, ◌∙◌, Bool, true, false, not, ◌||◌, Option, none, some, List, [], ◌∷◌, arith, ◌==◌,
  if◌then◌else◌, pos_part, ltb,
}
use raft_kv.Outcome.{done, ◌>>=◌, state}
use raft_kv.Log.{Snapshot, stage_snapshot_install, install_snapshot, persist_snapshot}
use raft_kv.Message.{
  Message, InstallSnapshot, InstallSnapshotResponse, request_vote, request_vote_response,
  append_entries, append_entries_response, install_snapshot_response,
}
use raft_kv.Node.State.{Node, Env}
use raft_kv.Node.Send.{send_append_entries, broadcast_append_entries}
use raft_kv.Node.Reads.{check_read_index_timeout}
use raft_kv.Node.Propose.{expire_uncommitted_proposals}
use raft_kv.Node.Roles.{reset_election_timer, note_peer_contact}
use raft_kv.Node.Snapshots.{
  Chunk, handle_install_snapshot, handle_install_snapshot_response, answer_chunk, take_chunk,
  complete_install, replace_machine, reply_chunk, take_chunk_response, send_next_chunk,
  snapshot_installed, seek_chunk, record_installed,
}
use raft_kv.Node.Ticks.{
  tick, lead, heartbeat, send_idle, age_flights, rearm_heartbeat, check_lead, finish_lead, lead_if,
  campaign_if,
}
use raft_kv.Node.Events.{
  Event, received, ticked, proposed, read_requested, apply_finished, started, stopped, dispatch,
  step, run,
}
use raft_kv.Node.Core.{
  core-finish_rounds, core-timeout, core-send_snapshot_chunk, core-request_read,
}
use raft_kv.Node.Ballot.Keeps.{
  ballot, ballot-core, ballot-bind, ballot-broadcast, ballot-propose_batch, ballot-apply_completed,
}
use raft_kv.Node.Ballot.Steps.{
  BallotStep, BallotStep-refl, BallotStep-trans, BallotStep-of_eq, Moves, Moves-bind,
  become_follower-Moves, ballot-emit, become_pre_candidate-Moves, check_quorum-Moves, start-Moves,
  ballot-stop,
}
use raft_kv.Node.Ballot.Handlers.{
  raise_term-Moves, handle_request_vote-Moves, handle_request_vote_response-Moves,
}
use raft_kv.Node.Ballot.Replication.{
  handle_append_entries-Moves, handle_append_entries_response-Moves, ballot-contact, ballot-send,
  ballot-send_rest,
}

module _ {S : Type 0} (env : Env S) where
  ballot-reply_chunk :
      (from rpc : ℕ) (success complete : Bool) (n : Node S)
      → ballot (reply_chunk env from rpc success complete n) ≡ ballot n
  unfolding reply_chunk
  ballot-reply_chunk from rpc success complete n = ballot-emit env from _ n

  ballot-complete_install :
      (s : Snapshot) (n : Node S) → ballot (state (complete_install env s n)) ≡ ballot n
  unfolding complete_install replace_machine stage_snapshot_install install_snapshot
      persist_snapshot ballot
  ballot-complete_install s n = ground arith

  ballot-receive :
      (n : Node S) (s : Option Snapshot) → ballot (record n { snapshot_receive = s }) ≡ ballot n
  unfolding ballot
  ballot-receive n s = refl

  ballot-take_chunk :
      (from : ℕ) (c : Chunk) (n : Node S) → ballot (state (take_chunk env from c n)) ≡ ballot n
  unfolding take_chunk
  ballot-take_chunk from c n = grind (
    arith,
    λ (a b : Bool) (s : Option Snapshot).
        ballot-reply_chunk from c.rpc_id a b (record n { snapshot_receive = s })
        ∙ ballot-receive n s,
    λ (s : Snapshot).
        ballot-bind env n (complete_install env s (record n { snapshot_receive = some s }))
          (λ m. done (reply_chunk env from c.rpc_id true true m))
          (ballot-complete_install s (record n { snapshot_receive = some s })
            ∙ ballot-receive n (some s))
          (ballot-reply_chunk from c.rpc_id true true),
  )

  ballot-answer_chunk :
      (from : ℕ) (c : Chunk) (n : Node S) → ballot (state (answer_chunk env from c n)) ≡ ballot n
  unfolding answer_chunk
  ballot-answer_chunk from c n =
      let m = reset_election_timer env (record n { leader_id = some from }) in
      let same : ballot m ≡ ballot n = unfold reset_election_timer ballot in refl in
      grind (
        arith,
        ballot-reply_chunk from c.rpc_id false false n,
        ballot-reply_chunk from c.rpc_id false false m ∙ same,
        λ (a b : Bool).
            ballot-reply_chunk from c.rpc_id a b (record m { snapshot_receive = none })
            ∙ ballot-receive m none
            ∙ same,
        ballot-take_chunk from c m ∙ same,
      )

  handle_install_snapshot-Moves :
      (from : ℕ) (r : InstallSnapshot) (n : Node S)
      → Moves n (state (handle_install_snapshot env from r n))
  unfolding handle_install_snapshot
  handle_install_snapshot-Moves from r n = grind (
    arith,
    BallotStep-refl (ballot n),
    λ (c : Chunk).
        raise_term-Moves env (ltb n.current_term c.term) c.term n (answer_chunk env from c)
          (λ m. BallotStep-of_eq (ballot-answer_chunk from c m)),
  )

  ballot-seek : (from offset : ℕ) (n : Node S) → ballot (seek_chunk env from offset n) ≡ ballot n
  unfolding seek_chunk ballot
  ballot-seek from offset n = refl

  ballot-send_next_chunk :
      (from offset : ℕ) (n : Node S) → ballot (state (send_next_chunk env from offset n)) ≡ ballot n
  unfolding send_next_chunk
  ballot-send_next_chunk from offset n =
      let m = seek_chunk env from offset n in
      ballot-core _ m (core-send_snapshot_chunk env from m) ∙ ballot-seek from offset n

  ballot-installed : (from : ℕ) (n : Node S) → ballot (record_installed env from n) ≡ ballot n
  unfolding record_installed ballot
  ballot-installed from n = refl

  ballot-snapshot_installed :
      (from : ℕ) (n : Node S) → ballot (state (snapshot_installed env from n)) ≡ ballot n
  unfolding snapshot_installed
  ballot-snapshot_installed from n =
      ballot-send_rest env from (record_installed env from n) ∙ ballot-installed from n

  ballot-take_chunk_response :
      (from : ℕ) (r : InstallSnapshotResponse) (n : Node S)
      → ballot (state (take_chunk_response env from r n)) ≡ ballot n
  unfolding take_chunk_response
  ballot-take_chunk_response from r n =
      grind (arith, ballot-snapshot_installed from n, λ (o : ℕ). ballot-send_next_chunk from o n)

  handle_install_snapshot_response-Moves :
      (from : ℕ) (r : InstallSnapshotResponse) (n : Node S)
      → Moves n (state (handle_install_snapshot_response env from r n))
  unfolding handle_install_snapshot_response
  handle_install_snapshot_response-Moves from r n =
      let m = note_peer_contact env from n in
      grind (
        arith,
        BallotStep-refl (ballot n),
        become_follower-Moves env (pos_part r.term) n,
        BallotStep-of_eq (ballot-take_chunk_response from r m ∙ ballot-contact env from n),
      )

  ballot-send_idle : (ps : List ℕ) (n : Node S) → ballot (state (send_idle env ps n)) ≡ ballot n
  unfolding send_idle
  ballot-send_idle [] n = refl
  ballot-send_idle (p ∷ ps) n =
      let skip = p == n.node_id || not ((n.inflight p).id == 0) in
      ballot-bind env n (if skip then done n else send_append_entries env p n) (send_idle env ps)
        (ground (arith, ballot-send env p n)) (ballot-send_idle ps)

  ballot-age_flights : (n : Node S) → ballot (age_flights env n) ≡ ballot n
  unfolding age_flights ballot
  ballot-age_flights n = refl

  ballot-rearm : (n : Node S) → ballot (rearm_heartbeat env n) ≡ ballot n
  unfolding rearm_heartbeat ballot
  ballot-rearm n = refl

  ballot-heartbeat : (n : Node S) → ballot (state (heartbeat env n)) ≡ ballot n
  unfolding heartbeat
  ballot-heartbeat n =
      let m = age_flights env n in
      ground (
        arith,
        ballot-bind env n (broadcast_append_entries env m) (λ k. done (rearm_heartbeat env k))
            (ballot-broadcast env m ∙ ballot-age_flights n) ballot-rearm,
        ballot-send_idle m.peers m ∙ ballot-age_flights n,
      )

  ballot-expire : (n : Node S) → ballot (expire_uncommitted_proposals env n) ≡ ballot n
  unfolding expire_uncommitted_proposals ballot
  ballot-expire n = refl

  ballot-finish_lead : (n : Node S) → ballot (state (finish_lead env n)) ≡ ballot n
  unfolding finish_lead
  ballot-finish_lead n =
      let m = expire_uncommitted_proposals env n in
      ground (arith, ballot-core _ m (core-finish_rounds env m) ∙ ballot-expire n)

  check_lead-Moves : (n : Node S) → Moves n (state (check_lead env n))
  unfolding check_lead
  check_lead-Moves n =
      let m = check_read_index_timeout env n in
      BallotStep-trans (BallotStep-of_eq (ballot-core m n (core-timeout env n)))
        (check_quorum-Moves env m)

  lead-Moves : (n : Node S) → Moves n (state (lead env n))
  unfolding lead
  lead-Moves n =
      Moves-bind n (heartbeat env n >>= check_lead env) (finish_lead env)
        (Moves-bind n (heartbeat env n) (check_lead env) (BallotStep-of_eq (ballot-heartbeat n))
          check_lead-Moves)
        (λ m. BallotStep-of_eq (ballot-finish_lead m))

  lead_if-Moves : (n : Node S) → Moves n (state (lead_if env n))
  unfolding lead_if
  lead_if-Moves n = grind (arith, lead-Moves n, BallotStep-refl (ballot n))

  campaign_if-Moves : (n : Node S) → Moves n (state (campaign_if env n))
  unfolding campaign_if
  campaign_if-Moves n = grind (arith, become_pre_candidate-Moves env n, BallotStep-refl (ballot n))

  tick-Moves : (n : Node S) → Moves n (state (tick env n))
  unfolding tick
  tick-Moves n = grind (
    arith,
    BallotStep-refl (ballot n),
    Moves-bind n (campaign_if env n) (lead_if env) (campaign_if-Moves n) lead_if-Moves,
  )

  dispatch-Moves : (from : ℕ) (m : Message) (n : Node S) → Moves n (state (dispatch env from m n))
  unfolding dispatch
  dispatch-Moves from (request_vote r) n = handle_request_vote-Moves env from r n
  dispatch-Moves from (request_vote_response r) n = handle_request_vote_response-Moves env from r n
  dispatch-Moves from (append_entries r) n = handle_append_entries-Moves env from r n
  dispatch-Moves from (append_entries_response r) n =
      handle_append_entries_response-Moves env from r n
  dispatch-Moves from (Message.install_snapshot r) n = handle_install_snapshot-Moves from r n
  dispatch-Moves from (install_snapshot_response r) n =
      handle_install_snapshot_response-Moves from r n

  pub step-Moves : (e : Event) (n : Node S) → Moves n (state (step env e n))
  unfolding step
  step-Moves (received from m) n = dispatch-Moves from m n
  step-Moves ticked n = tick-Moves n
  step-Moves (proposed ps) n = BallotStep-of_eq (ballot-propose_batch env ps n)
  step-Moves (read_requested c) n = BallotStep-of_eq (ballot-core _ n (core-request_read env c n))
  step-Moves apply_finished n = BallotStep-of_eq (ballot-apply_completed env n)
  step-Moves started n = start-Moves env n
  step-Moves stopped n = BallotStep-of_eq (ballot-stop n)

-- Whatever happens to a node, its term never falls, a vote that it cast in a term stays its vote
-- as long as the term lasts, and a hard state that was the term and the vote in memory still is,
-- also after an event that throws.
pub run-Moves :
    {S : Type 0} (es : List (Env S × Event)) (n : Node S)
    → BallotStep (ballot n) (ballot (state (run es n)))
unfolding run
run-Moves [] n = BallotStep-refl (ballot n)
run-Moves ((env, e) ∷ es) n =
    Moves-bind n (step env e n) (run es) (step-Moves env e n) (run-Moves es)
