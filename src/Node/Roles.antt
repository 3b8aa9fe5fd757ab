-- ===== src/Node/Roles.antt =====
-- src/raft/raft_node.cc: the changes of role, the election timer, CheckQuorum, Start and Stop.
use raft_kv.Base.{
  ℕ, ◌+◌, ◌-◌, true, false, Bool, ◌||◌, Option, none, some, [], ◌∷◌, pos, ltb, leb, ◌==◌,
  if◌then◌else◌, elem, update, int32_max,
}
use raft_kv.Outcome.{Outcome, done, fault, ◌>>=◌, ok, err, term_exhausted}
use raft_kv.Log.{last_index, last_term, save_hard_state}
use raft_kv.Message.{Message, request_vote}
use raft_kv.Node.State.{
  Node, Env, follower, pre_candidate, candidate, leader, leadership_lost, server_stopped,
  min_election_timeout_ms, heartbeat_interval_ms,
}
use raft_kv.Node.Send.{no_flight, emit_all}
use raft_kv.Node.Reads.{quorum_size, clear_read_index_queues, count_fresh}
use raft_kv.Node.Apply.{apply_committed}
use raft_kv.Node.Propose.{fail_pending, propose}

module _ {S : Type 0} (env : Env S) where
  unfoldable pub reset_election_timer : Node S → Node S
  reset_election_timer n = record n {
    election_deadline = env.now + env.draw_timeout n.timeouts_drawn;
    timeouts_drawn = n.timeouts_drawn + 1;
  }

  unfoldable pub note_peer_contact : ℕ → Node S → Node S
  note_peer_contact peer n = record n { peer_active = update n.peer_active peer (some env.now) }

  -- The vote and the term are durable before the node acts on them.
  unfoldable pub persist_term : ℕ → Option ℕ → Node S → Outcome (Node S)
  persist_term term vote n = elim (save_hard_state env.disk_ok term vote n.log) [
    | err e ↦ fault e n
    | ok l ↦ done (record n { log = l; current_term = term; voted_for = vote })
  ]

  -- The rest of `BecomeFollower`, after the term.
  unfoldable pub step_down : Node S → Node S
  step_down n =
      record (clear_read_index_queues leadership_lost (
        fail_pending leadership_lost (
          reset_election_timer (record n {
            role = follower;
            leader_id = none;
            votes = [];
            peer_active = λ _. none;
            lease_confirmed = λ _. none;
            inflight = λ _. no_flight;
            snapshot_receive = none;
          })))) { can_serve_read = false }

  unfoldable pub become_follower : ℕ → Node S → Outcome (Node S)
  become_follower term n =
      (if ltb n.current_term term then persist_term term none n else done n) >>= λ n'.
      done (step_down n')

  unfoldable pub vote_message : Node S → ℕ → Bool → Message
  vote_message n term prevote = request_vote (record {
    term = pos term;
    candidate_id = pos n.node_id;
    last_log_index = pos (last_index n.log);
    last_log_term = pos (last_term n.log);
    prevote = prevote;
  })

  -- The first half of `BecomeLeader`: the replication state starts afresh.
  unfoldable pub assume_lead : Node S → Node S
  assume_lead n = record n {
    role = leader;
    leader_id = some n.node_id;
    peer_active = λ _. none;
    lease_confirmed = λ _. none;
    next_index = λ p. if elem p n.peers then last_index n.log + 1 else n.next_index p;
    match_index =
        update (λ p. if elem p n.peers then 0 else n.match_index p) n.node_id (last_index n.log);
    inflight = λ p. if elem p n.peers then no_flight else n.inflight p;
    heartbeat_timer_ms = heartbeat_interval_ms;
    can_serve_read = false;
  }

  -- The second half, after the no-op is written: the lease and the quorum check count from now.
  unfoldable pub settle_lead : Node S → Node S
  settle_lead n = note_peer_contact n.node_id (record n { leader_since = env.now })

  unfoldable pub become_leader : Node S → Outcome (Node S)
  become_leader n = propose env (record { command = []; callback = none }) (assume_lead n) >>= λ n'.
      done (settle_lead n')

  unfoldable pub enter_candidacy : Node S → Node S
  enter_candidacy n =
      reset_election_timer (record n { role = candidate; leader_id = none; votes = n.node_id ∷ [] })

  -- The node votes for itself in the next term.
  unfoldable pub stand : Node S → Outcome (Node S)
  stand n = persist_term (n.current_term + 1) (some n.node_id) n >>= λ n'. done (enter_candidacy n')

  unfoldable pub enter_pre_candidacy : Node S → Node S
  enter_pre_candidacy n =
      reset_election_timer
        (record n { role = pre_candidate; leader_id = none; votes = n.node_id ∷ [] })

  -- A node that is its own quorum leads at once; another asks for votes.
  unfoldable pub campaign : Node S → Outcome (Node S)
  campaign n =
      if quorum_size n == 1
      then become_leader n
      else done (emit_all env (vote_message n n.current_term false) n)

  unfoldable pub become_candidate : Node S → Outcome (Node S)
  become_candidate n =
      if n.current_term == int32_max then fault term_exhausted n else stand n >>= campaign

  unfoldable pub become_pre_candidate : Node S → Outcome (Node S)
  become_pre_candidate n =
      let n' = enter_pre_candidacy n in
      if quorum_size n == 1
      then become_candidate n
      else if n.current_term == int32_max
      then fault term_exhausted n
      else done (emit_all env (vote_message n' (n'.current_term + 1) true) n')

  unfoldable pub check_quorum : Node S → Outcome (Node S)
  check_quorum n =
      let n' = note_peer_contact n.node_id n in
      if leb (quorum_size n') 1
        || ltb (env.now - n'.leader_since) min_election_timeout_ms
        || leb (quorum_size n') (count_fresh env.now n'.peer_active n'.peers)
      then done n'
      else become_follower n'.current_term n'

  unfoldable pub start : Node S → Outcome (Node S)
  start n = become_follower n.current_term (record n { running = true }) >>= apply_committed env

module _ {S : Type 0} where
  unfoldable pub stop : Node S → Node S
  stop n =
      record (clear_read_index_queues server_stopped (
        fail_pending server_stopped
          (record n { running = false; role = follower; leader_id = none }))) {
            can_serve_read = false;
          }
