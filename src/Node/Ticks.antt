-- ===== src/Node/Ticks.antt =====
-- src/raft/raft_node.cc: Tick.
use raft_kv.Base.{ℕ, ◌+◌, ◌-◌, not, ◌||◌, List, [], ◌∷◌, leb, ◌==◌, if◌then◌else◌}
use raft_kv.Outcome.{Outcome, done, ◌>>=◌}
use raft_kv.Node.State.{Node, Env, Inflight, tick_interval_ms, heartbeat_interval_ms}
use raft_kv.Node.Send.{send_append_entries, broadcast_append_entries}
use raft_kv.Node.Reads.{
  is_leader, is_leader_role, check_read_index_timeout, finish_read_index_rounds,
}
use raft_kv.Node.Propose.{expire_uncommitted_proposals}
use raft_kv.Node.Roles.{become_pre_candidate, check_quorum}

-- An RPC in flight grows older by a tick.
unfoldable pub age_flight : Inflight → Inflight
age_flight f = if f.id == 0 then f else record f { elapsed_ms = f.elapsed_ms + tick_interval_ms }

module _ {S : Type 0} (env : Env S) where
  -- A peer with nothing in flight is tried again.
  unfoldable pub send_idle : List ℕ → Node S → Outcome (Node S)
  send_idle [] n = done n
  send_idle (p ∷ ps) n =
      (if p == n.node_id || not ((n.inflight p).id == 0)
        then done n
        else send_append_entries env p n)
      >>= send_idle ps

  unfoldable pub age_flights : Node S → Node S
  age_flights n = record n {
    inflight = λ p. age_flight (n.inflight p);
    heartbeat_timer_ms = n.heartbeat_timer_ms - tick_interval_ms;
  }

  unfoldable pub rearm_heartbeat : Node S → Node S
  rearm_heartbeat n = record n { heartbeat_timer_ms = heartbeat_interval_ms }

  unfoldable pub heartbeat : Node S → Outcome (Node S)
  heartbeat n =
      let aged = age_flights n in
      if leb n.heartbeat_timer_ms tick_interval_ms
      then (broadcast_append_entries env aged >>= λ n'. done (rearm_heartbeat n'))
      else send_idle aged.peers aged

  unfoldable pub check_lead : Node S → Outcome (Node S)
  check_lead n = check_quorum env (check_read_index_timeout env n)

  -- A leader that lost its quorum has stepped down and does nothing more.
  unfoldable pub finish_lead : Node S → Outcome (Node S)
  finish_lead n =
      if is_leader n
      then finish_read_index_rounds env (expire_uncommitted_proposals env n)
      else done n

  unfoldable pub lead : Node S → Outcome (Node S)
  lead n = heartbeat n >>= check_lead >>= finish_lead

  unfoldable pub lead_if : Node S → Outcome (Node S)
  lead_if n = if is_leader_role n.role then lead n else done n

  -- The election timeout of a node that does not lead.
  unfoldable pub campaign_if : Node S → Outcome (Node S)
  campaign_if n =
      if is_leader_role n.role || not (leb n.election_deadline env.now)
      then done n
      else become_pre_candidate env n

  unfoldable pub tick : Node S → Outcome (Node S)
  tick n = if not n.running then done n else campaign_if n >>= lead_if
