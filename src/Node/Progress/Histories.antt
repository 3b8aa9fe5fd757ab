-- ===== src/Node/Progress/Histories.antt =====
-- The timer, and any history of events.
use raft_kv.Base.{ℕ, ◌≡◌, refl, ◌∙◌, not, ◌||◌, List, [], ◌∷◌, arith, ◌==◌, if◌then◌else◌}
use raft_kv.Outcome.{done, ◌>>=◌, state}
use raft_kv.Message.{
  Message, request_vote, request_vote_response, append_entries, append_entries_response,
  install_snapshot_response,
}
use raft_kv.Node.State.{Node, Env}
use raft_kv.Node.Send.{send_append_entries, broadcast_append_entries}
use raft_kv.Node.Reads.{check_read_index_timeout}
use raft_kv.Node.Propose.{expire_uncommitted_proposals}
use raft_kv.Node.Ticks.{
  tick, lead, heartbeat, send_idle, age_flights, rearm_heartbeat, check_lead, finish_lead, lead_if,
  campaign_if,
}
use raft_kv.Node.Events.{
  Event, received, ticked, proposed, read_requested, apply_finished, started, stopped, dispatch,
  step, run,
}
use raft_kv.Node.Core.{core-finish_rounds, core-timeout, core-request_read}
use raft_kv.Node.Progress.Relation.{
  progress, Advances, Advances-refl, Advances-trans, Advances-of_eq, progress-core, Grows,
  Grows-bind, Grows-bind_done, Grows-then,
}
use raft_kv.Node.Progress.Committing.{
  progress-broadcast, propose_batch-Grows, apply_completed-Grows,
}
use raft_kv.Node.Progress.Elections.{
  become_pre_candidate-Grows, check_quorum-Grows, start-Grows, handle_request_vote-Grows,
  handle_request_vote_response-Grows, progress-stop,
}
use raft_kv.Node.Progress.Following.{handle_append_entries-Grows}
use raft_kv.Node.Progress.Responses.{
  progress-send, handle_append_entries_response-Grows, handle_install_snapshot_response-Grows,
}
use raft_kv.Node.Progress.Installing.{handle_install_snapshot-Grows, Consistent}

-- What an event must not contradict: only a snapshot can.
abbrev pub Agrees : {S : Type 0} → Node S → Event → Type 0
Agrees n (received from (Message.install_snapshot r)) = Consistent n r
Agrees n _ = Unit

module _ {S : Type 0} (env : Env S) where
  progress-send_idle : (ps : List ℕ) (n : Node S) → Grows n (state (send_idle env ps n))
  unfolding send_idle
  progress-send_idle [] n = Advances-refl (progress n)
  progress-send_idle (p ∷ ps) n =
      let skip = p == n.node_id || not ((n.inflight p).id == 0) in
      let first : progress (state (if skip then done n else send_append_entries env p n))
          ≡ progress n =
        ground (arith, progress-send env p n) in
      Grows-bind n (if skip then done n else send_append_entries env p n) (send_idle env ps)
        (Advances-of_eq first) (progress-send_idle ps)

  progress-age_flights : (n : Node S) → progress (age_flights env n) ≡ progress n
  unfolding age_flights progress
  progress-age_flights n = refl

  progress-rearm : (n : Node S) → progress (rearm_heartbeat env n) ≡ progress n
  unfolding rearm_heartbeat progress
  progress-rearm n = refl

  heartbeat-Grows : (n : Node S) → Grows n (state (heartbeat env n))
  unfolding heartbeat
  heartbeat-Grows n =
      let m = age_flights env n in
      ground (
        arith,
        Grows-then n (broadcast_append_entries env m) (rearm_heartbeat env)
            (Advances-of_eq (progress-broadcast env m ∙ progress-age_flights n)) progress-rearm,
        Advances-trans (Advances-of_eq (progress-age_flights n)) (progress-send_idle m.peers m),
      )

  progress-expire : (n : Node S) → progress (expire_uncommitted_proposals env n) ≡ progress n
  unfolding expire_uncommitted_proposals progress
  progress-expire n = refl

  progress-finish_lead : (n : Node S) → progress (state (finish_lead env n)) ≡ progress n
  unfolding finish_lead
  progress-finish_lead n =
      let m = expire_uncommitted_proposals env n in
      ground (arith, progress-core _ m (core-finish_rounds env m) ∙ progress-expire n)

  check_lead-Grows : (n : Node S) → Grows n (state (check_lead env n))
  unfolding check_lead
  check_lead-Grows n =
      let m = check_read_index_timeout env n in
      Advances-trans (Advances-of_eq (progress-core m n (core-timeout env n)))
        (check_quorum-Grows env m)

  lead-Grows : (n : Node S) → Grows n (state (lead env n))
  unfolding lead
  lead-Grows n =
      Grows-bind n (heartbeat env n >>= check_lead env) (finish_lead env)
        (Grows-bind n (heartbeat env n) (check_lead env) (heartbeat-Grows n) check_lead-Grows)
        (λ m. Advances-of_eq (progress-finish_lead m))

  lead_if-Grows : (n : Node S) → Grows n (state (lead_if env n))
  unfolding lead_if
  lead_if-Grows n = grind (arith, lead-Grows n, Advances-refl (progress n))

  campaign_if-Grows : (n : Node S) → Grows n (state (campaign_if env n))
  unfolding campaign_if
  campaign_if-Grows n = grind (arith, become_pre_candidate-Grows env n, Advances-refl (progress n))

  pub tick-Grows : (n : Node S) → Grows n (state (tick env n))
  unfolding tick
  tick-Grows n = grind (
    arith,
    Advances-refl (progress n),
    Grows-bind n (campaign_if env n) (lead_if env) (campaign_if-Grows n) lead_if-Grows,
  )

  dispatch-Grows :
      (from : ℕ) (m : Message) (n : Node S)
      → Agrees n (received from m)
      → Grows n (state (dispatch env from m n))
  unfolding dispatch
  dispatch-Grows from (request_vote r) n h = handle_request_vote-Grows env from r n
  dispatch-Grows from (request_vote_response r) n h =
      handle_request_vote_response-Grows env from r n
  dispatch-Grows from (append_entries r) n h = handle_append_entries-Grows env from r n
  dispatch-Grows from (append_entries_response r) n h =
      handle_append_entries_response-Grows env from r n
  dispatch-Grows from (Message.install_snapshot r) n h =
      handle_install_snapshot-Grows env from r n h
  dispatch-Grows from (install_snapshot_response r) n h =
      handle_install_snapshot_response-Grows env from r n

  pub step-Grows : (e : Event) (n : Node S) → Agrees n e → Grows n (state (step env e n))
  unfolding step
  step-Grows (received from m) n h = dispatch-Grows from m n h
  step-Grows ticked n h = tick-Grows n
  step-Grows (proposed ps) n h = propose_batch-Grows env ps n
  step-Grows (read_requested c) n h = Advances-of_eq (progress-core _ n (core-request_read env c n))
  step-Grows apply_finished n h = apply_completed-Grows env n
  step-Grows started n h = start-Grows env n
  step-Grows stopped n h = Advances-of_eq (progress-stop n)

-- Every snapshot that arrives in the history does not contradict the node that it arrives at.
abbrev pub AllAgree : {S : Type 0} → List (Env S × Event) → Node S → Type 0
AllAgree [] n = Unit
AllAgree ((env, e) ∷ es) n = Agrees n e × ((m : Node _) → step env e n ≡ done m → AllAgree es m)

-- Whatever happens to a node, as long as no snapshot contradicts what it knows to be committed: a
-- log without a hole stays one, snapshot, applied, commit and last index stay in order, none of
-- them moves back, and each committed entry that no snapshot has covered is never replaced.
pub run-Grows :
    {S : Type 0} (es : List (Env S × Event)) (n : Node S)
    → AllAgree es n
    → Advances (progress n) (progress (state (run es n)))
unfolding run
run-Grows [] n h = Advances-refl (progress n)
run-Grows ((env, e) ∷ es) n (agrees, rest) =
    Grows-bind_done n (step env e n) (run es) (step-Grows env e n agrees)
      (λ m eq. run-Grows es m (rest m eq))
