-- ===== src/Node/Votes.antt =====
-- src/raft/raft_node.cc: HandleRequestVote and HandleRequestVoteResponse.
use raft_kv.Base.{
  ℕ, pos, pos_part, is_negative, equals, Bool, true, false, not, ◌&&◌, ◌||◌, Option, none, some,
  ltb, leb, ◌==◌, if◌then◌else◌, length, elem, insert,
}
use raft_kv.Outcome.{Outcome, done, ◌>>=◌}
use raft_kv.Log.{Log, last_index, last_term}
use raft_kv.Message.{RequestVote, RequestVoteResponse, request_vote_response}
use raft_kv.Node.State.{Node, Env, Role}
use raft_kv.Node.Send.{emit}
use raft_kv.Node.Reads.{is_leader_role, quorum_size}
use raft_kv.Node.Roles.{
  reset_election_timer, persist_term, become_follower, become_candidate, become_leader,
}

-- `IsLogUpToDate`.
unfoldable pub is_log_up_to_date : Log → ℕ → ℕ → Bool
is_log_up_to_date l index term =
    if term == last_term l then leb (last_index l) index else ltb (last_term l) term

-- `IsRemotePeer`: `_next_index` has a key for each peer.
unfoldable pub is_remote_peer : {S : Type 0} → Node S → ℕ → Bool
is_remote_peer n id = not (id == n.node_id) && elem id n.peers

-- `value == id` of an identifier that may be -1.
abbrev pub is_id : Option ℕ → ℕ → Bool
is_id none id = false
is_id (some a) id = a == id

abbrev pub is_none : Option ℕ → Bool
is_none none = true
is_none (some a) = false

abbrev pub is_follower_role : Role → Bool
is_follower_role Role.follower = true
is_follower_role _ = false

-- The tests on the sender and the fields, before anything else is read.
unfoldable pub accepts_vote_request : {S : Type 0} → Node S → ℕ → RequestVote → Bool
accepts_vote_request n from r =
    n.running
    && is_remote_peer n from
    && equals r.candidate_id from
    && ltb 0 (pos_part r.term)
    && not (is_negative r.last_log_index)
    && not (is_negative r.last_log_term)
    && leb (pos_part r.last_log_term) (pos_part r.term)

module _ {S : Type 0} (env : Env S) where
  unfoldable pub reply_vote : ℕ → Bool → Bool → Node S → Node S
  reply_vote from prevote granted n =
      emit env from
        (request_vote_response
          (record { term = pos n.current_term; vote_granted = granted; prevote = prevote }))
        n

  -- A follower that has heard from another leader recently.
  unfoldable pub is_sticky : ℕ → Node S → Bool
  is_sticky from n =
      is_follower_role n.role
      && not (is_none n.leader_id)
      && not (is_id n.leader_id from)
      && ltb env.now n.election_deadline

  unfoldable pub grants_prevote : RequestVote → Node S → Bool
  grants_prevote r n =
      ltb n.current_term (pos_part r.term)
      && is_log_up_to_date n.log (pos_part r.last_log_index) (pos_part r.last_log_term)

  unfoldable pub grants_vote : ℕ → RequestVote → Node S → Bool
  grants_vote from r n =
      pos_part r.term == n.current_term
      && (is_none n.voted_for || is_id n.voted_for from)
      && is_log_up_to_date n.log (pos_part r.last_log_index) (pos_part r.last_log_term)

  -- A granted vote is durable before the reply leaves.
  unfoldable pub cast_vote : ℕ → RequestVote → Node S → Outcome (Node S)
  cast_vote from r n =
      if grants_vote from r n
      then (persist_term env n.current_term (some from) n >>= λ n'.
          done (reply_vote from false true (reset_election_timer env n')))
      else done (reply_vote from false false n)

  -- The request has passed the tests on its fields.
  unfoldable pub answer_vote_request : ℕ → RequestVote → Node S → Outcome (Node S)
  answer_vote_request from r n =
      if r.prevote && is_leader_role n.role
      then done (reply_vote from r.prevote false n)
      else if is_sticky from n
      then done (reply_vote from r.prevote false n)
      else if r.prevote
      then done (reply_vote from r.prevote (grants_prevote r n) n)
      else (if ltb n.current_term (pos_part r.term)
          then become_follower env (pos_part r.term) n
          else done n)
        >>= cast_vote from r

  unfoldable pub handle_request_vote : ℕ → RequestVote → Node S → Outcome (Node S)
  handle_request_vote from r n =
      if accepts_vote_request n from r then answer_vote_request from r n else done n

  -- The response counts for the election that the node stands in.
  unfoldable pub counts : RequestVoteResponse → Node S → Bool
  counts r n = elim n.role [
    | Role.pre_candidate ↦ r.prevote && r.vote_granted && leb (pos_part r.term) n.current_term
    | Role.candidate ↦ not r.prevote && equals r.term n.current_term && r.vote_granted
    | _ ↦ false
  ]

  unfoldable pub win : Node S → Outcome (Node S)
  win n = elim n.role [ Role.pre_candidate ↦ become_candidate env n | _ ↦ become_leader env n ]

  unfoldable pub handle_request_vote_response : ℕ → RequestVoteResponse → Node S → Outcome (Node S)
  handle_request_vote_response from r n =
      let n' = record n { votes = insert from n.votes } in
      if not n.running || not (is_remote_peer n from)
      then done n
      else if ltb n.current_term (pos_part r.term)
      then become_follower env (pos_part r.term) n
      else if not (counts r n)
      then done n
      else if leb (quorum_size n') (length n'.votes)
      then win n'
      else done n'
