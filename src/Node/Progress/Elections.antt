-- ===== src/Node/Progress/Elections.antt =====
-- Elections, and the log and indices.
use raft_kv.Base.{
  ℕ, ◌+◌, ◌≡◌, refl, ◌∙◌, Bool, true, false, Option, none, some, [], arith, inl, inr, Bool-cases,
  ◌==◌, int32_max, ltb, if◌then◌else◌, pos_part, insert,
}
use raft_kv.Outcome.{Outcome, done, ◌>>=◌, state}
use raft_kv.Log.{save_hard_state}
use raft_kv.Message.{Message, RequestVote, RequestVoteResponse}
use raft_kv.Node.State.{Node, Env, Proposal}
use raft_kv.Node.Send.{emit, emit_all}
use raft_kv.Node.Reads.{clear_read_index_queues, quorum_size}
use raft_kv.Node.Apply.{apply_committed}
use raft_kv.Node.Propose.{fail_pending, propose}
use raft_kv.Node.Roles.{
  reset_election_timer, note_peer_contact, persist_term, step_down, become_follower, become_leader,
  stand, become_candidate, become_pre_candidate, check_quorum, start, stop, vote_message,
  settle_lead, assume_lead, enter_candidacy, enter_pre_candidacy, campaign,
}
use raft_kv.Node.Votes.{
  handle_request_vote, handle_request_vote_response, answer_vote_request, reply_vote, cast_vote,
  win,
}
use raft_kv.Node.Core.{core-emit, core-emit_all}
use raft_kv.Node.Progress.Relation.{
  progress, Advances-refl, Advances-trans, Advances-of_eq, progress-core, Grows, Grows-bind,
  Grows-then,
}
use raft_kv.Node.Progress.Applying.{apply_committed-Grows}
use raft_kv.Node.Progress.Committing.{propose-Grows}

module _ {S : Type 0} (env : Env S) where
  pub progress-persist_term :
      (term : ℕ) (vote : Option ℕ) (n : Node S)
      → progress (state (persist_term env term vote n)) ≡ progress n
  unfolding persist_term save_hard_state progress
  progress-persist_term term vote n = ground arith

  pub progress-step_down : (n : Node S) → progress (step_down env n) ≡ progress n
  unfolding step_down reset_election_timer fail_pending clear_read_index_queues progress
  progress-step_down n = refl

  pub become_follower-Grows : (term : ℕ) (n : Node S) → Grows n (state (become_follower env term n))
  unfolding become_follower
  become_follower-Grows term n = elim (Bool-cases (ltb n.current_term term)) [
    | inl e ↦
        rw (e, become_follower)
          (Grows-then n (persist_term env term none n) (step_down env)
            (Advances-of_eq (progress-persist_term term none n)) progress-step_down)
    | inr e ↦ rw (e, become_follower) (Advances-of_eq (progress-step_down n))
  ]

  progress-settle_lead : (n : Node S) → progress (settle_lead env n) ≡ progress n
  unfolding settle_lead note_peer_contact progress
  progress-settle_lead n = refl

  progress-assume_lead : (n : Node S) → progress (assume_lead env n) ≡ progress n
  unfolding assume_lead progress
  progress-assume_lead n = refl

  no_op : Proposal
  no_op = record { command = []; callback = none }

  become_leader-Grows : (n : Node S) → Grows n (state (become_leader env n))
  unfolding become_leader no_op
  become_leader-Grows n =
      Grows-then n (propose env no_op (assume_lead env n)) (settle_lead env)
        (Advances-trans (Advances-of_eq (progress-assume_lead n))
          (propose-Grows env no_op (assume_lead env n)))
        progress-settle_lead

  progress-enter_candidacy : (n : Node S) → progress (enter_candidacy env n) ≡ progress n
  unfolding enter_candidacy reset_election_timer progress
  progress-enter_candidacy n = refl

  stand-Grows : (n : Node S) → Grows n (state (stand env n))
  unfolding stand
  stand-Grows n =
      Grows-then n (persist_term env (n.current_term + 1) (some n.node_id) n) (enter_candidacy env)
        (Advances-of_eq (progress-persist_term (n.current_term + 1) (some n.node_id) n))
        progress-enter_candidacy

  pub progress-emit : (p : ℕ) (m : Message) (n : Node S) → progress (emit env p m n) ≡ progress n
  progress-emit p m n = progress-core (emit env p m n) n (core-emit env p m n)

  progress-emit_all : (m : Message) (n : Node S) → progress (emit_all env m n) ≡ progress n
  progress-emit_all m n = progress-core (emit_all env m n) n (core-emit_all env m n)

  campaign-Grows : (n : Node S) → Grows n (state (campaign env n))
  unfolding campaign
  campaign-Grows n = elim (Bool-cases (quorum_size n == 1)) [
    | inl e ↦ rw (e, campaign) (become_leader-Grows n)
    | inr e ↦ rw (e, campaign) (Advances-of_eq (progress-emit_all _ n))
  ]

  become_candidate-Grows : (n : Node S) → Grows n (state (become_candidate env n))
  unfolding become_candidate
  become_candidate-Grows n = elim (Bool-cases (n.current_term == int32_max)) [
    | inl e ↦ rw (e, become_candidate) (Advances-refl (progress n))
    | inr e ↦
        rw (e, become_candidate)
          (Grows-bind n (stand env n) (campaign env) (stand-Grows n) campaign-Grows)
  ]

  progress-enter_pre : (n : Node S) → progress (enter_pre_candidacy env n) ≡ progress n
  unfolding enter_pre_candidacy reset_election_timer progress
  progress-enter_pre n = refl

  pub become_pre_candidate-Grows : (n : Node S) → Grows n (state (become_pre_candidate env n))
  unfolding become_pre_candidate
  become_pre_candidate-Grows n =
      let asked : progress (emit_all env _ (enter_pre_candidacy env n)) ≡ progress n =
        progress-emit_all
          (vote_message env (enter_pre_candidacy env n)
            ((enter_pre_candidacy env n).current_term + 1) true)
          (enter_pre_candidacy env n)
        ∙ progress-enter_pre n in
      grind (arith, become_candidate-Grows n, Advances-refl (progress n), Advances-of_eq asked)

  pub check_quorum-Grows : (n : Node S) → Grows n (state (check_quorum env n))
  unfolding check_quorum
  check_quorum-Grows n =
      let m : Node S = note_peer_contact env n.node_id n in
      let same : progress m ≡ progress n = unfold note_peer_contact progress in refl in
      grind (
        arith,
        Advances-of_eq same,
        Advances-trans (Advances-of_eq same) (become_follower-Grows m.current_term m),
      )

  pub start-Grows : (n : Node S) → Grows n (state (start env n))
  unfolding start
  start-Grows n =
      let m : Node S = record n { running = true } in
      let same : progress m ≡ progress n = unfold progress in refl in
      Grows-bind n (become_follower env n.current_term m) (apply_committed env)
        (Advances-trans (Advances-of_eq same) (become_follower-Grows n.current_term m))
        (apply_committed-Grows env)

  -- Step down to a newer term, and go on.
  pub raise_term-Grows :
      (b : Bool) (term : ℕ) (n : Node S) (f : Node S → Outcome (Node S))
      → ((m : Node S) → Grows m (state (f m)))
      → Grows n (state ((if b then become_follower env term n else done n) >>= f))
  raise_term-Grows true term n f k =
      Grows-bind n (become_follower env term n) f (become_follower-Grows term n) k
  raise_term-Grows false term n f k = k n

  progress-reply_vote :
      (from : ℕ) (pre granted : Bool) (n : Node S)
      → progress (reply_vote env from pre granted n) ≡ progress n
  unfolding reply_vote
  progress-reply_vote from pre granted n = progress-emit from _ n

  progress-vote_reply :
      (from : ℕ) (n : Node S)
      → progress (reply_vote env from false true (reset_election_timer env n)) ≡ progress n
  progress-vote_reply from n =
      progress-reply_vote from false true (reset_election_timer env n)
      ∙ (unfold reset_election_timer progress in refl)

  cast_vote-Grows :
      (from : ℕ) (r : RequestVote) (n : Node S) → Grows n (state (cast_vote env from r n))
  unfolding cast_vote
  cast_vote-Grows from r n = ground (
    arith,
    Grows-then n (persist_term env n.current_term (some from) n)
        (λ m. reply_vote env from false true (reset_election_timer env m))
        (Advances-of_eq (progress-persist_term n.current_term (some from) n))
        (progress-vote_reply from),
    Advances-of_eq (progress-reply_vote from false false n),
  )

  pub handle_request_vote-Grows :
      (from : ℕ) (r : RequestVote) (n : Node S) → Grows n (state (handle_request_vote env from r n))
  unfolding handle_request_vote answer_vote_request
  handle_request_vote-Grows from r n = grind (
    arith,
    Advances-refl (progress n),
    λ (pre granted : Bool). Advances-of_eq (progress-reply_vote from pre granted n),
    raise_term-Grows (ltb n.current_term (pos_part r.term)) (pos_part r.term) n
        (cast_vote env from r) (cast_vote-Grows from r),
  )

  pub handle_request_vote_response-Grows :
      (from : ℕ) (r : RequestVoteResponse) (n : Node S)
      → Grows n (state (handle_request_vote_response env from r n))
  unfolding handle_request_vote_response win
  handle_request_vote_response-Grows from r n =
      let m : Node S = record n { votes = insert from n.votes } in
      let same : progress m ≡ progress n = unfold progress in refl in
      grind (
        arith,
        Advances-refl (progress n),
        Advances-of_eq same,
        become_follower-Grows (pos_part r.term) n,
        Advances-trans (Advances-of_eq same) (become_candidate-Grows m),
        Advances-trans (Advances-of_eq same) (become_leader-Grows m),
      )

pub progress-stop : {S : Type 0} (n : Node S) → progress (stop n) ≡ progress n
unfolding stop fail_pending clear_read_index_queues progress
progress-stop n = refl
