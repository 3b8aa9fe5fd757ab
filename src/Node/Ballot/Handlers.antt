-- ===== src/Node/Ballot/Handlers.antt =====
-- The term and the vote in the handlers of votes.
use raft_kv.Base.{
  ℕ, ◌≡◌, refl, ◌∙◌, Bool, true, false, none, some, arith, inl, inr, ◌⊎◌, Bool-cases, ltb,
  if◌then◌else◌, pos_part, insert,
}
use raft_kv.Outcome.{Outcome, done, ◌>>=◌, state}
use raft_kv.Message.{RequestVote, RequestVoteResponse}
use raft_kv.Node.State.{Node, Env}
use raft_kv.Node.Roles.{persist_term, become_follower, reset_election_timer}
use raft_kv.Node.Votes.{
  handle_request_vote, handle_request_vote_response, answer_vote_request, reply_vote, cast_vote,
  grants_vote, win,
}
use raft_kv.Node.Ballot.Keeps.{ballot}
use raft_kv.Node.Ballot.Steps.{
  BallotStep-refl, BallotStep-trans, BallotStep-of_eq, Moves, Moves-bind, persist_term-Moves,
  become_follower-Moves, become_leader-Moves, become_candidate-Moves, ballot-emit,
}

module _ {S : Type 0} (env : Env S) where
  ballot-reply_vote :
      (from : ℕ) (pre granted : Bool) (n : Node S)
      → ballot (reply_vote env from pre granted n) ≡ ballot n
  unfolding reply_vote
  ballot-reply_vote from pre granted n = ballot-emit env from _ n

  ballot-vote_reply :
      (from : ℕ) (n : Node S)
      → ballot (reply_vote env from false true (reset_election_timer env n)) ≡ ballot n
  ballot-vote_reply from n =
      ballot-reply_vote from false true (reset_election_timer env n)
      ∙ (unfold reset_election_timer ballot in refl)

  -- A grant is the first vote of the term, or the same vote again.
  grants_vote-fresh :
      (from : ℕ) (r : RequestVote) (n : Node S)
      → grants_vote env from r n ≡ true
      → (n.voted_for ≡ none) ⊎ (n.voted_for ≡ some from)
  unfolding grants_vote
  grants_vote-fresh from r n h = ground arith

  cast_vote-Moves :
      (from : ℕ) (r : RequestVote) (n : Node S) → Moves n (state (cast_vote env from r n))
  unfolding cast_vote
  cast_vote-Moves from r n = elim (Bool-cases (grants_vote env from r n)) [
    | inl e ↦
        rw (e, cast_vote)
          (Moves-bind n (persist_term env n.current_term (some from) n)
            (λ m. done (reply_vote env from false true (reset_election_timer env m)))
            (persist_term-Moves env n.current_term (some from) n
              (inr (refl, grants_vote-fresh from r n e)))
            (λ m. BallotStep-of_eq (ballot-vote_reply from m)))
    | inr e ↦ rw (e, cast_vote) (BallotStep-of_eq (ballot-reply_vote from false false n))
  ]

  -- Step down to a newer term, and go on.
  pub raise_term-Moves :
      (b : Bool) (term : ℕ) (n : Node S) (f : Node S → Outcome (Node S))
      → ((m : Node S) → Moves m (state (f m)))
      → Moves n (state ((if b then become_follower env term n else done n) >>= f))
  raise_term-Moves true term n f k =
      Moves-bind n (become_follower env term n) f (become_follower-Moves env term n) k
  raise_term-Moves false term n f k = k n

  pub handle_request_vote-Moves :
      (from : ℕ) (r : RequestVote) (n : Node S) → Moves n (state (handle_request_vote env from r n))
  unfolding handle_request_vote answer_vote_request
  handle_request_vote-Moves from r n = grind (
    arith,
    BallotStep-refl (ballot n),
    λ (pre granted : Bool). BallotStep-of_eq (ballot-reply_vote from pre granted n),
    raise_term-Moves (ltb n.current_term (pos_part r.term)) (pos_part r.term) n
        (cast_vote env from r) (cast_vote-Moves from r),
  )

  pub handle_request_vote_response-Moves :
      (from : ℕ) (r : RequestVoteResponse) (n : Node S)
      → Moves n (state (handle_request_vote_response env from r n))
  unfolding handle_request_vote_response win
  handle_request_vote_response-Moves from r n =
      let m : Node S = record n { votes = insert from n.votes } in
      let same : ballot m ≡ ballot n = unfold ballot in refl in
      grind (
        arith,
        BallotStep-refl (ballot n),
        BallotStep-of_eq same,
        become_follower-Moves env (pos_part r.term) n,
        BallotStep-trans (BallotStep-of_eq same) (become_candidate-Moves env m),
        BallotStep-trans (BallotStep-of_eq same) (become_leader-Moves env m),
      )
