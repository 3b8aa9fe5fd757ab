-- ===== src/Node/Voting/Promises.antt =====
-- HandleRequestVote: pre-votes, recent leaders, and the votes of a term.
use raft_kv.Base.{
  ℕ, ◌≡◌, refl, sym, ◌∙◌, Bool, true, false, ◌||◌, some, List, [], arith, subst, pos_part, inl, inr,
  Bool-cases,
}
use raft_kv.Outcome.{Outcome, done, state}
use raft_kv.Message.{RequestVote}
use raft_kv.Node.State.{Node, Env}
use raft_kv.Node.Send.{emit}
use raft_kv.Node.Votes.{
  handle_request_vote, answer_vote_request, reply_vote, grants_prevote, is_sticky,
}
use raft_kv.Node.Events.{Event, run}
use raft_kv.Node.Ballot.Keeps.{ballot}
use raft_kv.Node.Ballot.Steps.{BallotStep, BallotStep-trans}
use raft_kv.Node.Ballot.Handlers.{handle_request_vote-Moves}
use raft_kv.Node.Ballot.Histories.{run-Moves}
use raft_kv.Node.Voting.Grants.{has_grant, handle_request_vote-grant}

-- The call returns, and leaves all but the outbox.
unfoldable pub Unmoved : {S : Type 0} → Node S → Outcome (Node S) → Type 0
Unmoved n o = (m : Node _) × (o ≡ done m) × (record m { outbox = n.outbox } ≡ n)

module _ {S : Type 0} (env : Env S) where
  reply_vote-keeps :
      (from : ℕ) (prevote granted : Bool) (n : Node S)
      → record (reply_vote env from prevote granted n) { outbox = n.outbox } ≡ n
  unfolding reply_vote emit
  reply_vote-keeps from prevote granted n = elim (Bool-cases (env.link from)) [
    | inr e ↦ rw e refl
    | inl e ↦ rw e refl
  ]

  reply_vote-Unmoved :
      (from : ℕ) (prevote granted : Bool) (n : Node S)
      → Unmoved n (done (reply_vote env from prevote granted n))
  unfolding Unmoved
  reply_vote-Unmoved from prevote granted n =
      (reply_vote env from prevote granted n, refl, reply_vote-keeps from prevote granted n)

  done-Unmoved : (n : Node S) → Unmoved n (done n)
  unfolding Unmoved
  done-Unmoved n = (n, refl, refl)

  -- A pre-vote request, and any vote request to a follower that heard from another leader within
  -- the election timeout, is answered at most: the handler returns, and the node changes in nothing
  -- but what it sends.
  pub handle_request_vote-Unmoved :
      (from : ℕ) (r : RequestVote) (n : Node S)
      → (r.prevote || is_sticky env from n) ≡ true
      → Unmoved n (handle_request_vote env from r n)
  unfolding handle_request_vote answer_vote_request
  handle_request_vote-Unmoved from r n h = ground (
    arith,
    done-Unmoved n,
    reply_vote-Unmoved from r.prevote false n,
    reply_vote-Unmoved from r.prevote (grants_prevote env r n) n,
  )

-- A request that the node answers with its vote, seen on what the node sends from then on.
abbrev pub Votes : {S : Type 0} → Env S → ℕ → RequestVote → Node S → Node S → Type 0
Votes env from r n m =
    (handle_request_vote env from r (record n { outbox = [] }) ≡ done m)
    × (has_grant from m.outbox ≡ true)

-- A node gives one vote in a term: when it votes twice, with any history between, for requests of
-- one term, both votes are for the same candidate.
pub one_vote :
    {S : Type 0} (env₁ env₂ : Env S) (a b : ℕ) (r₁ r₂ : RequestVote) (n m k l : Node S)
    (es : List (Env S × Event))
    → Votes env₁ a r₁ n m
    → state (run es m) ≡ k
    → Votes env₂ b r₂ k l
    → pos_part r₁.term ≡ pos_part r₂.term
    → a ≡ b
unfolding ballot
one_vote env₁ env₂ a b r₁ r₂ n m k l es (h, given) between (h', given') same =
    let (vote, hard, term, fresh, free) = handle_request_vote-grant env₁ a r₁ _ m h refl given in
    let (vote', hard', term', fresh', free') =
      handle_request_vote-grant env₂ b r₂ _ l h' refl given' in
    let drained : BallotStep (ballot k) (ballot l) =
      subst (λ o. BallotStep (ballot k) (ballot (state o))) h'
        (handle_request_vote-Moves env₂ b r₂ (record k { outbox = [] })) in
    let during : BallotStep (ballot m) (ballot k) =
      subst (λ x. BallotStep (ballot m) (ballot x)) between (run-Moves es m) in
    let later = BallotStep-trans during drained in
    let kept : l.voted_for ≡ some a = later.vote_kept (term ∙ same ∙ sym term') a vote in
    let both : some b ≡ some a = sym vote' ∙ kept in cc
