-- ===== src/Node/Ballot/Steps.antt =====
-- How the term, the vote and the hard state may change, and the changes of role.
use raft_kv.Base.{
  ℕ, ◌+◌, ◌≤◌, ◌<◌, ◌≡◌, refl, sym, subst, ◌∙◌, true, Option, none, some, [], arith, inl, inr, ◌⊎◌,
  lt→ltb, not_lt→ltb, dec_lt, Bool-cases, ◌==◌, int32_max,
}
use raft_kv.Outcome.{Outcome, done, fault, ◌>>=◌, state}
use raft_kv.Log.{save_hard_state}
use raft_kv.Message.{Message}
use raft_kv.Node.State.{Node, Env, Proposal}
use raft_kv.Node.Send.{emit, emit_all}
use raft_kv.Node.Reads.{clear_read_index_queues, quorum_size}
use raft_kv.Node.Apply.{apply_committed}
use raft_kv.Node.Propose.{fail_pending, propose}
use raft_kv.Node.Roles.{
  reset_election_timer, note_peer_contact, persist_term, step_down, become_follower, become_leader,
  stand, become_candidate, become_pre_candidate, check_quorum, start, stop, vote_message,
  settle_lead, assume_lead, enter_candidacy, enter_pre_candidacy, campaign,
}
use raft_kv.Node.Core.{core-emit, core-emit_all}
use raft_kv.Node.Ballot.Keeps.{Ballot, ballot, ballot-core, ballot-propose, ballot-apply_committed}

-- The term never falls; within a term a vote that was cast stays; and where the hard state was the
-- term and the vote in memory, it still is.
pub record BallotStep (b c : Ballot) : Type 0 where
  pub term_le : b.term ≤ c.term
  pub vote_kept : b.term ≡ c.term → (v : ℕ) → b.vote ≡ some v → c.vote ≡ some v
  pub durable :
      b.hard ≡ record { term = b.term; voted_for = b.vote }
      → c.hard ≡ record { term = c.term; voted_for = c.vote }

pub BallotStep-refl : (b : Ballot) → BallotStep b b
BallotStep-refl b = record { term_le = omega arith; vote_kept = λ e v h. h; durable = λ h. h }

pub BallotStep-trans : {a b c : Ballot} → BallotStep a b → BallotStep b c → BallotStep a c
BallotStep-trans {a} {b} {c} h k = record {
  term_le = omega (arith, h.term_le, k.term_le);
  vote_kept = λ e v x.
      k.vote_kept (omega (arith, h.term_le, k.term_le)) v
        (h.vote_kept (omega (arith, h.term_le, k.term_le)) v x);
  durable = λ d. k.durable (h.durable d);
}

pub BallotStep-of_eq : {b c : Ballot} → c ≡ b → BallotStep b c
BallotStep-of_eq {b} {c} e = subst (λ x. BallotStep b x) (sym e) (BallotStep-refl b)

abbrev pub Moves : {S : Type 0} → Node S → Node S → Type 0
Moves n m = BallotStep (ballot n) (ballot m)

pub Moves-bind :
    {S : Type 0} (n : Node S) (o : Outcome (Node S)) (f : Node S → Outcome (Node S))
    → Moves n (state o)
    → ((m : Node S) → Moves m (state (f m)))
    → Moves n (state (o >>= f))
Moves-bind n (done m) f h k = BallotStep-trans h (k m)
Moves-bind n (fault e m) f h k = h

module _ {S : Type 0} (env : Env S) where
  -- A newer term with any vote, or a first vote, or the same vote again.
  pub persist_term-Moves :
      (term : ℕ) (vote : Option ℕ) (n : Node S)
      → (n.current_term < term)
        ⊎ ((n.current_term ≡ term) × ((n.voted_for ≡ none) ⊎ (n.voted_for ≡ vote)))
      → Moves n (state (persist_term env term vote n))
  unfolding persist_term save_hard_state ballot
  persist_term-Moves term vote n h = record {
    term_le = ground arith;
    vote_kept = λ e v x. ground arith;
    durable = λ d. ground arith;
  }

  ballot-timer : (n : Node S) → ballot (reset_election_timer env n) ≡ ballot n
  unfolding reset_election_timer ballot
  ballot-timer n = refl

  ballot-step_down : (n : Node S) → ballot (step_down env n) ≡ ballot n
  unfolding step_down reset_election_timer fail_pending clear_read_index_queues ballot
  ballot-step_down n = refl

  -- A change of role that keeps the ballot, after a step.
  Moves-then :
      (n : Node S) (o : Outcome (Node S)) (g : Node S → Node S)
      → Moves n (state o)
      → ((m : Node S) → ballot (g m) ≡ ballot m)
      → Moves n (state (o >>= λ m. done (g m)))
  Moves-then n (done m) g h k = BallotStep-trans h (BallotStep-of_eq (k m))
  Moves-then n (fault e m) g h k = h

  pub become_follower-Moves : (term : ℕ) (n : Node S) → Moves n (state (become_follower env term n))
  unfolding become_follower
  become_follower-Moves term n = elim (dec_lt n.current_term term) [
    | yes h ↦ rw (lt→ltb _ _ h) (
        Moves-then n (persist_term env term none n) (step_down env)
          (persist_term-Moves term none n (inl h)) ballot-step_down)
    | no h ↦ rw (not_lt→ltb _ _ h) (BallotStep-of_eq (ballot-step_down n))
  ]

  ballot-settle_lead : (n : Node S) → ballot (settle_lead env n) ≡ ballot n
  unfolding settle_lead note_peer_contact ballot
  ballot-settle_lead n = refl

  ballot-assume_lead : (n : Node S) → ballot (assume_lead env n) ≡ ballot n
  unfolding assume_lead ballot
  ballot-assume_lead n = refl

  no_op : Proposal
  no_op = record { command = []; callback = none }

  pub become_leader-Moves : (n : Node S) → Moves n (state (become_leader env n))
  unfolding become_leader no_op
  become_leader-Moves n =
      Moves-then n (propose env no_op (assume_lead env n)) (settle_lead env)
        (BallotStep-of_eq (ballot-propose env no_op (assume_lead env n) ∙ ballot-assume_lead n))
        ballot-settle_lead

  ballot-enter_candidacy : (n : Node S) → ballot (enter_candidacy env n) ≡ ballot n
  unfolding enter_candidacy reset_election_timer ballot
  ballot-enter_candidacy n = refl

  pub stand-Moves : (n : Node S) → Moves n (state (stand env n))
  unfolding stand
  stand-Moves n =
      Moves-then n (persist_term env (n.current_term + 1) (some n.node_id) n) (enter_candidacy env)
        (persist_term-Moves _ _ n (inl (omega arith))) ballot-enter_candidacy

  pub ballot-emit : (p : ℕ) (m : Message) (n : Node S) → ballot (emit env p m n) ≡ ballot n
  ballot-emit p m n = ballot-core (emit env p m n) n (core-emit env p m n)

  ballot-emit_all : (m : Message) (n : Node S) → ballot (emit_all env m n) ≡ ballot n
  ballot-emit_all m n = ballot-core (emit_all env m n) n (core-emit_all env m n)

  campaign-Moves : (n : Node S) → Moves n (state (campaign env n))
  unfolding campaign
  campaign-Moves n = elim (Bool-cases (quorum_size n == 1)) [
    | inl e ↦ rw (e, campaign) (become_leader-Moves n)
    | inr e ↦ rw (e, campaign) (BallotStep-of_eq (ballot-emit_all _ n))
  ]

  pub become_candidate-Moves : (n : Node S) → Moves n (state (become_candidate env n))
  unfolding become_candidate
  become_candidate-Moves n = elim (Bool-cases (n.current_term == int32_max)) [
    | inl e ↦ rw (e, become_candidate) (BallotStep-refl (ballot n))
    | inr e ↦
        rw (e, become_candidate)
          (Moves-bind n (stand env n) (campaign env) (stand-Moves n) campaign-Moves)
  ]

  ballot-enter_pre : (n : Node S) → ballot (enter_pre_candidacy env n) ≡ ballot n
  unfolding enter_pre_candidacy reset_election_timer ballot
  ballot-enter_pre n = refl

  pub become_pre_candidate-Moves : (n : Node S) → Moves n (state (become_pre_candidate env n))
  unfolding become_pre_candidate
  become_pre_candidate-Moves n =
      let asked : ballot (emit_all env _ (enter_pre_candidacy env n)) ≡ ballot n =
        ballot-emit_all
          (vote_message env (enter_pre_candidacy env n)
            ((enter_pre_candidacy env n).current_term + 1) true)
          (enter_pre_candidacy env n)
        ∙ ballot-enter_pre n in
      grind (arith, become_candidate-Moves n, BallotStep-refl (ballot n), BallotStep-of_eq asked)

  pub check_quorum-Moves : (n : Node S) → Moves n (state (check_quorum env n))
  unfolding check_quorum
  check_quorum-Moves n =
      let m : Node S = note_peer_contact env n.node_id n in
      let same : ballot m ≡ ballot n = unfold note_peer_contact ballot in refl in
      grind (
        arith,
        BallotStep-of_eq same,
        BallotStep-trans (BallotStep-of_eq same) (become_follower-Moves m.current_term m),
      )

  pub start-Moves : (n : Node S) → Moves n (state (start env n))
  unfolding start
  start-Moves n =
      let m : Node S = record n { running = true } in
      let same : ballot m ≡ ballot n = unfold ballot in refl in
      Moves-bind n (become_follower env n.current_term m) (apply_committed env)
        (BallotStep-trans (BallotStep-of_eq same) (become_follower-Moves n.current_term m))
        (λ k. BallotStep-of_eq (ballot-apply_committed env k))

pub ballot-stop : {S : Type 0} (n : Node S) → ballot (stop n) ≡ ballot n
unfolding stop fail_pending clear_read_index_queues ballot
ballot-stop n = refl
