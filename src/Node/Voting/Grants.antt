-- ===== src/Node/Voting/Grants.antt =====
-- HandleRequestVote: a granted vote.
use raft_kv.Base.{
  ℕ, ◌≡◌, refl, sym, ap, ◌∙◌, Bool, true, false, not, ◌&&◌, ◌||◌, Option, none, some, List, [], ◌∷◌,
  ◌++◌, arith, pos, pos_part, ltb, ◌==◌, if◌then◌else◌, inl, inr, Bool-cases,
}
use raft_kv.Outcome.{done, ◌>>=◌, >>=-eq-done}
use raft_kv.Log.{Log, save_hard_state}
use raft_kv.Message.{RequestVote, request_vote_response}
use raft_kv.Node.State.{Node, Env, Output, sent, Pending, ReadRequest, Reason}
use raft_kv.Node.Send.{emit}
use raft_kv.Node.Reads.{clear_read_index_queues, fail_reads, requests_of}
use raft_kv.Node.Propose.{fail_pending, fail_each, fail_callback}
use raft_kv.Node.Roles.{reset_election_timer, persist_term, step_down, become_follower}
use raft_kv.Node.Votes.{
  handle_request_vote, answer_vote_request, cast_vote, reply_vote, grants_vote, grants_prevote,
  is_sticky, is_log_up_to_date,
}

-- A vote for p, not a pre-vote, was sent.
abbrev pub is_grant : ℕ → Output → Bool
is_grant p (sent q (request_vote_response r)) = q == p && r.vote_granted && not r.prevote
is_grant p _ = false

abbrev pub has_grant : ℕ → List Output → Bool
has_grant p [] = false
has_grant p (o ∷ os) = is_grant p o || has_grant p os

quiet-append :
    (p : ℕ) (xs ys : List Output) → has_grant p ys ≡ false → has_grant p (xs ++ ys) ≡ has_grant p xs
quiet-append p [] ys h = h
quiet-append p (x ∷ xs) ys h = ap (λ b. is_grant p x || b) (quiet-append p xs ys h)

has_grant-callback :
    (p : ℕ) (why : Reason) (c : Option ℕ) (os : List Output)
    → has_grant p (fail_callback why c ++ os) ≡ has_grant p os
has_grant-callback p why none os = refl
has_grant-callback p why (some c) os = refl

has_grant-fail_each :
    (p : ℕ) (why : Reason) (ps : List Pending) → has_grant p (fail_each why ps) ≡ false
has_grant-fail_each p why [] = refl
has_grant-fail_each p why (x ∷ xs) =
    has_grant-callback p why x.callback (fail_each why xs) ∙ has_grant-fail_each p why xs

has_grant-fail_reads :
    (p : ℕ) (why : Reason) (qs : List ReadRequest) → has_grant p (fail_reads why qs) ≡ false
has_grant-fail_reads p why [] = refl
has_grant-fail_reads p why (q ∷ qs) = has_grant-fail_reads p why qs

module _ {S : Type 0} (env : Env S) where
  has_grant-step_down :
      (p : ℕ) (n : Node S) → has_grant p (step_down env n).outbox ≡ has_grant p n.outbox
  unfolding step_down clear_read_index_queues fail_pending reset_election_timer
  has_grant-step_down p n =
      let a = fail_each Reason.leadership_lost n.pending in
      let b = fail_reads Reason.leadership_lost (requests_of n.rounds) in
      let c = fail_reads Reason.leadership_lost n.unsent_reads in
      let d = fail_reads Reason.leadership_lost n.pending_reads in
      quiet-append p (n.outbox ++ a ++ b ++ c) d
        (has_grant-fail_reads p Reason.leadership_lost n.pending_reads)
      ∙ quiet-append p (n.outbox ++ a ++ b) c
          (has_grant-fail_reads p Reason.leadership_lost n.unsent_reads)
      ∙ quiet-append p (n.outbox ++ a) b
          (has_grant-fail_reads p Reason.leadership_lost (requests_of n.rounds))
      ∙ quiet-append p n.outbox a (has_grant-fail_each p Reason.leadership_lost n.pending)

  step_down-term : (n : Node S) → (step_down env n).current_term ≡ n.current_term
  unfolding step_down clear_read_index_queues fail_pending reset_election_timer
  step_down-term n = refl

  step_down-log : (n : Node S) → (step_down env n).log ≡ n.log
  unfolding step_down clear_read_index_queues fail_pending reset_election_timer
  step_down-log n = refl

  -- Raising the term grants no vote and writes no entry.
  raised :
      (p term : ℕ) (n m : Node S)
      → become_follower env term n ≡ done m
      → (has_grant p m.outbox ≡ has_grant p n.outbox)
        × (m.log.snapshot ≡ n.log.snapshot)
        × (m.log.entries ≡ n.log.entries)
  unfolding become_follower persist_term save_hard_state
  raised p term n m h =
      let (k, first, last) =
        >>=-eq-done (if ltb n.current_term term then persist_term env term none n else done n)
          (λ k. done (step_down env k)) h in
      let same : m ≡ step_down env k = ground arith in
      let earlier : (k.outbox ≡ n.outbox)
          × (k.log.snapshot ≡ n.log.snapshot)
          × (k.log.entries ≡ n.log.entries) =
        ground arith in
      rw same (
        has_grant-step_down p k ∙ ap (has_grant p) earlier.0,
        ap (λ (l : Log). l.snapshot) (step_down-log k) ∙ earlier.1,
        ap (λ (l : Log). l.entries) (step_down-log k) ∙ earlier.2,
      )

  cast_vote-grant :
      (from : ℕ) (r : RequestVote) (n m : Node S)
      → cast_vote env from r n ≡ done m
      → has_grant from n.outbox ≡ false
      → has_grant from m.outbox ≡ true
      → (m.voted_for ≡ some from)
        × (m.log.hard ≡ record { term = m.current_term; voted_for = some from })
        × (m.current_term ≡ pos_part r.term)
        × (is_log_up_to_date n.log (pos_part r.last_log_index) (pos_part r.last_log_term) ≡ true)
  unfolding cast_vote grants_vote persist_term save_hard_state reply_vote emit reset_election_timer
  cast_vote-grant from r n m h before after = ground (
    arith,
    quiet-append from n.outbox (
        sent from (
          request_vote_response
            (record { term = pos n.current_term; vote_granted = false; prevote = false }))
        ∷ []),
  )

  up_to_date-same :
      (k l : Log) (i j : ℕ)
      → k.snapshot ≡ l.snapshot
      → k.entries ≡ l.entries
      → is_log_up_to_date k i j ≡ is_log_up_to_date l i j
  unfolding is_log_up_to_date
  up_to_date-same k l i j e f = rw (e, f) refl

  raise_then_cast-grant :
      (from : ℕ) (r : RequestVote) (n m : Node S)
      → ((if ltb n.current_term (pos_part r.term)
            then become_follower env (pos_part r.term) n
            else done n)
          >>= cast_vote env from r)
        ≡ done m
      → has_grant from n.outbox ≡ false
      → has_grant from m.outbox ≡ true
      → (m.voted_for ≡ some from)
        × (m.log.hard ≡ record { term = m.current_term; voted_for = some from })
        × (m.current_term ≡ pos_part r.term)
        × (is_log_up_to_date n.log (pos_part r.last_log_index) (pos_part r.last_log_term) ≡ true)
  raise_then_cast-grant from r n m h before after =
      let start =
        if ltb n.current_term (pos_part r.term)
        then become_follower env (pos_part r.term) n
        else done n in
      let (k, first, last) = >>=-eq-done start (cast_vote env from r) h in
      let same : (has_grant from k.outbox ≡ has_grant from n.outbox)
          × (k.log.snapshot ≡ n.log.snapshot)
          × (k.log.entries ≡ n.log.entries) =
        ground (arith, raised from (pos_part r.term) n k) in
      let (vote, hard, term, fresh) = cast_vote-grant from r k m last (same.0 ∙ before) after in
      (
        vote,
        hard,
        term,
        sym (
              up_to_date-same k.log n.log (pos_part r.last_log_index) (pos_part r.last_log_term)
                same.1 same.2)
            ∙ fresh,
      )

  reply_vote-quiet :
      (from : ℕ) (prevote granted : Bool) (n : Node S)
      → (granted && not prevote) ≡ false
      → has_grant from (reply_vote env from prevote granted n).outbox ≡ has_grant from n.outbox
  unfolding reply_vote emit
  reply_vote-quiet from prevote granted n h = elim (Bool-cases (env.link from)) [
    | inr e ↦ rw e refl
    | inl e ↦ rw e (
        quiet-append from n.outbox
          (sent from (
              request_vote_response
                (record { term = pos n.current_term; vote_granted = granted; prevote = prevote }))
            ∷ [])
          (ground arith))
  ]

  -- A vote that leaves a node in answer to a request is the node's vote of that term, in memory and
  -- on disk; the candidate's log is up to date with its own, the term did not fall, and no other
  -- leader was heard from within the election timeout.
  pub handle_request_vote-grant :
      (from : ℕ) (r : RequestVote) (n m : Node S)
      → handle_request_vote env from r n ≡ done m
      → has_grant from n.outbox ≡ false
      → has_grant from m.outbox ≡ true
      → (m.voted_for ≡ some from)
        × (m.log.hard ≡ record { term = m.current_term; voted_for = some from })
        × (m.current_term ≡ pos_part r.term)
        × (is_log_up_to_date n.log (pos_part r.last_log_index) (pos_part r.last_log_term) ≡ true)
        × (is_sticky env from n ≡ false)
  unfolding handle_request_vote answer_vote_request
  handle_request_vote-grant from r n m h before after =
      let (cast, free) : (((if ltb n.current_term (pos_part r.term)
                then become_follower env (pos_part r.term) n
                else done n)
              >>= cast_vote env from r)
            ≡ done m)
          × (is_sticky env from n ≡ false) =
        grind (
          arith,
          reply_vote-quiet from r.prevote false n,
          reply_vote-quiet from r.prevote (grants_prevote env r n) n,
        ) in
      let (vote, hard, term, fresh) = raise_then_cast-grant from r n m cast before after in
      (vote, hard, term, fresh, free)
