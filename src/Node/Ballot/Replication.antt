-- ===== src/Node/Ballot/Replication.antt =====
-- The replication handlers, the timer, and any history of events.
use raft_kv.Base.{
  ℕ, ◌+◌, ◌≡◌, refl, ◌∙◌, Bool, true, false, some, List, [], ◌∷◌, ◌++◌, arith, ltb, if◌then◌else◌,
  pos_part, min, max, length,
}
use raft_kv.Outcome.{done, ◌>>=◌, state}
use raft_kv.Log.{Entry, append_batch, truncate_suffix, last_index}
use raft_kv.Message.{AppendEntries, AppendEntriesResponse}
use raft_kv.Node.State.{Node, Env, Inflight}
use raft_kv.Node.Send.{send_append_entries}
use raft_kv.Node.Reads.{finish_read_index_rounds, check_read_index_timeout, ack_read_index_probe}
use raft_kv.Node.Apply.{advance_commit_index}
use raft_kv.Node.Roles.{reset_election_timer, note_peer_contact}
use raft_kv.Node.Append.{
  Accepted, handle_append_entries, handle_append_entries_response, answer_append, follow_leader,
  take_entries, store_entries, resolve_conflict, reply_append, take_progress, back_up,
  take_response, note_response, commit_through, answer_in_term, rewind, record_match, broadcast_if,
  send_rest,
}
use raft_kv.Node.Core.{core-send_append_entries, core-finish_rounds, core-timeout, core-ack_probe}
use raft_kv.Node.Ballot.Keeps.{
  ballot, ballot-core, ballot-apply_committed, ballot-advance, ballot-bind, ballot-broadcast,
}
use raft_kv.Node.Ballot.Steps.{
  BallotStep-refl, BallotStep-of_eq, Moves, become_follower-Moves, ballot-emit,
}
use raft_kv.Node.Ballot.Handlers.{raise_term-Moves}

module _ {S : Type 0} (env : Env S) where
  ballot-resolve_conflict :
      (e : Entry) (n : Node S) → ballot (state (resolve_conflict env e n)) ≡ ballot n
  unfolding resolve_conflict truncate_suffix ballot
  ballot-resolve_conflict e n = ground arith

  ballot-store_entries :
      (es appended : List Entry) (n : Node S)
      → ballot (state (store_entries env es appended n)) ≡ ballot n
  unfolding store_entries
  ballot-store_entries [] [] n = unfold append_batch ballot in refl
  ballot-store_entries [] (a ∷ more) n = unfold append_batch ballot in ground arith
  ballot-store_entries (e ∷ es) appended n =
      ballot-bind env n (resolve_conflict env e n)
        (λ m.
          store_entries env es
            (if ltb (last_index m.log) e.index then appended ++ e ∷ [] else appended) m)
        (ballot-resolve_conflict e n)
        (λ m.
          ballot-store_entries es
            (if ltb (last_index m.log) e.index then appended ++ e ∷ [] else appended) m)

  ballot-reply_append :
      (from rpc : ℕ) (success : Bool) (i : ℕ) (n : Node S)
      → ballot (reply_append env from rpc success i n) ≡ ballot n
  unfolding reply_append
  ballot-reply_append from rpc success i n = ballot-emit env from _ n

  ballot-commit : (k : ℕ) (n : Node S) → ballot (record n { commit_index = k }) ≡ ballot n
  unfolding ballot
  ballot-commit k n = refl

  ballot-commit_through :
      (c matched : ℕ) (n : Node S) → ballot (state (commit_through env c matched n)) ≡ ballot n
  unfolding commit_through
  ballot-commit_through c matched n =
      let k = max n.commit_index (min c matched) in
      ballot-apply_committed env (record n { commit_index = k }) ∙ ballot-commit k n

  ballot-take_entries :
      (from : ℕ) (r : Accepted) (n : Node S) → ballot (state (take_entries env from r n)) ≡ ballot n
  unfolding take_entries
  ballot-take_entries from r n =
      let matched = r.prev_log_index + length r.entries in
      let commit = commit_through env r.leader_commit matched in
      ballot-bind env n (store_entries env r.entries [] n >>= commit)
        (λ m. done (reply_append env from r.rpc_id true matched m))
        (ballot-bind env n (store_entries env r.entries [] n) commit
          (ballot-store_entries r.entries [] n) (ballot-commit_through r.leader_commit matched))
        (ballot-reply_append from r.rpc_id true matched)

  ballot-follow_leader :
      (from : ℕ) (r : Accepted) (n : Node S)
      → ballot (state (follow_leader env from r n)) ≡ ballot n
  unfolding follow_leader
  ballot-follow_leader from r n =
      let m : Node S = reset_election_timer env (record n { leader_id = some from }) in
      let same : ballot m ≡ ballot n = unfold reset_election_timer ballot in refl in
      grind (
        arith,
        ballot-take_entries from r m ∙ same,
        λ (i : ℕ). ballot-reply_append from r.rpc_id false i m ∙ same,
      )

  ballot-answer_in_term :
      (from : ℕ) (r : Accepted) (n : Node S)
      → ballot (state (answer_in_term env from r n)) ≡ ballot n
  unfolding answer_in_term
  ballot-answer_in_term from r n = ground (
    arith,
    ballot-follow_leader from r n,
    ballot-reply_append from r.rpc_id false (last_index n.log) n,
  )

  answer_append-Moves :
      (from : ℕ) (r : Accepted) (n : Node S) → Moves n (state (answer_append env from r n))
  unfolding answer_append
  answer_append-Moves from r n =
      raise_term-Moves env _ r.term n (answer_in_term env from r)
        (λ m. BallotStep-of_eq (ballot-answer_in_term from r m))

  pub handle_append_entries-Moves :
      (from : ℕ) (r : AppendEntries) (n : Node S)
      → Moves n (state (handle_append_entries env from r n))
  unfolding handle_append_entries
  handle_append_entries-Moves from r n =
      grind (arith, BallotStep-refl (ballot n), λ (a : Accepted). answer_append-Moves from a n)

  pub ballot-send : (p : ℕ) (n : Node S) → ballot (state (send_append_entries env p n)) ≡ ballot n
  ballot-send p n = ballot-core _ n (core-send_append_entries env p n)

  ballot-finish_rounds : (n : Node S) → ballot (state (finish_read_index_rounds env n)) ≡ ballot n
  ballot-finish_rounds n = ballot-core _ n (core-finish_rounds env n)

  ballot-record_match :
      (from : ℕ) (f : Inflight) (n : Node S) → ballot (record_match env from f n) ≡ ballot n
  unfolding record_match ballot
  ballot-record_match from f n = refl

  ballot-broadcast_if : (b : Bool) (n : Node S) → ballot (state (broadcast_if env b n)) ≡ ballot n
  unfolding broadcast_if
  ballot-broadcast_if true n = ballot-broadcast env n
  ballot-broadcast_if false n = refl

  pub ballot-send_rest : (from : ℕ) (n : Node S) → ballot (state (send_rest env from n)) ≡ ballot n
  unfolding send_rest
  ballot-send_rest from n = ground (arith, ballot-send from n)

  ballot-take_progress :
      (from : ℕ) (f : Inflight) (n : Node S)
      → ballot (state (take_progress env from f n)) ≡ ballot n
  unfolding take_progress
  ballot-take_progress from f n =
      let m = record_match env from f n in
      ballot-bind env n
        (advance_commit_index env m
          >>= finish_read_index_rounds env
          >>= (λ k. broadcast_if env (ltb n.commit_index k.commit_index) k))
        (send_rest env from)
        (ballot-bind env n (advance_commit_index env m >>= finish_read_index_rounds env)
          (λ k. broadcast_if env (ltb n.commit_index k.commit_index) k)
          (ballot-bind env n (advance_commit_index env m) (finish_read_index_rounds env)
            (ballot-advance env m ∙ ballot-record_match from f n) ballot-finish_rounds)
          (λ k. ballot-broadcast_if (ltb n.commit_index k.commit_index) k))
        (ballot-send_rest from)

  ballot-rewind : (from hint : ℕ) (n : Node S) → ballot (rewind env from hint n) ≡ ballot n
  unfolding rewind ballot
  ballot-rewind from hint n = refl

  ballot-back_up :
      (from hint : ℕ) (n : Node S) → ballot (state (back_up env from hint n)) ≡ ballot n
  unfolding back_up
  ballot-back_up from hint n =
      let m = rewind env from hint n in
      ballot-bind env n (finish_read_index_rounds env m) (send_append_entries env from)
        (ballot-finish_rounds m ∙ ballot-rewind from hint n) (ballot-send from)

  ballot-take_response :
      (from : ℕ) (r : AppendEntriesResponse) (n : Node S)
      → ballot (state (take_response env from r n)) ≡ ballot n
  unfolding take_response
  ballot-take_response from r n = ground (
    arith,
    ballot-finish_rounds n,
    ballot-take_progress from (n.inflight from) n,
    ballot-back_up from (pos_part r.last_log_index) n,
  )

  pub ballot-contact : (p : ℕ) (n : Node S) → ballot (note_peer_contact env p n) ≡ ballot n
  unfolding note_peer_contact ballot
  ballot-contact p n = refl

  ballot-note_response :
      (from : ℕ) (r : AppendEntriesResponse) (n : Node S)
      → ballot (note_response env from r n) ≡ ballot n
  unfolding note_response
  ballot-note_response from r n =
      let m = check_read_index_timeout env (note_peer_contact env from n) in
      let same : ballot m ≡ ballot n =
        ballot-core m (note_peer_contact env from n)
          (core-timeout env (note_peer_contact env from n))
        ∙ ballot-contact from n in
      grind (
        arith,
        same,
        λ (rpc : ℕ).
            ballot-core (ack_read_index_probe env from rpc m) m (core-ack_probe env from rpc m)
            ∙ same,
      )

  pub handle_append_entries_response-Moves :
      (from : ℕ) (r : AppendEntriesResponse) (n : Node S)
      → Moves n (state (handle_append_entries_response env from r n))
  unfolding handle_append_entries_response
  handle_append_entries_response-Moves from r n = grind (
    arith,
    BallotStep-refl (ballot n),
    become_follower-Moves env (pos_part r.term) n,
    BallotStep-of_eq
        (ballot-take_response from r (note_response env from r n) ∙ ballot-note_response from r n),
  )
