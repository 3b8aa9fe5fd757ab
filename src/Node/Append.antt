-- ===== src/Node/Append.antt =====
-- src/raft/raft_node.cc: HandleAppendEntries, HandleAppendEntriesResponse and ConflictIndex.
use raft_kv.Base.{
  ℕ, zero, suc, ◌+◌, ◌-◌, ◌/◌, min, max, pos, pos_part, is_negative, equals, Bool, true, false, not,
  ◌&&◌, ◌||◌, Option, none, some, List, [], ◌∷◌, ◌++◌, ltb, leb, ◌==◌, if◌then◌else◌, length,
  update, int64_max,
}
use raft_kv.Outcome.{Outcome, done, fault, ◌>>=◌, ok, err, replace_committed}
use raft_kv.Log.{Log, Entry, last_index, get_term, term_is, append_batch, truncate_suffix}
use raft_kv.Message.{WireEntry, AppendEntries, AppendEntriesResponse, append_entries_response}
use raft_kv.Node.State.{Node, Env, Inflight, append_flight, snapshot_flight, max_command_bytes}
use raft_kv.Node.Send.{no_flight, emit, send_append_entries, broadcast_append_entries}
use raft_kv.Node.Reads.{
  is_leader, finish_read_index_rounds, ack_read_index_probe, check_read_index_timeout,
}
use raft_kv.Node.Apply.{apply_committed, advance_commit_index}
use raft_kv.Node.Roles.{reset_election_timer, note_peer_contact, become_follower}
use raft_kv.Node.Votes.{is_remote_peer, is_follower_role}

-- The loop that checks the entries of a request: consecutive indices, terms that are positive, do
-- not fall and do not pass the request's, and commands within the limit. The entries it accepts.
unfoldable pub check_entries : ℕ → ℕ → ℕ → List WireEntry → Option (List Entry)
check_entries term previous_index previous_term [] = some []
check_entries term previous_index previous_term (e ∷ es) =
    let index = previous_index + 1 in
    let entry : Entry = record { index = index; term = pos_part e.term; command = e.command } in
    let rest = check_entries term index entry.term es in
    if not (equals e.index index)
      || entry.term == 0
      || ltb entry.term previous_term
      || ltb term entry.term
      || ltb max_command_bytes (length e.command)
    then none
    else elim rest [ none ↦ none | some tail ↦ some (entry ∷ tail) ]

-- A request that passed every test on its fields.
pub record Accepted : Type 0 where
  pub term : ℕ
  pub prev_log_index : ℕ
  pub prev_log_term : ℕ
  pub entries : List Entry
  pub leader_commit : ℕ
  pub rpc_id : ℕ

unfoldable pub accept_append : {S : Type 0} → Node S → ℕ → AppendEntries → Option Accepted
accept_append n from r =
    let term = pos_part r.term in
    let index = pos_part r.prev_log_index in
    let previous = pos_part r.prev_log_term in
    if not n.running
      || not (is_remote_peer n from)
      || not (equals r.leader_id from)
      || term == 0
      || r.rpc_id == 0
      || is_negative r.prev_log_index
      || is_negative r.prev_log_term
      || ltb term previous
      || is_negative r.leader_commit
      || ltb (int64_max - length r.entries) index
      || (index == 0 && not (previous == 0))
      || (not (index == 0) && previous == 0)
    then none
    else elim (check_entries term index previous r.entries) [
      | none ↦ none
      | some es ↦ some (record {
        term = term;
        prev_log_index = index;
        prev_log_term = previous;
        entries = es;
        leader_commit = pos_part r.leader_commit;
        rpc_id = r.rpc_id;
      })
    ]

-- The binary search of `ConflictIndex`: `high` has the term, `low` does not.
unfoldable pub search_term : ℕ → Log → ℕ → ℕ → ℕ → ℕ
search_term zero l term low high = high
search_term (suc fuel) l term low high =
    let mid = low + (high - low) / 2 in
    if leb (high - low) 1 then high else elim (term_is (get_term l mid) term) [
      | true ↦ search_term fuel l term low mid
      | false ↦ search_term fuel l term mid high
    ]

unfoldable pub conflict_index : Log → ℕ → ℕ
conflict_index l index = elim (get_term l index) [
  | none ↦ index
  | some zero ↦ index
  | some (suc t) ↦
      let snapshot = l.snapshot.index in
      let high = search_term index l (suc t) snapshot index in
      if high == snapshot + 1 && ltb 0 snapshot && l.snapshot.term == suc t then snapshot else high
]

-- The entry stands in the log under another term.
abbrev pub disagrees : Option ℕ → ℕ → Bool
disagrees none term = false
disagrees (some t) term = not (t == term)

module _ {S : Type 0} (env : Env S) where
  -- A disagreeing entry cuts the log from there, unless it is committed.
  unfoldable pub resolve_conflict : Entry → Node S → Outcome (Node S)
  resolve_conflict e n =
      if not (disagrees (get_term n.log e.index) e.term)
      then done n
      else if leb e.index n.commit_index
      then fault replace_committed n
      else elim (truncate_suffix env.disk_ok e.index n.log) [
        | err x ↦ fault x n
        | ok l ↦ done (record n { log = l })
      ]

  -- The loop over the entries, with the list `appended` so far; it ends in the durable append,
  -- whose failure marks the storage.
  unfoldable pub store_entries : List Entry → List Entry → Node S → Outcome (Node S)
  store_entries [] appended n = elim (append_batch env.disk_ok appended n.log) [
    | err x ↦ fault x (record n { storage_healthy = false })
    | ok l ↦ done (record n { log = l })
  ]
  store_entries (e ∷ es) appended n = resolve_conflict e n >>= λ n'.
      store_entries es (if ltb (last_index n'.log) e.index then appended ++ e ∷ [] else appended) n'

  unfoldable pub reply_append : ℕ → ℕ → Bool → ℕ → Node S → Node S
  reply_append from rpc success index n =
      emit env from
        (append_entries_response (record {
          term = pos n.current_term;
          success = success;
          last_log_index = pos index;
          rpc_id = rpc;
        }))
        n

  -- Commit what the leader has committed of the prefix that now matches.
  unfoldable pub commit_through : ℕ → ℕ → Node S → Outcome (Node S)
  commit_through leader_commit matched n =
      apply_committed env
        (record n { commit_index = max n.commit_index (min leader_commit matched) })

  -- The prefix matches: take the entries.
  unfoldable pub take_entries : ℕ → Accepted → Node S → Outcome (Node S)
  take_entries from r n =
      let matched = r.prev_log_index + length r.entries in
      store_entries r.entries [] n >>= commit_through r.leader_commit matched >>= λ n'.
      done (reply_append from r.rpc_id true matched n')

  -- The hint of a refusal: before the first index of the conflicting term, or the log's end.
  unfoldable pub refusal_index : Accepted → Log → ℕ
  refusal_index r l =
      if ltb (last_index l) r.prev_log_index
      then last_index l
      else elim (get_term l r.prev_log_index) [
        | none ↦ l.snapshot.index - 1
        | some zero ↦ l.snapshot.index - 1
        | some (suc t) ↦ conflict_index l r.prev_log_index - 1
      ]

  -- The request is of the current term.
  unfoldable pub follow_leader : ℕ → Accepted → Node S → Outcome (Node S)
  follow_leader from r n =
      let n' = reset_election_timer env (record n { leader_id = some from }) in
      if term_is (get_term n'.log r.prev_log_index) r.prev_log_term
      then take_entries from r n'
      else done (reply_append from r.rpc_id false (refusal_index r n'.log) n')

  -- A request of an older term is refused.
  unfoldable pub answer_in_term : ℕ → Accepted → Node S → Outcome (Node S)
  answer_in_term from r n =
      if r.term == n.current_term
      then follow_leader from r n
      else done (reply_append from r.rpc_id false (last_index n.log) n)

  unfoldable pub answer_append : ℕ → Accepted → Node S → Outcome (Node S)
  answer_append from r n =
      (if ltb n.current_term r.term || (r.term == n.current_term && not (is_follower_role n.role))
        then become_follower env r.term n
        else done n)
      >>= answer_in_term from r

  unfoldable pub handle_append_entries : ℕ → AppendEntries → Node S → Outcome (Node S)
  handle_append_entries from r n = elim (accept_append n from r) [
    | none ↦ done n
    | some accepted ↦ answer_append from accepted n
  ]

  -- A success: the peer's log matches through the end of the batch in flight.
  unfoldable pub record_match : ℕ → Inflight → Node S → Node S
  record_match from f n =
      let matched = max (n.match_index from) f.last_index in
      record n {
        inflight = update n.inflight from no_flight;
        match_index = update n.match_index from matched;
        next_index = update n.next_index from (matched + 1);
        lease_confirmed = elim f.flight_type [
          | append_flight ↦ update n.lease_confirmed from (some f.lease_sent_at)
          | snapshot_flight ↦ n.lease_confirmed
        ];
      }

  unfoldable pub broadcast_if : Bool → Node S → Outcome (Node S)
  broadcast_if b n = if b then broadcast_append_entries env n else done n

  unfoldable pub send_rest : ℕ → Node S → Outcome (Node S)
  send_rest from n =
      if leb (n.next_index from) (last_index n.log) then send_append_entries env from n else done n

  unfoldable pub take_progress : ℕ → Inflight → Node S → Outcome (Node S)
  take_progress from f n =
      advance_commit_index env (record_match from f n)
      >>= finish_read_index_rounds env
      >>= (λ m. broadcast_if (ltb n.commit_index m.commit_index) m)
      >>= send_rest from

  -- A refusal: back up to the hint, and never below what the peer is known to match.
  unfoldable pub rewind : ℕ → ℕ → Node S → Node S
  rewind from hint n = record n {
    inflight = update n.inflight from no_flight;
    next_index = update n.next_index from (
        max (n.match_index from + 1)
          (min (n.next_index from - 1) (if hint == int64_max then int64_max else hint + 1)));
  }

  unfoldable pub back_up : ℕ → ℕ → Node S → Outcome (Node S)
  back_up from hint n =
      finish_read_index_rounds env (rewind from hint n) >>= send_append_entries env from

  -- The response answers the RPC in flight.
  unfoldable pub correlates : AppendEntriesResponse → Inflight → Bool
  correlates r f =
      not (f.id == 0)
      && r.rpc_id == f.id
      && not (is_negative r.last_log_index)
      && not (r.success && not (equals r.last_log_index f.last_index))

  unfoldable pub note_response : ℕ → AppendEntriesResponse → Node S → Node S
  note_response from r n =
      let n' = check_read_index_timeout env (note_peer_contact env from n) in
      let f = n'.inflight from in
      if not (f.id == 0) && r.rpc_id == f.id then ack_read_index_probe env from f.id n' else n'

  unfoldable pub take_response : ℕ → AppendEntriesResponse → Node S → Outcome (Node S)
  take_response from r n =
      let f = n.inflight from in
      if not (correlates r f)
      then finish_read_index_rounds env n
      else if r.success
      then take_progress from f n
      else back_up from (pos_part r.last_log_index) n

  unfoldable pub handle_append_entries_response :
      ℕ → AppendEntriesResponse → Node S → Outcome (Node S)
  handle_append_entries_response from r n =
      if not n.running || not (is_remote_peer n from)
      then done n
      else if ltb n.current_term (pos_part r.term)
      then become_follower env (pos_part r.term) n
      else if not (is_leader n) || not (equals r.term n.current_term)
      then done n
      else take_response from r (note_response from r n)
