-- ===== src/Node/Snapshots.antt =====
-- src/raft/raft_node.cc: HandleInstallSnapshot, HandleInstallSnapshotResponse, and the setters of
-- the snapshot limits.
use raft_kv.Base.{
  ℕ, ◌+◌, ◌-◌, ◌/◌, ◌*◌, max, pos, pos_part, is_negative, equals, Bool, true, false, not, ◌&&◌,
  ◌||◌, Option, none, some, [], ◌++◌, Bytes, ltb, leb, ◌==◌, if◌then◌else◌, length, update,
}
use raft_kv.Outcome.{Outcome, done, fault, ◌>>=◌, ok, err, state_machine_failure, invalid_argument}
use raft_kv.Log.{Log, Snapshot, max_snapshot_bytes, stage_snapshot_install, install_snapshot}
use raft_kv.Message.{InstallSnapshot, InstallSnapshotResponse, install_snapshot_response}
use raft_kv.Node.State.{Node, Env, Inflight}
use raft_kv.Node.Send.{no_flight, emit, send_snapshot_chunk}
use raft_kv.Node.Reads.{is_leader}
use raft_kv.Node.Roles.{reset_election_timer, note_peer_contact, become_follower}
use raft_kv.Node.Votes.{is_remote_peer}
use raft_kv.Node.Append.{send_rest}

-- A request that passed every test on its fields.
pub record Chunk : Type 0 where
  pub term : ℕ
  pub index : ℕ
  pub index_term : ℕ
  pub offset : ℕ
  pub bytes : Bytes
  pub is_last : Bool
  pub rpc_id : ℕ

unfoldable pub accept_chunk : {S : Type 0} → Node S → ℕ → InstallSnapshot → Option Chunk
accept_chunk n from r =
    let term = pos_part r.term in
    let index = pos_part r.last_included_index in
    let index_term = pos_part r.last_included_term in
    if not n.running
      || not (is_remote_peer n from)
      || not (equals r.leader_id from)
      || term == 0
      || r.rpc_id == 0
      || index == 0
      || index_term == 0
      || ltb term index_term
      || is_negative r.offset
      || ltb max_snapshot_bytes (length r.bytes)
    then none
    else some (record {
      term = term;
      index = index;
      index_term = index_term;
      offset = pos_part r.offset;
      bytes = r.bytes;
      is_last = r.is_last;
      rpc_id = r.rpc_id;
    })

-- What was received before this chunk: a chunk at offset 0 starts afresh.
unfoldable pub received_before : Chunk → Option Snapshot → Option Snapshot
received_before c held =
    if c.offset == 0
    then some (record { index = c.index; term = c.index_term; bytes = [] })
    else held

-- The chunk continues what was received: the snapshot with the chunk added.
unfoldable pub continue_with : Chunk → Option Snapshot → Option Snapshot
continue_with c none = none
continue_with c (some held) =
    if held.index == c.index && held.term == c.index_term && c.offset == length held.bytes
    then some (record held { bytes = held.bytes ++ c.bytes })
    else none

module _ {S : Type 0} (env : Env S) where
  unfoldable pub reply_chunk : ℕ → ℕ → Bool → Bool → Node S → Node S
  reply_chunk from rpc success complete n =
      emit env from
        (install_snapshot_response (record {
          term = pos n.current_term;
          success = success;
          complete = complete;
          rpc_id = rpc;
        }))
        n

  -- The intent is durable: the state machine is replaced, and the log's metadata follows.
  unfoldable pub replace_machine : Snapshot → Log → Node S → Outcome (Node S)
  replace_machine s staged n = elim (env.replace_all n.machine s.index s.bytes) [
    | none ↦ fault state_machine_failure (record n { log = staged })
    | some m ↦ elim (install_snapshot env.disk_ok s staged) [
      | err e ↦ fault e (record n { log = staged; machine = m })
      | ok l ↦ done (record n {
        machine = m;
        log = l;
        last_applied = s.index;
        commit_index = max n.commit_index s.index;
        snapshot_receive = none;
      })
    ]
  ]

  -- The state machine validates the bytes, and the log records the intent before anything changes.
  unfoldable pub complete_install : Snapshot → Node S → Outcome (Node S)
  complete_install s n =
      if not (env.valid_snapshot n.machine s.index s.bytes)
      then fault state_machine_failure n
      else elim (stage_snapshot_install env.disk_ok s n.log) [
        | err e ↦ fault e n
        | ok staged ↦ replace_machine s staged n
      ]

  -- The snapshot with this chunk, if it fits, is kept or installed.
  unfoldable pub take_chunk : ℕ → Chunk → Node S → Outcome (Node S)
  take_chunk from c n = elim (continue_with c (received_before c n.snapshot_receive)) [
    | none ↦ done (reply_chunk from c.rpc_id false false (record n { snapshot_receive = none }))
    | some s ↦
        if ltb max_snapshot_bytes (length s.bytes)
        then done (reply_chunk from c.rpc_id false false (record n { snapshot_receive = none }))
        else if not c.is_last
        then done (reply_chunk from c.rpc_id true false (record n { snapshot_receive = some s }))
        else complete_install s (record n { snapshot_receive = some s }) >>= λ n'.
            done (reply_chunk from c.rpc_id true true n')
  ]

  unfoldable pub answer_chunk : ℕ → Chunk → Node S → Outcome (Node S)
  answer_chunk from c n =
      let n' = reset_election_timer env (record n { leader_id = some from }) in
      if not (c.term == n.current_term)
      then done (reply_chunk from c.rpc_id false false n)
      else if leb c.index n'.last_applied
      then done (reply_chunk from c.rpc_id true true (record n' { snapshot_receive = none }))
      else elim n'.apply_inflight [
        | some job ↦ done (reply_chunk from c.rpc_id false false n')
        | none ↦
            if ltb (max_snapshot_bytes - length c.bytes) c.offset
            then done
                (reply_chunk from c.rpc_id false false (record n' { snapshot_receive = none }))
            else take_chunk from c n'
      ]

  unfoldable pub handle_install_snapshot : ℕ → InstallSnapshot → Node S → Outcome (Node S)
  handle_install_snapshot from r n = elim (accept_chunk n from r) [
    | none ↦ done n
    | some c ↦
        (if ltb n.current_term c.term then become_follower env c.term n else done n)
        >>= answer_chunk from c
  ]

  -- The next offset after an answer: back to 0 on a refusal or past the end, else one chunk on.
  unfoldable pub next_offset : Bool → Inflight → ℕ
  next_offset success f =
      if not success || leb (length f.snapshot_bytes) (f.snapshot_offset + f.snapshot_chunk)
      then 0
      else f.snapshot_offset + f.snapshot_chunk

  unfoldable pub seek_chunk : ℕ → ℕ → Node S → Node S
  seek_chunk from offset n = record n {
    inflight = update n.inflight from (record (n.inflight from) { snapshot_offset = offset });
  }

  unfoldable pub send_next_chunk : ℕ → ℕ → Node S → Outcome (Node S)
  send_next_chunk from offset n = send_snapshot_chunk env from (seek_chunk from offset n)

  unfoldable pub record_installed : ℕ → Node S → Node S
  record_installed from n =
      let matched = max (n.match_index from) (n.inflight from).snapshot_index in
      record n {
        inflight = update n.inflight from no_flight;
        match_index = update n.match_index from matched;
        next_index = update n.next_index from (matched + 1);
      }

  -- The peer holds the whole snapshot.
  unfoldable pub snapshot_installed : ℕ → Node S → Outcome (Node S)
  snapshot_installed from n = send_rest env from (record_installed from n)

  unfoldable pub take_chunk_response : ℕ → InstallSnapshotResponse → Node S → Outcome (Node S)
  take_chunk_response from r n =
      let f = n.inflight from in
      if not f.snapshot || f.id == 0 || not (r.rpc_id == f.id)
      then done n
      else if r.success && r.complete
      then snapshot_installed from n
      else send_next_chunk from (next_offset r.success f) n

  unfoldable pub handle_install_snapshot_response :
      ℕ → InstallSnapshotResponse → Node S → Outcome (Node S)
  handle_install_snapshot_response from r n =
      if not n.running || not (is_remote_peer n from)
      then done n
      else if ltb n.current_term (pos_part r.term)
      then become_follower env (pos_part r.term) n
      else if not (is_leader n) || not (equals r.term n.current_term)
      then done n
      else take_chunk_response from r (note_peer_contact env from n)

module _ {S : Type 0} where
  unfoldable pub set_snapshot_threshold : ℕ → Node S → Node S
  set_snapshot_threshold entries n = record n {
    snapshot_threshold = entries;
    last_snapshot_attempt = n.log.snapshot.index;
  }

  unfoldable pub set_snapshot_chunk_bytes : ℕ → Node S → Outcome (Node S)
  set_snapshot_chunk_bytes bytes n =
      if bytes == 0 || ltb (10 * 1024 * 1024 / 2) bytes
      then fault invalid_argument n
      else done (record n { snapshot_chunk_bytes = bytes })
