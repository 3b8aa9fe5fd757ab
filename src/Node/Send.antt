-- ===== src/Node/Send.antt =====
-- src/raft/raft_node.cc: SendAppendEntries, SendSnapshotChunk, BroadcastAppendEntries and
-- BindReadIndexProbe.
use raft_kv.Base.{
  ℕ, zero, suc, ◌+◌, ◌-◌, min, Bool, true, false, not, ◌&&◌, ◌||◌, none, some, List, [], ◌∷◌, ◌++◌,
  map, pos, or_minus_one, ltb, leb, ◌==◌, if◌then◌else◌, length, take, drop, update, uint64_max,
}
use raft_kv.Outcome.{
  Outcome, done, fault, ◌>>=◌, Result, ok, err, missing_entry, oversized_entry, rpc_exhausted,
  send_offset,
}
use raft_kv.Log.{Log, Entry, last_index, get, get_term}
use raft_kv.Message.{Message, WireEntry, append_entries, install_snapshot}
use raft_kv.Node.State.{
  Node, Env, Inflight, Round, sent, append_flight, snapshot_flight, rpc_retry_ms, max_batch_bytes,
  max_batch_entries,
}

-- `Inflight{}`.
abbrev pub no_flight : Inflight
no_flight = record {
  id = 0;
  last_index = 0;
  elapsed_ms = 0;
  entries = 0;
  lease_sent_at = 0;
  payload = none;
  flight_type = append_flight;
  snapshot = false;
  snapshot_offset = 0;
  snapshot_chunk = 0;
  snapshot_index = 0;
  snapshot_term = 0;
  snapshot_bytes = [];
}

abbrev pub to_wire : Entry → WireEntry
to_wire e = record { index = pos e.index; term = pos e.term; command = e.command }

-- Whether a peer has a probe of the round.
abbrev pub has_probe : ℕ → List (ℕ × ℕ) → Bool
has_probe p [] = false
has_probe p ((q, r) ∷ probes) = q == p || has_probe p probes

-- The first unconfirmed round that has no probe of the peer takes the RPC as one.
unfoldable pub bind_read_index_probe : ℕ → ℕ → List Round → List Round
bind_read_index_probe peer rpc [] = []
bind_read_index_probe peer rpc (r ∷ rs) =
    if r.confirmed || has_probe peer r.probe_rpc_ids
    then r ∷ bind_read_index_probe peer rpc rs
    else record r { probe_rpc_ids = (peer, rpc) ∷ r.probe_rpc_ids } ∷ rs

-- The batch loop of `SendAppendEntries`, over the rounds left up to the last index.
unfoldable pub collect_batch : (Entry → ℕ) → Log → ℕ → ℕ → ℕ → ℕ → Result (List Entry)
collect_batch entry_size l zero index count bytes = ok []
collect_batch entry_size l (suc left) index count bytes = elim (get l index) [
  | none ↦ err missing_entry
  | some e ↦
      let size = entry_size e + 16 in
      let rest = collect_batch entry_size l left (index + 1) (count + 1) (bytes + size) in
      if ltb (max_batch_bytes - 128) size
      then err oversized_entry
      else if leb max_batch_entries count || ltb (max_batch_bytes - bytes) size
      then ok []
      else elim rest [ ok es ↦ ok (e ∷ es) | err x ↦ err x ]
]

module _ {S : Type 0} (env : Env S) where
  -- `PeerManager::Send`: the transport takes the message or refuses it.
  unfoldable pub emit : ℕ → Message → Node S → Node S
  emit peer m n = if env.link peer then record n { outbox = n.outbox ++ sent peer m ∷ [] } else n

  -- `PeerManager::Broadcast`.
  unfoldable pub emit_each : List ℕ → Message → Node S → Node S
  emit_each [] m n = n
  emit_each (p ∷ ps) m n = emit_each ps m (if p == n.node_id then n else emit p m n)

  unfoldable pub emit_all : Message → Node S → Node S
  emit_all m n = emit_each n.peers m n

  unfoldable pub snapshot_message : Node S → Inflight → ℕ → ℕ → Message
  snapshot_message n f chunk rpc = install_snapshot (record {
    term = pos n.current_term;
    leader_id = pos n.node_id;
    last_included_index = pos f.snapshot_index;
    last_included_term = pos f.snapshot_term;
    offset = pos f.snapshot_offset;
    bytes = take chunk (drop f.snapshot_offset f.snapshot_bytes);
    is_last = f.snapshot_offset + chunk == length f.snapshot_bytes;
    rpc_id = rpc;
  })

  unfoldable pub send_snapshot_chunk : ℕ → Node S → Outcome (Node S)
  send_snapshot_chunk peer n =
      let f = n.inflight peer in
      let chunk = min n.snapshot_chunk_bytes (length f.snapshot_bytes - f.snapshot_offset) in
      let rpc = n.rpc_sequence + 1 in
      let m = snapshot_message n f chunk rpc in
      if ltb (length f.snapshot_bytes) f.snapshot_offset
      then fault send_offset n
      else if n.rpc_sequence == uint64_max
      then fault rpc_exhausted n
      else done (
          emit peer m (record n {
            rpc_sequence = rpc;
            inflight = update n.inflight peer (record f {
              id = if env.link peer then rpc else 0;
              snapshot_chunk = chunk;
              last_index = f.snapshot_index;
              entries = 0;
              elapsed_ms = 0;
              flight_type = snapshot_flight;
              payload = some m;
            });
          }))

  -- An RPC is in flight: send its bytes once more when the retry time has passed.
  unfoldable pub retry_flight : ℕ → Node S → Node S
  retry_flight peer n =
      let f = n.inflight peer in
      if leb rpc_retry_ms f.elapsed_ms && env.link peer
      then elim f.payload [
        | none ↦ n
        | some m ↦
            emit peer m
              (record n { inflight = update n.inflight peer (record f { elapsed_ms = 0 }) })
      ]
      else n

  -- The peer's next entry is compacted: start on the snapshot.
  unfoldable pub start_snapshot : ℕ → Node S → Outcome (Node S)
  start_snapshot peer n = send_snapshot_chunk peer (record n {
    inflight = update n.inflight peer (record (n.inflight peer) {
      snapshot = true;
      snapshot_bytes = n.log.snapshot.bytes;
      snapshot_index = n.log.snapshot.index;
      snapshot_term = n.log.snapshot.term;
      snapshot_offset = 0;
    });
  })

  unfoldable pub append_message : Node S → ℕ → List Entry → ℕ → Message
  append_message n previous es rpc = append_entries (record {
    term = pos n.current_term;
    leader_id = pos n.node_id;
    prev_log_index = pos previous;
    prev_log_term = or_minus_one (get_term n.log previous);
    entries = map to_wire es;
    leader_commit = pos n.commit_index;
    rpc_id = rpc;
  })

  -- The batch is put in flight if the transport takes it.
  unfoldable pub launch_batch : ℕ → List Entry → Node S → Node S
  launch_batch peer es n =
      let previous = n.next_index peer - 1 in
      let m = append_message n previous es n.rpc_sequence in
      if not (env.link peer) then n else record n {
        outbox = n.outbox ++ sent peer m ∷ [];
        inflight = update n.inflight peer (record (n.inflight peer) {
          id = n.rpc_sequence;
          last_index = previous + length es;
          elapsed_ms = 0;
          entries = length es;
          flight_type = append_flight;
          snapshot = false;
          payload = some m;
          lease_sent_at = env.now;
        });
        rounds = bind_read_index_probe peer n.rpc_sequence n.rounds;
      }

  unfoldable pub send_batch : ℕ → Node S → Outcome (Node S)
  send_batch peer n =
      let next = n.next_index peer in
      let n' = record n { rpc_sequence = n.rpc_sequence + 1 } in
      if n.rpc_sequence == uint64_max
      then fault rpc_exhausted n
      else elim (collect_batch env.entry_size n.log (last_index n.log + 1 - next) next 0 128) [
        | err e ↦ fault e n'
        | ok es ↦ done (launch_batch peer es n')
      ]

  unfoldable pub send_append_entries : ℕ → Node S → Outcome (Node S)
  send_append_entries peer n =
      if not ((n.inflight peer).id == 0)
      then done (retry_flight peer n)
      else if ltb 0 n.log.snapshot.index && leb (n.next_index peer) n.log.snapshot.index
      then start_snapshot peer n
      else send_batch peer n

  unfoldable pub send_each : List ℕ → Node S → Outcome (Node S)
  send_each [] n = done n
  send_each (p ∷ ps) n =
      (if p == n.node_id then done n else send_append_entries p n) >>= send_each ps

  unfoldable pub broadcast_append_entries : Node S → Outcome (Node S)
  broadcast_append_entries n = send_each n.peers n
