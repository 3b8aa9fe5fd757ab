-- ===== src/Node/Core.antt =====
-- Sending and reading, and the rest of a node. `core` is the state of a node but for its RPCs in
-- flight, its read rounds and queues, and its outbox.
use raft_kv.Base.{
  ℕ, ◌≡◌, refl, ◌∙◌, Bool, true, false, Option, List, [], ◌∷◌, arith, ◌==◌, inl, inr, Bool-cases,
  leb, ◌+◌, not, ◌||◌, if◌then◌else◌,
}
use raft_kv.Outcome.{Outcome, done, fault, ◌>>=◌, state}
use raft_kv.Log.{Log, Snapshot}
use raft_kv.Message.{Message}
use raft_kv.Node.State.{Node, Env, Role, Pending, ApplyJob, ReadRequest, Round, Output}
use raft_kv.Node.Send.{
  emit, emit_each, emit_all, send_snapshot_chunk, retry_flight, start_snapshot, launch_batch,
  send_batch, send_append_entries, send_each, broadcast_append_entries,
}
use raft_kv.Node.Reads.{
  process_confirmed, try_start_read_round, send_probes, maybe_send_read_probes,
  finish_read_index_rounds, ack_read_index_probe, process_pending_reads, check_read_index_timeout,
  request_read_index, reject_read, drop_confirmed, ack_rounds, quorum_size, front_needs_probe,
}

pub record Core (S : Type 0) : Type 0 where
  pub node_id : ℕ
  pub peers : List ℕ
  pub machine : S
  pub log : Log
  pub async_apply : Bool
  pub apply_inflight : Option ApplyJob
  pub storage_healthy : Bool
  pub current_term : ℕ
  pub voted_for : Option ℕ
  pub role : Role
  pub running : Bool
  pub commit_index : ℕ
  pub last_applied : ℕ
  pub leader_id : Option ℕ
  pub votes : List ℕ
  pub next_index : ℕ → ℕ
  pub match_index : ℕ → ℕ
  pub snapshot_receive : Option Snapshot
  pub pending : List Pending
  pub pending_bytes : ℕ
  pub can_serve_read : Bool

unfoldable pub core : {S : Type 0} → Node S → Core S
core n = record {
  node_id = n.node_id;
  peers = n.peers;
  machine = n.machine;
  log = n.log;
  async_apply = n.async_apply;
  apply_inflight = n.apply_inflight;
  storage_healthy = n.storage_healthy;
  current_term = n.current_term;
  voted_for = n.voted_for;
  role = n.role;
  running = n.running;
  commit_index = n.commit_index;
  last_applied = n.last_applied;
  leader_id = n.leader_id;
  votes = n.votes;
  next_index = n.next_index;
  match_index = n.match_index;
  snapshot_receive = n.snapshot_receive;
  pending = n.pending;
  pending_bytes = n.pending_bytes;
  can_serve_read = n.can_serve_read;
}

module _ {S : Type 0} (env : Env S) where
  pub core-emit : (p : ℕ) (m : Message) (n : Node S) → core (emit env p m n) ≡ core n
  unfolding emit core
  core-emit p m n = ground arith

  core-emit_each : (ps : List ℕ) (m : Message) (n : Node S) → core (emit_each env ps m n) ≡ core n
  unfolding emit_each
  core-emit_each [] m n = refl
  core-emit_each (p ∷ ps) m n =
      ground (arith, core-emit_each ps m n, core-emit_each ps m (emit env p m n), core-emit p m n)

  pub core-emit_all : (m : Message) (n : Node S) → core (emit_all env m n) ≡ core n
  unfolding emit_all
  core-emit_all m n = core-emit_each n.peers m n

  pub core-send_snapshot_chunk :
      (p : ℕ) (n : Node S) → core (state (send_snapshot_chunk env p n)) ≡ core n
  unfolding send_snapshot_chunk emit core
  core-send_snapshot_chunk p n = ground arith

  core-retry_flight : (p : ℕ) (n : Node S) → core (retry_flight env p n) ≡ core n
  unfolding retry_flight emit core
  core-retry_flight p n = ground arith

  core-start_snapshot : (p : ℕ) (n : Node S) → core (state (start_snapshot env p n)) ≡ core n
  unfolding start_snapshot send_snapshot_chunk emit core
  core-start_snapshot p n = ground arith

  core-send_batch : (p : ℕ) (n : Node S) → core (state (send_batch env p n)) ≡ core n
  unfolding send_batch launch_batch core
  core-send_batch p n = ground arith

  pub core-send_append_entries :
      (p : ℕ) (n : Node S) → core (state (send_append_entries env p n)) ≡ core n
  unfolding send_append_entries
  core-send_append_entries p n =
      ground (arith, core-retry_flight p n, core-start_snapshot p n, core-send_batch p n)

  -- A step that keeps the core, along a list of peers.
  core-bind :
      (n : Node S) (o : Outcome (Node S)) (f : Node S → Outcome (Node S))
      → core (state o) ≡ core n
      → ((m : Node S) → core (state (f m)) ≡ core m)
      → core (state (o >>= f)) ≡ core n
  core-bind n (done m) f h k = k m ∙ h
  core-bind n (fault e m) f h k = h

  core-send_unless :
      (skip : Bool) (p : ℕ) (n : Node S)
      → core (state (if skip then done n else send_append_entries env p n)) ≡ core n
  core-send_unless true p n = refl
  core-send_unless false p n = core-send_append_entries p n

  core-send_each : (ps : List ℕ) (n : Node S) → core (state (send_each env ps n)) ≡ core n
  unfolding send_each
  core-send_each [] n = refl
  core-send_each (p ∷ ps) n =
      core-bind n (if p == n.node_id then done n else send_append_entries env p n)
        (send_each env ps) (core-send_unless (p == n.node_id) p n) (core-send_each ps)

  pub core-broadcast : (n : Node S) → core (state (broadcast_append_entries env n)) ≡ core n
  unfolding broadcast_append_entries
  core-broadcast n = core-send_each n.peers n

  pub core-process_confirmed :
      (qs : List ReadRequest) (n : Node S) → core (process_confirmed qs n) ≡ core n
  unfolding process_confirmed core
  core-process_confirmed [] n = refl
  core-process_confirmed (q ∷ qs) n = elim (Bool-cases (leb q.read_index n.last_applied)) [
    | inl e ↦ rw (e, process_confirmed) (core-process_confirmed qs _)
    | inr e ↦ rw (e, process_confirmed) (core-process_confirmed qs _)
  ]

  core-try_start : (n : Node S) → core (try_start_read_round env n) ≡ core n
  unfolding try_start_read_round core
  core-try_start n = ground (
    arith,
    core-process_confirmed n.unsent_reads
        (record n { next_round_id = n.next_round_id + 1; unsent_reads = [] }),
  )

  core-send_probes : (ps : List ℕ) (n : Node S) → core (state (send_probes env ps n)) ≡ core n
  unfolding send_probes
  core-send_probes [] n = refl
  core-send_probes (p ∷ ps) n =
      let skip = p == n.node_id || not (front_needs_probe p n.rounds) in
      core-bind n (if skip then done n else send_append_entries env p n) (send_probes env ps)
        (core-send_unless skip p n) (core-send_probes ps)

  core-drop : (n : Node S) (rs : List Round) → core (record n { rounds = rs }) ≡ core n
  unfolding core
  core-drop n rs = refl

  pub core-finish_rounds : (n : Node S) → core (state (finish_read_index_rounds env n)) ≡ core n
  unfolding finish_read_index_rounds maybe_send_read_probes
  core-finish_rounds n =
      let m : Node S = record n { rounds = drop_confirmed n.rounds } in
      core-send_probes _ (try_start_read_round env m) ∙ core-try_start m ∙ core-drop n _

  pub core-ack_probe : (p rpc : ℕ) (n : Node S) → core (ack_read_index_probe env p rpc n) ≡ core n
  unfolding ack_read_index_probe
  core-ack_probe p rpc n =
      let (rs, served) = ack_rounds (quorum_size n) env.now p rpc n.rounds in
      core-process_confirmed served (record n { rounds = rs }) ∙ core-drop n rs

  pub core-timeout : (n : Node S) → core (check_read_index_timeout env n) ≡ core n
  unfolding check_read_index_timeout core
  core-timeout n = refl

  core-serve :
      (n : Node S) (rs : List ReadRequest) (o : List Output)
      → core (record n { pending_reads = rs; outbox = o }) ≡ core n
  unfolding core
  core-serve n rs o = refl

  pub core-process_pending : (n : Node S) → core (state (process_pending_reads env n)) ≡ core n
  unfolding process_pending_reads
  core-process_pending n = core-finish_rounds _ ∙ core-serve n _ _

  core-unsent :
      (n : Node S) (rs : List ReadRequest) → core (record n { unsent_reads = rs }) ≡ core n
  unfolding core
  core-unsent n rs = refl

  core-outbox : (n : Node S) (o : List Output) → core (record n { outbox = o }) ≡ core n
  unfolding core
  core-outbox n o = refl

  core-waiting :
      (n : Node S) (qs : List ReadRequest) → core (record n { pending_reads = qs }) ≡ core n
  unfolding core
  core-waiting n qs = refl

  pub core-request_read : (c : ℕ) (n : Node S) → core (state (request_read_index env c n)) ≡ core n
  unfolding request_read_index reject_read
  core-request_read c n = grind (
    arith,
    core-outbox n,
    core-waiting n,
    λ (o : List Output). core-process_pending (record n { outbox = o }) ∙ core-outbox n o,
    λ (qs : List ReadRequest).
        core-finish_rounds (record n { unsent_reads = qs }) ∙ core-unsent n qs,
  )
