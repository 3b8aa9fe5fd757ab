-- ===== src/Node/Recovery.antt =====
-- src/raft/raft_node.cc: the constructor, which recovers a node from its two databases, and
-- src/raft/peers.h: ValidatePeers.
use raft_kv.Base.{
  ℕ, Bool, true, false, not, ◌&&◌, ◌||◌, Option, none, some, List, [], ◌∷◌, Bytes, ltb, leb, ◌*◌,
  ◌==◌, if◌then◌else◌, elem, map, length,
}
use raft_kv.Outcome.{
  Result, ok, err, inconsistent_recovery, invalid_argument, state_machine_failure,
}
use raft_kv.Log.{Log, last_index, last_term, install_snapshot}
use raft_kv.Node.State.{Node, Env, follower}
use raft_kv.Node.Send.{no_flight}

-- `PeerInfo`; a negative id or port is no value here.
pub record PeerInfo : Type 0 where
  pub id : ℕ
  pub host : Bytes
  pub raft_port : ℕ

unfoldable pub valid_peers_from : List ℕ → List PeerInfo → Bool
valid_peers_from ids [] = true
valid_peers_from ids (p ∷ ps) =
    not (length p.host == 0)
    && leb 1 p.raft_port
    && leb p.raft_port 65535
    && not (elem p.id ids)
    && valid_peers_from (p.id ∷ ids) ps

abbrev pub peer_ids : List PeerInfo → List ℕ
peer_ids = map λ p. p.id

unfoldable pub validate_peers : ℕ → List PeerInfo → Bool
validate_peers self peers = valid_peers_from [] peers && elem self (peer_ids peers)

abbrev pub is_member : Option ℕ → List ℕ → Bool
is_member none ids = true
is_member (some v) ids = elem v ids

-- What the constructor has read from the two databases.
pub record Recovered (S : Type 0) : Type 0 where
  pub log : Log
  pub machine : S

module _ {S : Type 0} (env : Env S) where
  -- A pending snapshot is replayed: the state machine first, then the log's metadata.
  unfoldable pub replay_pending : Recovered S → Result (Recovered S)
  replay_pending r = elim r.log.intent [
    | none ↦ ok r
    | some s ↦
        if ltb r.log.hard.term s.term
        then err inconsistent_recovery
        else if not (env.valid_snapshot r.machine s.index s.bytes)
        then err state_machine_failure
        else elim (env.replace_all r.machine s.index s.bytes) [
          | none ↦ err state_machine_failure
          | some m ↦ elim (install_snapshot env.disk_ok s r.log) [
            | err e ↦ err e
            | ok l ↦ ok (record { log = l; machine = m })
          ]
        ]
  ]

  unfoldable pub fresh_node : ℕ → List ℕ → Bool → ℕ → Recovered S → Node S
  fresh_node id peers async_apply applied r = record {
    node_id = id;
    peers = peers;
    machine = r.machine;
    log = r.log;
    async_apply = async_apply;
    apply_inflight = none;
    storage_healthy = true;
    current_term = r.log.hard.term;
    voted_for = r.log.hard.voted_for;
    role = follower;
    running = false;
    commit_index = applied;
    last_applied = applied;
    leader_id = none;
    votes = [];
    next_index = λ _. 1;
    match_index = λ _. 0;
    inflight = λ _. no_flight;
    snapshot_receive = none;
    snapshot_threshold = 0;
    last_snapshot_attempt = 0;
    lease_reads = false;
    snapshot_chunk_bytes = 256 * 1024;
    rpc_sequence = 0;
    election_deadline = 0;
    timeouts_drawn = 0;
    leader_since = 0;
    peer_active = λ _. none;
    lease_confirmed = λ _. none;
    heartbeat_timer_ms = 0;
    pending = [];
    pending_bytes = 0;
    can_serve_read = false;
    next_round_id = 0;
    rounds = [];
    unsent_reads = [];
    pending_reads = [];
    outbox = [];
  }

  -- `machine_applied` is `KVStateMachine::LastApplied`.
  unfoldable pub check_recovered : (S → ℕ) → ℕ → List ℕ → Bool → Recovered S → Result (Node S)
  check_recovered machine_applied id peers async_apply r =
      let applied = machine_applied r.machine in
      if ltb applied r.log.snapshot.index
        || ltb (last_index r.log) applied
        || ltb r.log.hard.term (last_term r.log)
        || not (is_member r.log.hard.voted_for peers)
      then err inconsistent_recovery
      else ok (fresh_node id peers async_apply applied r)

  unfoldable pub construct : (S → ℕ) → ℕ → List PeerInfo → Bool → Recovered S → Result (Node S)
  construct machine_applied id peers async_apply r =
      if not (validate_peers id peers)
      then err invalid_argument
      else if ltb r.log.hard.term (last_term r.log)
      then err inconsistent_recovery
      else elim (replay_pending r) [
        | err e ↦ err e
        | ok r' ↦ check_recovered machine_applied id (peer_ids peers) async_apply r'
      ]
