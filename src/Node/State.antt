-- ===== src/Node/State.antt =====
-- src/raft/raft_node.h: the state of a RaftNode, its limits, and what it takes from outside.
--
-- Counters that only MetricsInfo reads, and log lines, are left out. A map that the constructor
-- fills for every peer is a function; an identifier that the source sets to -1 is `none`. What a
-- handler sends and which callbacks it calls stand in `outbox`, oldest first.
use raft_kv.Base.{ℕ, ◌*◌, Bool, Option, List, Bytes}
use raft_kv.Log.{Log, Entry, Snapshot}
use raft_kv.Message.{Message}
pub use raft_kv.Resp.{max_command_bytes}

-- `State`.
pub data Role : Type 0 where
  follower pre_candidate candidate leader : Role

-- `RaftMsgType`, of the two kinds of message that stand in flight.
pub data FlightType : Type 0 where
  append_flight snapshot_flight : FlightType

-- `Inflight`; `id` is 0 where no RPC is outstanding.
pub record Inflight : Type 0 where
  pub id : ℕ
  pub last_index : ℕ
  pub elapsed_ms : ℕ
  pub entries : ℕ
  pub lease_sent_at : ℕ
  pub payload : Option Message
  pub flight_type : FlightType
  pub snapshot : Bool
  pub snapshot_offset : ℕ
  pub snapshot_chunk : ℕ
  pub snapshot_index : ℕ
  pub snapshot_term : ℕ
  pub snapshot_bytes : Bytes

-- `ReadIndexRequest`; a callback is known by its number.
pub record ReadRequest : Type 0 where
  pub read_index : ℕ
  pub callback : ℕ
  pub created_at : ℕ

-- `HeartbeatRound`; `probe_rpc_ids` holds (peer, rpc_id).
pub record Round : Type 0 where
  pub round_id : ℕ
  pub acks : List ℕ
  pub requests : List ReadRequest
  pub probe_rpc_ids : List (ℕ × ℕ)
  pub sent_at : ℕ
  pub confirmed : Bool

-- `Proposal`; the leader's own no-op has no callback.
pub record Proposal : Type 0 where
  pub command : Bytes
  pub callback : Option ℕ

-- An entry of `_pending`, with its key.
pub record Pending : Type 0 where
  pub index : ℕ
  pub callback : Option ℕ
  pub bytes : ℕ
  pub created_at : ℕ

-- The reasons that fail a proposal or a read.
pub data Reason : Type 0 where
  server_stopped leadership_lost storage_failed proposal_timeout : Reason
  not_leader no_leader waiting_for_no_op queue_full read_timeout apply_timeout : Reason

pub data Output : Type 0 where
  -- a message given to the transport, which took it
  sent : ℕ → Message → Output
  -- callback(true, reply), callback(false, reason) of a proposal
  applied : ℕ → Bytes → Output
  failed : ℕ → Reason → Output
  -- callback(true, read_index, ""), callback(false, -1, reason) of a read
  read_served : ℕ → ℕ → Output
  read_failed : ℕ → Reason → Output

-- The work that an asynchronous apply has taken: `first`, and the commands.
pub record ApplyJob : Type 0 where
  pub first : ℕ
  pub commands : List Bytes

-- `S` is the type of the state machine.
pub record Node (S : Type 0) : Type 0 where
  pub node_id : ℕ
  pub peers : List ℕ
  pub machine : S
  pub log : Log
  pub async_apply : Bool
  pub apply_inflight : Option ApplyJob
  pub storage_healthy : Bool
  pub current_term : ℕ
  pub voted_for : Option ℕ
  pub role : Role
  pub running : Bool
  pub commit_index : ℕ
  pub last_applied : ℕ
  pub leader_id : Option ℕ
  pub votes : List ℕ
  pub next_index : ℕ → ℕ
  pub match_index : ℕ → ℕ
  pub inflight : ℕ → Inflight
  pub snapshot_receive : Option Snapshot
  pub snapshot_threshold : ℕ
  pub last_snapshot_attempt : ℕ
  pub lease_reads : Bool
  pub snapshot_chunk_bytes : ℕ
  pub rpc_sequence : ℕ
  pub election_deadline : ℕ
  pub timeouts_drawn : ℕ
  pub leader_since : ℕ
  pub peer_active : ℕ → Option ℕ
  pub lease_confirmed : ℕ → Option ℕ
  pub heartbeat_timer_ms : ℕ
  pub pending : List Pending
  pub pending_bytes : ℕ
  pub can_serve_read : Bool
  pub next_round_id : ℕ
  pub rounds : List Round
  pub unsent_reads : List ReadRequest
  pub pending_reads : List ReadRequest
  pub outbox : List Output

-- What one call of a handler takes from outside: the clock, in milliseconds; the generator of
-- election timeouts; the transport, `link p` saying whether `PeerManager::Send` takes a message
-- for p; whether durable writes of the log succeed; the executor; protobuf's size of an entry;
-- and the state machine, where `none` is an exception.
pub record Env (S : Type 0) : Type 0 where
  pub now : ℕ
  pub draw_timeout : ℕ → ℕ
  pub link : ℕ → Bool
  pub disk_ok : Bool
  pub executor_accepts : Bool
  pub entry_size : Entry → ℕ
  pub apply_batch : S → ℕ → List Bytes → Option (List Bytes × S)
  pub export_snapshot : S → Option Bytes
  -- `KVStateMachine::InstallSnapshot` validates the bytes, calls back, and replaces its content.
  pub valid_snapshot : S → ℕ → Bytes → Bool
  pub replace_all : S → ℕ → Bytes → Option S

abbrev pub tick_interval_ms : ℕ
tick_interval_ms = 10

abbrev pub heartbeat_interval_ms : ℕ
heartbeat_interval_ms = 50

abbrev pub min_election_timeout_ms : ℕ
min_election_timeout_ms = 150

abbrev pub max_election_timeout_ms : ℕ
max_election_timeout_ms = 300

abbrev pub proposal_timeout_ms : ℕ
proposal_timeout_ms = 1000

-- `kRpcRetryMs`.
abbrev pub rpc_retry_ms : ℕ
rpc_retry_ms = heartbeat_interval_ms

abbrev pub max_pending : ℕ
max_pending = 1024

abbrev pub max_pending_bytes : ℕ
max_pending_bytes = 16 * 1024 * 1024

abbrev pub max_batch_bytes : ℕ
max_batch_bytes = 2 * 1024 * 1024

abbrev pub max_batch_entries : ℕ
max_batch_entries = 128

abbrev pub max_pending_read_index : ℕ
max_pending_read_index = 10000

abbrev pub read_index_timeout_ms : ℕ
read_index_timeout_ms = 1000
