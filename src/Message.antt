-- ===== src/Message.antt =====
-- proto/raft_messages.proto: the Raft RPCs. An int32 or int64 field is a ℤ, since a peer may send
-- any value; protobuf's own encoding of a message is not modelled.
use raft_kv.Base.{ℕ, ℤ, Bool, List, Bytes}

pub record RequestVote : Type 0 where
  pub term : ℤ
  pub candidate_id : ℤ
  pub last_log_index : ℤ
  pub last_log_term : ℤ
  pub prevote : Bool

pub record RequestVoteResponse : Type 0 where
  pub term : ℤ
  pub vote_granted : Bool
  pub prevote : Bool

-- `LogEntry` as it arrives.
pub record WireEntry : Type 0 where
  pub index : ℤ
  pub term : ℤ
  pub command : Bytes

pub record AppendEntries : Type 0 where
  pub term : ℤ
  pub leader_id : ℤ
  pub prev_log_index : ℤ
  pub prev_log_term : ℤ
  pub entries : List WireEntry
  pub leader_commit : ℤ
  pub rpc_id : ℕ

pub record AppendEntriesResponse : Type 0 where
  pub term : ℤ
  pub success : Bool
  pub last_log_index : ℤ
  pub rpc_id : ℕ

-- `bytes` is the field `data`.
pub record InstallSnapshot : Type 0 where
  pub term : ℤ
  pub leader_id : ℤ
  pub last_included_index : ℤ
  pub last_included_term : ℤ
  pub offset : ℤ
  pub bytes : Bytes
  pub is_last : Bool
  pub rpc_id : ℕ

pub record InstallSnapshotResponse : Type 0 where
  pub term : ℤ
  pub success : Bool
  pub complete : Bool
  pub rpc_id : ℕ

-- The `oneof payload` of `RaftMessage`.
pub data Message : Type 0 where
  request_vote : RequestVote → Message
  request_vote_response : RequestVoteResponse → Message
  append_entries : AppendEntries → Message
  append_entries_response : AppendEntriesResponse → Message
  install_snapshot : InstallSnapshot → Message
  install_snapshot_response : InstallSnapshotResponse → Message
