-- ===== src/Lib.antt =====
-- Raft-KV: the consensus core of a replicated key-value server.
--
-- A server process holds a Raft node, its durable log, a key-value state machine, a transport to
-- its peers, and client sessions. All of the node's methods run on one event loop, one after the
-- other; the transport delivers peers' messages to it, a timer ticks it, and the server proposes
-- commands and asks for read indices.
--
-- Base, Outcome: the shared names; results of code that may throw. A storage or consistency
--   exception stops the process, so a fault carries the state that the throw left behind.
-- Decimal, BigEndian: decimal numbers and eight-byte words in byte strings.
-- Message: proto/raft_messages.proto. An int field of a message is a signed number, since a peer
--   may send any value.
-- Log (Entries, Laws, Terms, Rising): src/raftcore/raft_log.{h,cc} as its callers see it: a
--   snapshot, the entries behind it, the hard state and the intent of a pending install.
-- Disk: src/raftcore/raft_log.{h,cc} over its database: the keys and values, and the members of
--   RaftLog in memory. Loading has what is read when it is opened; Keys, Layout and Ranges say how a
--   database holds a log; Reading, Writing, Persisting, Steps, Appending, Snapshots, Installing and
--   Staging relate each method to Log's, under the same name; Opening, Calls and Histories are about
--   what opening returns, Checking about what it refuses.
-- Node: src/raft/raft_node.{h,cc}. State has the record `Node` for the class RaftNode and `Env`
--   for what one call takes from outside; Send, Reads, Apply, Propose, Roles, Votes, Append,
--   Snapshots, Ticks and Recovery have one function for each method, under the method's name, and
--   smaller ones for the parts of a long method; Events has the histories of a node.
-- Node/Core, Node/Ballot, Node/Progress: the state apart from sending; term, vote and hard state;
--   log, commit and applied index. Each goes through every method up to the histories.
-- Node/Voting, Node/Matching, Node/Majority, Node/Conflict, Node/Applied: what one method does.
-- Node/Limits, Node/Waiting: the bounds on proposals; where reads wait and how they are answered.
-- Node/Examples: a node of three peers, and each theorem at it.
-- Codec, Transport: src/raft/raft_codec.h; from src/raft/peer_manager.cc, the frames of a
--   connection and the peer that it speaks for.
-- Commands, Resp: src/common/command_type.h and src/common/resp_parser.h: the classes of commands,
--   request ids, the printing of commands for the log, and the decoder of clients' bytes.
-- Sessions: src/common/command_buffer.h and src/common/session_queue.h: the input of a session, the
--   queue of its commands, and a turn that drains the one into the other.
-- Store: src/storage/rocksdb_store.{h,cpp} over an interface of RocksDB, which Store/Tables fills.
-- Machine, Kv: src/raft/kv_state_machine.cc: ApplyBatch over the store, with its specification in
--   Machine/Spec; and the bytes of a snapshot.
-- Policies: src/common/batch_flush_policy.h and src/common/peer_retry_policy.h.
-- Namespaces: src/namespace/namespace_manager.{h,cc}.
--
-- Messages and callback results leave a node by `outbox`, oldest first. A callback does not come
-- back into the node within the call that invokes it. The clock, the election timeouts, whether
-- the transport takes a message, whether a durable write succeeds, the executor and the state
-- machine are given for each call, as any functions; times are milliseconds.
--
-- Loops. The batch loops of SendAppendEntries and ApplyCommitted have a round for each index left,
-- which is how often the source's loops run. The outer loop of ApplyCommitted has a round for each
-- entry not yet applied, and each round applies one or more. The binary search of ConflictIndex
-- has as many rounds as the index it starts from, and each round narrows it.
-- ParseAndDispatch has a round for each byte, and a frame has at least nine.
--
-- The decoder reads a line's digits up to the first CRLF, of which there are 20 at most.
--
-- RocksDB is the record `Database` of Store: a read that succeeds returns what is held, a batch that
-- succeeds is applied in its order and one that fails changes nothing, and a scan lists what is held.
-- Protobuf's encoding of an entry is the record `Encoding` of Disk: what was serialized is parsed.
--
-- Not modelled: the executor's thread; RocksDB, protobuf and muduo, which are libraries; the sockets
-- and client sessions of src/server/main.cpp; metrics, log lines and the methods that only report.
pub mod Base
pub mod Outcome
pub mod Log
pub mod Message
pub mod Codec
pub mod Transport
pub mod Kv
pub mod Policies
pub mod Namespaces
pub mod Decimal
pub mod BigEndian
pub mod Commands
pub mod Resp
pub mod Sessions
pub mod Store
pub mod Machine
pub mod Disk
pub mod Node
