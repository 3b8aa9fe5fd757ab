-- ===== src/Node/Propose.antt =====
-- src/raft/raft_node.cc: Propose, ProposeBatch, FailPending and ExpireUncommittedProposals.
use raft_kv.Base.{
  minus_size, ℕ, ◌+◌, ◌-◌, ◌*◌, Bool, false, not, ◌&&◌, ◌||◌, Option, none, some, List, [], ◌∷◌,
  ◌++◌, ltb, leb, ◌==◌, if◌then◌else◌, length, update, int64_max,
}
use raft_kv.Outcome.{Outcome, done, fault, ◌>>=◌, ok, err, index_exhausted}
use raft_kv.Log.{Entry, last_index, append_batch}
use raft_kv.Node.State.{
  Node, Env, Proposal, Pending, Output, failed, Reason, storage_failed, proposal_timeout,
  max_pending, max_pending_bytes, max_batch_bytes, max_batch_entries, max_command_bytes,
  proposal_timeout_ms,
}
use raft_kv.Node.Reads.{is_leader}
use raft_kv.Node.Send.{broadcast_append_entries}
use raft_kv.Node.Apply.{advance_commit_index}

-- What `ProposeBatch` returns: -1, -2, -3, or the first index.
pub data Admission : Type 0 where
  not_leading over_limit unhealthy : Admission
  admitted : ℕ → Admission

-- The size loop: `none` where a command, or the sum, is over its limit.
unfoldable pub batch_bytes : ℕ → List Proposal → Option ℕ
batch_bytes bytes [] = some bytes
batch_bytes bytes (p ∷ ps) =
    let size = length p.command in
    let rest = batch_bytes (bytes + size) ps in
    if ltb max_command_bytes size || ltb (max_pending_bytes - bytes) size then none else rest

unfoldable pub make_entries : ℕ → ℕ → List Proposal → List Entry
make_entries index term [] = []
make_entries index term (p ∷ ps) =
    record { index = index; term = term; command = p.command } ∷ make_entries (index + 1) term ps

unfoldable pub make_pending : ℕ → ℕ → List Proposal → List Pending
make_pending now index [] = []
make_pending now index (p ∷ ps) =
    record { index = index; callback = p.callback; bytes = length p.command; created_at = now }
    ∷ make_pending now (index + 1) ps

abbrev pub fail_callback : Reason → Option ℕ → List Output
fail_callback why none = []
fail_callback why (some c) = failed c why ∷ []

abbrev pub fail_each : Reason → List Pending → List Output
fail_each why [] = []
fail_each why (p ∷ ps) = fail_callback why p.callback ++ fail_each why ps

-- Uncommitted and as old as the limit.
unfoldable pub has_expired : ℕ → ℕ → Pending → Bool
has_expired now commit p = ltb commit p.index && leb proposal_timeout_ms (now - p.created_at)

-- The proposals that expire, and those that stay.
unfoldable pub split_expired : ℕ → ℕ → List Pending → List Pending × List Pending
split_expired now commit [] = ([], [])
split_expired now commit (p ∷ ps) =
    let (gone, kept) = split_expired now commit ps in
    if has_expired now commit p then (p ∷ gone, kept) else (gone, p ∷ kept)

abbrev pub bytes_of : List Pending → ℕ
bytes_of [] = 0
bytes_of (p ∷ ps) = p.bytes + bytes_of ps

module _ {S : Type 0} where
  unfoldable pub fail_pending : Reason → Node S → Node S
  fail_pending why n = record n {
    pending = [];
    pending_bytes = 0;
    outbox = n.outbox ++ fail_each why n.pending;
  }

  unfoldable pub admission : List Proposal → Node S → Admission
  admission ps n =
      if not (is_leader n)
      then not_leading
      else if not n.storage_healthy
      then unhealthy
      else if length ps == 0
          || ltb max_batch_entries (length ps)
          || ltb (minus_size max_pending (length n.pending)) (length ps)
      then over_limit
      else elim (batch_bytes 0 ps) [
        | none ↦ over_limit
        | some bytes ↦
            if ltb (minus_size max_pending_bytes n.pending_bytes) bytes
              || ltb (max_batch_bytes - 128 - length ps * 64) bytes
            then over_limit
            else admitted (last_index n.log + 1)
      ]

module _ {S : Type 0} (env : Env S) where
  unfoldable pub expire_uncommitted_proposals : Node S → Node S
  expire_uncommitted_proposals n =
      let (gone, kept) = split_expired env.now n.commit_index n.pending in
      record n {
        pending = kept;
        pending_bytes = minus_size n.pending_bytes (bytes_of gone);
        outbox = n.outbox ++ fail_each proposal_timeout gone;
      }

  -- After the durable append: the proposals wait for their commit, the log goes out.
  unfoldable pub register : ℕ → List Proposal → Node S → Node S
  register first ps n =
      let waiting = make_pending env.now first ps in
      record n {
        pending = n.pending ++ waiting;
        pending_bytes = n.pending_bytes + bytes_of waiting;
        match_index = update n.match_index n.node_id (last_index n.log);
      }

  unfoldable pub append_proposals : ℕ → List Proposal → Node S → Outcome (Node S)
  append_proposals first ps n =
      if ltb (int64_max - length ps - 1) (last_index n.log)
      then fault index_exhausted n
      else elim (append_batch env.disk_ok (make_entries first n.current_term ps) n.log) [
        | err e ↦ fault e (fail_pending storage_failed (record n { storage_healthy = false }))
        | ok l ↦ done (register first ps (record n { log = l }))
      ]

  -- The value returned is `admission ps n`; a batch that is not admitted changes nothing.
  unfoldable pub propose_batch : List Proposal → Node S → Outcome (Node S)
  propose_batch ps n = elim (admission ps n) [
    | admitted first ↦
        append_proposals first ps n >>= broadcast_append_entries env >>= advance_commit_index env
    | _ ↦ done n
  ]

  unfoldable pub propose : Proposal → Node S → Outcome (Node S)
  propose p n = propose_batch (p ∷ []) n
