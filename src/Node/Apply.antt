-- ===== src/Node/Apply.antt =====
-- src/raft/raft_node.cc: AdvanceCommitIndex, ApplyCommitted, FinishApply and MaybeSnapshot.
use raft_kv.Base.{
  minus_size, ℕ, zero, suc, ◌+◌, ◌-◌, max, Bool, true, false, not, ◌&&◌, ◌||◌, Option, none, some,
  List, [], ◌∷◌, ◌++◌, map, Bytes, ltb, leb, ◌==◌, if◌then◌else◌, length,
}
use raft_kv.Outcome.{
  Outcome, done, fault, ◌>>=◌, Result, ok, err, missing_entry, oversized_entry,
  out_of_order_completion, executor_unavailable, state_machine_failure,
}
use raft_kv.Log.{Log, get, get_term, term_is, compact_applied, max_snapshot_bytes}
use raft_kv.Node.State.{
  Node, Env, Pending, Output, applied, max_batch_bytes, max_batch_entries, max_command_bytes,
}
use raft_kv.Node.Reads.{is_leader_role, quorum_size, process_pending_reads}

-- The batch loop of `ApplyCommitted`, over the rounds left up to the commit index.
unfoldable pub gather : Log → ℕ → ℕ → ℕ → ℕ → Result (List Bytes)
gather l zero index count bytes = ok []
gather l (suc left) index count bytes = elim (get l index) [
  | none ↦ err missing_entry
  | some e ↦
      let size = length e.command in
      let rest = gather l left (index + 1) (count + 1) (bytes + size) in
      if ltb max_command_bytes size
      then err oversized_entry
      else if ltb 0 count && (leb max_batch_entries count || ltb (max_batch_bytes - bytes) size)
      then ok []
      else elim rest [ ok cs ↦ ok (e.command ∷ cs) | err x ↦ err x ]
]

-- `_pending.find(index)` and its removal.
unfoldable pub take_pending : ℕ → List Pending → Option (Pending × List Pending)
take_pending i [] = none
take_pending i (p ∷ ps) =
    if p.index == i
    then some (p, ps)
    else elim (take_pending i ps) [ none ↦ none | some (q, rest) ↦ some (q, p ∷ rest) ]

abbrev pub answer : Option ℕ → Bytes → List Output
answer none reply = []
answer (some c) reply = applied c reply ∷ []

-- Insertion into a list in falling order, for `std::sort` with `std::greater`.
unfoldable pub insert_falling : ℕ → List ℕ → List ℕ
insert_falling a [] = a ∷ []
insert_falling a (x ∷ xs) = if leb x a then a ∷ x ∷ xs else x ∷ insert_falling a xs

unfoldable pub sort_falling : List ℕ → List ℕ
sort_falling [] = []
sort_falling (x ∷ xs) = insert_falling x (sort_falling xs)

abbrev pub get_or : List ℕ → ℕ → ℕ → ℕ
get_or [] i d = d
get_or (x ∷ xs) zero d = x
get_or (x ∷ xs) (suc i) d = get_or xs i d

module _ {S : Type 0} where
  -- Each result answers the pending proposal of its index, if there is one.
  unfoldable pub settle : ℕ → List Bytes → Node S → Node S
  settle i [] n = n
  settle i (reply ∷ replies) n = settle (i + 1) replies (elim (take_pending i n.pending) [
    | none ↦ n
    | some (p, rest) ↦ record n {
      pending = rest;
      pending_bytes = minus_size n.pending_bytes p.bytes;
      outbox = n.outbox ++ answer p.callback reply;
    }
  ])

  -- An entry of the current term is committed, so the leader can serve reads.
  unfoldable pub enable_reads : Node S → Node S
  enable_reads n =
      if is_leader_role n.role
        && not n.can_serve_read
        && ltb 0 n.commit_index
        && term_is (get_term n.log n.commit_index) n.current_term
      then record n { can_serve_read = true }
      else n

module _ {S : Type 0} (env : Env S) where
  unfoldable pub finish_apply : ℕ → ℕ → List Bytes → Node S → Outcome (Node S)
  finish_apply first count results n =
      if not (first == n.last_applied + 1) || not (length results == count)
      then fault out_of_order_completion n
      else process_pending_reads env
          (enable_reads (record n { last_applied = n.last_applied + count }))
        >>= λ n'. done (settle first results n')

  -- The snapshot is due: the threshold has been applied since the last one, or the last attempt.
  unfoldable pub snapshot_due : Node S → Bool
  snapshot_due n =
      let previous = max n.log.snapshot.index n.last_snapshot_attempt in
      n.running
      && (elim n.apply_inflight [ none ↦ true | some job ↦ false ])
      && ltb 0 n.snapshot_threshold
      && ltb n.log.snapshot.index n.last_applied
      && ltb previous n.last_applied
      && leb n.snapshot_threshold (n.last_applied - previous)

  unfoldable pub take_snapshot : ℕ → Node S → Outcome (Node S)
  take_snapshot term n = elim (env.export_snapshot n.machine) [
    | none ↦ fault state_machine_failure n
    | some bytes ↦
        let n' = record n { last_snapshot_attempt = n.last_applied } in
        if ltb max_snapshot_bytes (length bytes)
        then done n'
        else elim (compact_applied env.disk_ok
            (record { index = n.last_applied; term = term; bytes = bytes }) n.log) [
              | ok l ↦ done (record n' { log = l })
              | err e ↦ fault e n'
            ]
  ]

  unfoldable pub maybe_snapshot : Node S → Outcome (Node S)
  maybe_snapshot n =
      if snapshot_due n
      then elim (get_term n.log n.last_applied) [
        | none ↦ done n
        | some zero ↦ done n
        | some (suc t) ↦ take_snapshot (suc t) n
      ]
      else done n

  -- The catch of the synchronous path marks the storage and throws on.
  abbrev pub mark_unhealthy : Outcome (Node S) → Outcome (Node S)
  mark_unhealthy (done n) = done n
  mark_unhealthy (fault e n) = fault e (record n { storage_healthy = false })

  unfoldable pub apply_now : ℕ → List Bytes → Node S → Outcome (Node S)
  apply_now first commands n = mark_unhealthy (elim (env.apply_batch n.machine first commands) [
    | none ↦ fault state_machine_failure n
    | some (results, m) ↦ finish_apply first (length commands) results (record n { machine = m })
  ])

  unfoldable pub submit : ℕ → List Bytes → Node S → Outcome (Node S)
  submit first commands n =
      let n' = record n { apply_inflight = some (record { first = first; commands = commands }) } in
      if env.executor_accepts then done n' else fault executor_unavailable n'

  -- Each turn applies at least one entry, so the turns are at most the entries not yet applied.
  unfoldable pub apply_loop : ℕ → Node S → Outcome (Node S)
  apply_loop zero n = maybe_snapshot n
  apply_loop (suc fuel) n =
      let first = n.last_applied + 1 in
      if n.running && ltb n.last_applied n.commit_index
      then elim (gather n.log (n.commit_index - n.last_applied) first 0 0) [
        | err e ↦ fault e n
        | ok commands ↦
            if n.async_apply
            then submit first commands n
            else apply_now first commands n >>= apply_loop fuel
      ]
      else maybe_snapshot n

  unfoldable pub apply_committed : Node S → Outcome (Node S)
  apply_committed n = elim n.apply_inflight [
    | some job ↦ done n
    | none ↦ apply_loop (n.commit_index - n.last_applied) n
  ]

  -- The completion callback of an asynchronous apply, on the owner thread. The worker has run
  -- `ApplyBatch` on the job; on an exception the job stays in flight.
  unfoldable pub apply_completed : Node S → Outcome (Node S)
  apply_completed n = elim n.apply_inflight [
    | none ↦ done n
    | some job ↦ elim (env.apply_batch n.machine job.first job.commands) [
      | none ↦ fault state_machine_failure (record n { storage_healthy = false })
      | some (results, m) ↦
          finish_apply job.first (length job.commands) results (record n { machine = m }) >>= λ n'.
          apply_committed (record n' { apply_inflight = none })
    ]
  ]

  -- The index that a majority of the peers has matched.
  unfoldable pub majority_match : Node S → ℕ
  majority_match n = get_or (sort_falling (map n.match_index n.peers)) (quorum_size n - 1) 0

  unfoldable pub raise_commit : Node S → Node S
  raise_commit n =
      let candidate = majority_match n in
      if ltb n.commit_index candidate && term_is (get_term n.log candidate) n.current_term
      then record n { commit_index = candidate }
      else n

  unfoldable pub advance_commit_index : Node S → Outcome (Node S)
  advance_commit_index n = apply_committed (raise_commit n)
