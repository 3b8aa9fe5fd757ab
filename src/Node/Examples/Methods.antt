-- ===== src/Node/Examples/Methods.antt =====
-- Storing, committing, applying, and finding a conflict.
use raft_kv.Base.{ℕ, ◌≤◌, ◌<◌, ◌≡◌, ◌↔◌, ◌≢◌, refl, some, List, [], ◌∷◌, map, Bytes, arith, All}
use raft_kv.Outcome.{state}
use raft_kv.Log.{get_term}
use raft_kv.Log.Terms.{Known}
use raft_kv.Node.State.{Node}
use raft_kv.Node.Reads.{quorum_size}
use raft_kv.Log.{get, truncate_suffix, append_batch, consecutive}
use raft_kv.Node.Append.{resolve_conflict}
use raft_kv.Node.Reads.{
  process_pending_reads, ready_reads, finish_read_index_rounds, drop_confirmed,
  try_start_read_round, maybe_send_read_probes, send_probes,
}
use raft_kv.Node.Apply.{
  apply_loop, gather, apply_now, finish_apply, enable_reads, settle, take_pending, maybe_snapshot,
  snapshot_due, sort_falling, insert_falling,
}
use raft_kv.Node.Append.{conflict_index, store_entries}
use raft_kv.Node.Apply.{majority_match, raise_commit, apply_committed}
use raft_kv.Node.Matching.{store_entries-Known}
use raft_kv.Node.Majority.{
  reached, majority_match-reached, raise_commit-majority, raise_commit_complete,
}
use raft_kv.Node.Conflict.{conflict_index-IsFirst}
use raft_kv.Node.Applied.{apply_committed-caught_up}
use raft_kv.Node.Examples.{world, entry, disk, log3, node3}

store_entries-Known_example :
    All
      (λ e.
        0 ≤ e.index
        → Known (state (store_entries world (entry 2 4 ∷ entry 3 4 ∷ []) [] node3)).log e)
      (entry 2 4 ∷ entry 3 4 ∷ [])
unfolding store_entries resolve_conflict get_term get truncate_suffix append_batch consecutive
store_entries-Known_example =
    store_entries-Known world (entry 2 4 ∷ entry 3 4 ∷ []) [] node3
      (state (store_entries world (entry 2 4 ∷ entry 3 4 ∷ []) [] node3)) 1 refl
      (refl, omega arith, (refl, omega arith, tt))

majority_match-reached_example :
    (2 ≤ majority_match world node3)
    ↔ (quorum_size node3 ≤ reached 2 (map node3.match_index node3.peers))
majority_match-reached_example = majority_match-reached world node3 2 (omega arith)

raise_commit-majority_example :
    (2 ≤ reached 2 (1 ∷ 2 ∷ 3 ∷ []))
    × (get_term node3.log 2 ≡ some 3)
    × ((k : ℕ) → 2 ≤ reached k (1 ∷ 2 ∷ 3 ∷ []) → k ≤ 2)
unfolding raise_commit majority_match sort_falling insert_falling get_term get
raise_commit-majority_example = raise_commit-majority world node3 (omega arith) (omega arith)

raise_commit_complete_example : 2 ≤ (raise_commit world node3).commit_index
unfolding majority_match sort_falling insert_falling get_term get
raise_commit_complete_example = raise_commit_complete world node3 2 (omega arith) refl (omega arith)

conflict_index-IsFirst_example :
    (get_term (disk log3) (conflict_index (disk log3) 3) ≡ some 3)
    × (conflict_index (disk log3) 3 ≤ 3)
    × ((i : ℕ) → 0 ≤ i → i < conflict_index (disk log3) 3 → get_term (disk log3) i ≢ some 3)
unfolding get_term get
conflict_index-IsFirst_example =
    conflict_index-IsFirst (disk log3) 3 2 (omega arith, (omega arith, (omega arith, tt)))
      (omega arith) refl

-- One entry is committed and not applied.
abbrev caught_up : Node (List Bytes)
caught_up = state (apply_committed world node3)

apply_committed-caught_up_example :
    (caught_up.last_applied ≡ caught_up.commit_index) × (caught_up.commit_index ≡ 1)
unfolding apply_committed apply_loop gather get apply_now finish_apply enable_reads
    process_pending_reads ready_reads finish_read_index_rounds drop_confirmed try_start_read_round
    maybe_send_read_probes send_probes settle take_pending maybe_snapshot snapshot_due get_term
apply_committed-caught_up_example =
    apply_committed-caught_up world node3 caught_up refl refl refl refl (omega arith)
