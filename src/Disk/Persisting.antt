-- ===== src/Disk/Persisting.antt =====
-- What the write of PersistSnapshot leaves in the database.
use raft_kv.Base.{
  ℕ, ◌+◌, ◌≤◌, ◌<◌, refl, ◌∙◌, none, List, ◌∷◌, same_bytes_refl, length, arith, inl, inr, int64_max,
  ◌⊎◌,
}
use raft_kv.Log.{Log, Entry, Snapshot, term_after}
use raft_kv.Store.{Contents, Change, put, delete, change, replay}
use raft_kv.Disk.{
  Encoding, index_to_key, snapshot_meta_key, snapshot_data_key, tail_key, snapshot_intent_key,
  encode_tail, deletions, put_tail,
}
use raft_kv.Disk.Keys.{
  name_not_index, tail-meta, tail-data, tail-intent, data-meta, intent-meta, intent-data,
}
use raft_kv.Disk.Layout.{Stored, Lays, Untouched, replay-Untouched, deletions_name, deletions_index}
use raft_kv.Disk.Writing.{hard_kept}

-- The write of PersistSnapshot, of any tail and any deletions.
abbrev pub persist_changes : Snapshot → ℕ → ℕ → ℕ → ℕ → List Change
persist_changes s last term from count =
    put snapshot_meta_key (encode_tail s.index s.term)
    ∷ put snapshot_data_key s.bytes
    ∷ delete snapshot_intent_key
    ∷ put_tail last term
    ∷ deletions from count

pub persist_index :
    (s : Snapshot) (last term from count i : ℕ)
    → i ≤ int64_max
    → from + count ≤ int64_max + 1
    → i < from ⊎ from + count ≤ i
    → Untouched (index_to_key i) (persist_changes s last term from count)
persist_index s last term from count i low high apart = (
  name_not_index i snapshot_meta_key (omega arith),
  (
    name_not_index i snapshot_data_key (omega arith),
    (
      name_not_index i snapshot_intent_key (omega arith),
      (name_not_index i tail_key (omega arith), deletions_index i from count low high apart),
    ),
  ),
)

-- A log with a snapshot in place of what came before it.
abbrev pub with_snapshot : Snapshot → List Entry → Log → Log
with_snapshot s es l = record l { snapshot = s; entries = es; intent = none }

pub persisted-Lays :
    (P : Encoding) (c : Contents) (l : Log) (s : Snapshot) (es : List Entry) (from count : ℕ)
    → Lays P c l
    → 1 ≤ s.index
    → 1 ≤ s.term
    → 1 ≤ from
    → from + count ≤ int64_max + 1
    → Stored P
        (replay (persist_changes s (s.index + length es) (term_after s.term es) from count) c)
        s.index
        es
    → Lays P
        (replay (persist_changes s (s.index + length es) (term_after s.term es) from count) c)
        (with_snapshot s es l)
persisted-Lays P c l s es from count lays low positive start bound stored =
    let last = s.index + length es in
    let term = term_after s.term es in
    let dels = deletions from count in
    let meta = put snapshot_meta_key (encode_tail s.index s.term) in
    let data_put = put snapshot_data_key s.bytes in
    let gone = delete snapshot_intent_key in
    let tail = put_tail last term in
    let c1 = change meta c in
    let c2 = change data_put c1 in
    let c3 = change gone c2 in
    let c4 = change tail c3 in
    record {
      stored = stored;
      snapshot = inr (
        low,
        positive,
        replay-Untouched snapshot_meta_key (data_put ∷ gone ∷ tail ∷ dels) c1 (
          data-meta,
          (intent-meta, (tail-meta, deletions_name snapshot_meta_key from count (omega arith))),
        )
            ∙ (rw (same_bytes_refl snapshot_meta_key) refl),
        replay-Untouched snapshot_data_key (gone ∷ tail ∷ dels) c2
              (intent-data, (tail-data, deletions_name snapshot_data_key from count (omega arith)))
            ∙ (rw (same_bytes_refl snapshot_data_key) refl),
      );
      tail = inl (
          replay-Untouched tail_key dels c4 (deletions_name tail_key from count (omega arith))
          ∙ (rw (same_bytes_refl tail_key) refl));
      hard = hard_kept P c (replay (persist_changes s last term from count) c) l lays (
          replay-Untouched (index_to_key 0) (persist_changes s last term from count) c
            (persist_index s last term from count 0 (omega arith) bound (inl (omega arith))));
      intent =
          replay-Untouched snapshot_intent_key (tail ∷ dels) c3
            (tail-intent, deletions_name snapshot_intent_key from count (omega arith))
          ∙ (rw (same_bytes_refl snapshot_intent_key) refl);
    }
