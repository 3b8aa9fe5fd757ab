-- ===== src/Disk/Staging.antt =====
-- StageSnapshotInstall does to the log in its database what the log of its callers shows.
use raft_kv.Base.{
  ℕ, ◌≤◌, ◌<◌, ◌≡◌, refl, ◌∙◌, ap, subst, true, Option, none, some, List, [], ◌∷◌, ◌++◌, Bytes,
  same_bytes_refl, length, arith, inl, int32_max, int64_max,
}
use raft_kv.Outcome.{Result, ok, err, pending_snapshot, and_then, and_then-eq-ok}
use raft_kv.Log.{
  Log, Entry, Snapshot, last_index, last_term, term_after, term_is, max_snapshot_bytes,
}
use raft_kv.Store.{Contents, Change, put, change, replay, Database}
use raft_kv.Disk.{
  Encoding, index_to_key, snapshot_meta_key, snapshot_data_key, tail_key, snapshot_intent_key,
  encode_tail, RaftLog, put_tail, stage_snapshot_install,
}
use raft_kv.Disk.Keys.{name_not_index, tail-meta, tail-data, tail-intent, intent-meta, intent-data}
use raft_kv.Disk.Layout.{intent_value, IsRanged, Stored-agree, Lays, Stands, replay-Untouched}
use raft_kv.Disk.Writing.{written_contents, hard_kept, snapshot_kept, put_last}
use raft_kv.Disk.Steps.{Follows}

abbrev pub stage_changes : Snapshot → ℕ → ℕ → List Change
stage_changes s last term =
    put snapshot_intent_key (encode_tail s.index s.term ++ s.bytes) ∷ put_tail last term ∷ []

staged-Lays :
    (P : Encoding) (c : Contents) (l : Log) (s : Snapshot)
    → IsRanged l
    → Lays P c l
    → Lays P
        (replay (stage_changes s (last_index l) (last_term l)) c)
        (record l { intent = some s })
staged-Lays P c l s ranged lays =
    let last = last_index l in
    let term = last_term l in
    let changes = stage_changes s last term in
    let intent = put snapshot_intent_key (encode_tail s.index s.term ++ s.bytes) in
    let d = replay changes c in
    let keys = λ (i : ℕ). replay-Untouched (index_to_key i) changes c (
      name_not_index i snapshot_intent_key (omega arith),
      (name_not_index i tail_key (omega arith), tt),
    ) in
    record {
      stored = Stored-agree P c d l.snapshot.index l.entries (λ i low up. keys i) lays.stored;
      snapshot =
          snapshot_kept P c d l lays
            (replay-Untouched snapshot_meta_key changes c (intent-meta, (tail-meta, tt)))
            (replay-Untouched snapshot_data_key changes c (intent-data, (tail-data, tt)));
      tail = inl (put_last (intent ∷ []) tail_key (encode_tail last term) c);
      hard = hard_kept P c d l lays (keys 0);
      intent =
          replay-Untouched snapshot_intent_key (put_tail last term ∷ []) (change intent c)
            (tail-intent, tt)
          ∙ (rw (same_bytes_refl snapshot_intent_key) refl);
    }

module _ (D : Database) (P : Encoding) (l : Log) (ranged : IsRanged l) where
  -- The write of StageSnapshotInstall.
  abbrev staged : Snapshot → RaftLog D P → Option Bytes → Result (RaftLog D P)
  staged s o (some p) = err pending_snapshot
  staged s o none =
      and_then (D.write o.db (stage_changes s o.last_index o.last_term))
        λ db. ok (record o { db = db })

  no_intent : (q : Option Snapshot) → none ≡ intent_value q → q ≡ none
  no_intent none h = refl
  no_intent (some s) h = cc

  stage_at :
      (s : Snapshot) (o o' : RaftLog D P) (p : Option Bytes)
      → l.snapshot.index < s.index
      → 1 ≤ s.term
      → s.term ≤ int32_max
      → length s.bytes ≤ max_snapshot_bytes
      → s.index ≤ int64_max
      → Stands D P o l
      → p ≡ intent_value l.intent
      → staged s o p ≡ ok o'
      → Follows D P o' (raft_kv.Log.stage_snapshot_install true s l)
  unfolding raft_kv.Log.stage_snapshot_install
  stage_at s o o' (some p) low positive narrow small high stands held e = cc (e)
  stage_at s o o' none low positive narrow small high stands held e =
      let (db, written, made) =
        and_then-eq-ok (D.write o.db (stage_changes s o.last_index o.last_term)) _ e in
      let there = written_contents D o.db db (stage_changes s o.last_index o.last_term) written in
      let nothing = no_intent l.intent held in
      let left : record o { db = db } ≡ o' = cc (made) in
      subst (λ y. Follows D P y (raft_kv.Log.stage_snapshot_install true s l)) left
        (record {
          log = record l { intent = some s };
          same = ground (arith, low, positive, narrow, small, nothing);
          stands = record {
            lays =
                rw (there, stands.last_index_lem, stands.last_term_lem)
                  (staged-Lays P (D.contents o.db) l s ranged stands.lays);
            last_index_lem = stands.last_index_lem;
            last_term_lem = stands.last_term_lem;
            snapshot_lem = stands.snapshot_lem;
          };
          ranged = record {
            chained = ranged.chained;
            rising = ranged.rising;
            terms = ranged.terms;
            last = ranged.last;
            snapshot_term = ranged.snapshot_term;
            snapshot_bytes = ranged.snapshot_bytes;
            hard_term = ranged.hard_term;
            vote = ranged.vote;
            pending = (low, high, positive, narrow, small);
          };
        })

  pub stage_snapshot_install-Follows :
      (s : Snapshot) (o o' : RaftLog D P)
      → s.index ≤ int64_max
      → Stands D P o l
      → stage_snapshot_install D P s o ≡ ok o'
      → Follows D P o' (raft_kv.Log.stage_snapshot_install true s l)
  unfolding stage_snapshot_install raft_kv.Log.stage_snapshot_install
  stage_snapshot_install-Follows s o o' high stands e =
      let snap = ap (λ (x : Snapshot). x.index) stands.snapshot_lem in
      let low : l.snapshot.index < s.index = ground (arith, e, snap) in
      let positive : 1 ≤ s.term = ground (arith, e) in
      let narrow : s.term ≤ int32_max = ground (arith, e) in
      let small : length s.bytes ≤ max_snapshot_bytes = ground (arith, e) in
      let step : and_then (D.get o.db snapshot_intent_key) (staged s o) ≡ ok o' =
        ground (arith, e) in
      let (p, got, rest) = and_then-eq-ok (D.get o.db snapshot_intent_key) _ step in
      stage_at s o o' p low positive narrow small high stands
        (D.get_law o.db snapshot_intent_key p got ∙ stands.lays.intent) rest
