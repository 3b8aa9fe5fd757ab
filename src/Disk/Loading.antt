-- ===== src/Disk/Loading.antt =====
-- src/raftcore/raft_log.cc: what is read back of the log when it is opened.
use raft_kv.Base.{
  ℕ, zero, suc, ◌+◌, ◌-◌, Bool, not, ◌&&◌, ◌||◌, Option, none, some, List, [], ◌∷◌, Bytes,
  same_bytes, ltb, leb, ◌==◌, if◌then◌else◌, length, drop, int32_max, int64_max,
}
use raft_kv.Outcome.{Result, ok, err, and_then, storage_failure, corrupt_log}
use raft_kv.Log.{Snapshot, HardState, max_snapshot_bytes}
use raft_kv.Store.{Database}
use raft_kv.Disk.{
  Encoding, index_to_key, snapshot_meta_key, snapshot_data_key, tail_key, snapshot_intent_key,
  first_field, second_field, decode_hard_state, no_snapshot, found, put_tail, RaftLog, decode_entry,
  read_entry,
}

module _ (D : Database) (P : Encoding) where
  -- `none` where the source answers false and sets the defaults.
  unfoldable pub load_hard_state : RaftLog D P → Result (Option HardState)
  load_hard_state l = and_then (D.get l.db (index_to_key 0)) λ v. elim v [
    | none ↦ if l.last_index == 0 then ok none else err storage_failure
    | some value ↦ and_then (decode_hard_state value) λ h. ok (some h)
  ]

  -- A record of an index and a term, behind the checks of LoadSnapshot.
  unfoldable pub snapshot_of : Bytes → Bytes → Result Snapshot
  snapshot_of meta bytes =
      if ltb max_snapshot_bytes (length bytes)
      then err corrupt_log
      else ok (record { index = first_field meta; term = second_field meta; bytes = bytes })

  unfoldable pub load_snapshot : D.State → Result Snapshot
  load_snapshot s = and_then (D.get s snapshot_meta_key) λ v. elim v [
    | none ↦ ok no_snapshot
    | some meta ↦
        let read =
          and_then (D.get s snapshot_data_key) λ v. and_then (found v) (snapshot_of meta) in
        if not (length meta == 16)
          || first_field meta == 0
          || ltb int64_max (first_field meta)
          || second_field meta == 0
          || ltb int64_max (second_field meta)
        then err corrupt_log
        else read
  ]

  unfoldable pub load_pending_snapshot : RaftLog D P → Result (Option Snapshot)
  load_pending_snapshot l = and_then (D.get l.db snapshot_intent_key) λ v. elim v [
    | none ↦ ok none
    | some value ↦
        if ltb (length value) 16
          || ltb max_snapshot_bytes (length value - 16)
          || leb (first_field value) l.snapshot.index
          || ltb int64_max (first_field value)
          || second_field value == 0
          || ltb int32_max (second_field value)
        then err corrupt_log
        else ok (
            some (record {
              index = first_field value;
              term = second_field value;
              bytes = drop 16 value;
            }))
  ]

  -- LoadTail's check of the entry at the tail.
  unfoldable pub check_tail : D.State → Snapshot → ℕ → ℕ → Result (Unit {0})
  check_tail s snapshot index term =
      let stored =
        and_then (read_entry D P s index)
          λ e. if e.term == term && not (term == 0) then ok tt else err corrupt_log in
      if ltb index snapshot.index
      then err corrupt_log
      else if index == 0
      then (if term == 0 && snapshot.index == 0 then ok tt else err corrupt_log)
      else if index == snapshot.index
      then (if term == snapshot.term then ok tt else err corrupt_log)
      else stored

  -- The loop of VerifySuffix, with `count` indices left.
  unfoldable pub verify_suffix : D.State → ℕ → ℕ → ℕ → Result (Unit {0})
  verify_suffix s zero index previous_term = ok tt
  verify_suffix s (suc count) index previous_term = and_then (read_entry D P s index) λ e.
      let rest = verify_suffix s count (index + 1) e.term in
      if ltb e.term previous_term then err corrupt_log else rest

  -- LoadTail, where there is a tail.
  unfoldable pub load_tail : D.State → Snapshot → Bytes → Result (RaftLog D P)
  load_tail s snapshot raw =
      let index = first_field raw in
      let term = second_field raw in
      let checked = and_then (check_tail s snapshot index term) λ _.
        and_then
          (verify_suffix s (index - snapshot.index) (snapshot.index + 1)
            (if snapshot.index == 0 then 0 else snapshot.term))
          λ _. ok (record { db = s; last_index = index; last_term = term; snapshot = snapshot }) in
      if not (length raw == 16) || ltb int64_max index || ltb int32_max term
      then err corrupt_log
      else checked

  abbrev pub is_own_key : Bytes → Bool
  is_own_key key =
      same_bytes key (index_to_key 0)
      || same_bytes key snapshot_meta_key
      || same_bytes key snapshot_data_key
      || same_bytes key tail_key
      || same_bytes key snapshot_intent_key

  -- The scan of a log without a tail.
  unfoldable pub scan_log : List (Bytes × Bytes) → ℕ → ℕ → Result (ℕ × ℕ)
  scan_log [] last term = ok (last, term)
  scan_log ((key, value) ∷ es) last term =
      let skipped = scan_log es last term in
      let entry = and_then (decode_entry D P (last + 1) value) λ e.
        let rest = scan_log es (last + 1) e.term in
        if ltb e.term term then err corrupt_log else rest in
      if is_own_key key
      then skipped
      else if last == int64_max || not (same_bytes key (index_to_key (last + 1)))
      then err corrupt_log
      else entry

  unfoldable pub scanned : D.State → Snapshot → ℕ × ℕ → Result (RaftLog D P)
  scanned s snapshot (last, term) =
      let recorded =
        and_then (D.write s (put_tail last term ∷ []))
          λ db. ok (record { db = db; last_index = last; last_term = term; snapshot = snapshot }) in
      if ltb 0 last
      then recorded
      else ok (record { db = s; last_index = last; last_term = term; snapshot = snapshot })

  -- The constructor, on an open database.
  unfoldable pub open_log : D.State → Result (RaftLog D P)
  open_log s = and_then (load_snapshot s) λ snapshot. and_then (D.get s tail_key) λ v. elim v [
    | some raw ↦ load_tail s snapshot raw
    | none ↦
        and_then (D.scan s)
          λ es. and_then (scan_log es snapshot.index snapshot.term) (scanned s snapshot)
  ]
