-- ===== src/Disk.antt =====
-- src/raftcore/raft_log.{h,cc}: the keys and values of the log in its database, and what is read back
-- when it is opened. The database and the encoding of an entry, which is protobuf's, are parameters.
pub mod Loading
pub mod Keys
pub mod Layout
pub mod Ranges
pub mod Reading
pub mod Opening
pub mod Checking
pub mod Writing
pub mod Steps
pub mod Appending
pub mod Persisting
pub mod Snapshots
pub mod Installing
pub mod Staging
pub mod Calls
pub mod Histories
mod Examples
use raft_kv.Base.{
  ℕ, zero, suc, ◌+◌, ◌-◌, ◌*◌, ◌/◌, ◌%◌, ◌^◌, ◌≡◌, Bool, true, false, not, ◌&&◌, ◌||◌, Option, none,
  some, List, [], ◌∷◌, ◌++◌, Bytes, codes, same_bytes, ltb, leb, ◌==◌, if◌then◌else◌, length, take,
  drop, int32_max, int64_max,
}
use raft_kv.Outcome.{
  Result, ok, err, and_then, storage_failure, invalid_append, cannot_truncate_snapshot,
  absent_entry, invalid_snapshot, snapshot_backwards, snapshot_term_mismatch, pending_snapshot,
  invalid_hard_state, corrupt_log, corrupt_hard_state, serialize_failure,
}
use raft_kv.BigEndian.{write_u64, read_u64}
use raft_kv.Log.{Entry, Snapshot, HardState, max_snapshot_bytes, term_is, term_after}
use raft_kv.Store.{Change, put, delete, Database}

-- What is used of protobuf: an entry that was serialized is parsed as it was.
pub record Encoding : Type 0 where
  pub serialize : Entry → Option Bytes
  pub parse : Bytes → Option Entry
  pub parse_law : (e : Entry) (b : Bytes) → serialize e ≡ some b → parse b ≡ some e

unfoldable pub index_to_key : ℕ → Bytes
index_to_key index = write_u64 index

abbrev pub snapshot_meta_key : Bytes
snapshot_meta_key = codes "raftkv-snapshot-meta"

abbrev pub snapshot_data_key : Bytes
snapshot_data_key = codes "raftkv-snapshot-data"

abbrev pub tail_key : Bytes
tail_key = codes "raftkv-log-tail"

abbrev pub snapshot_intent_key : Bytes
snapshot_intent_key = codes "raftkv-install-intent-v1"

unfoldable pub encode_tail : ℕ → ℕ → Bytes
encode_tail index term = write_u64 index ++ write_u64 term

-- The fields of such a record.
abbrev pub first_field : Bytes → ℕ
first_field raw = read_u64 0 (take 8 raw)

abbrev pub second_field : Bytes → ℕ
second_field raw = read_u64 0 (take 8 (drop 8 raw))

-- Four bytes, the lowest first.
unfoldable pub write_le32 : ℕ → Bytes
write_le32 n = n % 256 ∷ n / 256 % 256 ∷ n / 65536 % 256 ∷ n / 16777216 % 256 ∷ []

unfoldable pub read_le32 : Bytes → ℕ
read_le32 (a ∷ b ∷ c ∷ d ∷ rest) = a + 256 * b + 65536 * c + 16777216 * d
read_le32 _ = 0

-- `static_cast<uint32_t>(voted_for)`, where -1 is `none`.
abbrev pub vote_field : Option ℕ → ℕ
vote_field none = 2 ^ 32 - 1
vote_field (some id) = id

unfoldable pub encode_hard_state : HardState → Bytes
encode_hard_state h = write_le32 h.term ++ write_le32 (vote_field h.voted_for)

unfoldable pub decode_hard_state : Bytes → Result HardState
decode_hard_state value =
    let term = read_le32 (take 4 value) in
    let vote = read_le32 (drop 4 value) in
    if not (length value == 8)
    then err corrupt_hard_state
    else if ltb int32_max term || (ltb int32_max vote && not (vote == 2 ^ 32 - 1))
    then err invalid_hard_state
    else ok (record { term = term; voted_for = if vote == 2 ^ 32 - 1 then none else some vote })

abbrev pub no_snapshot : Snapshot
no_snapshot = record { index = 0; term = 0; bytes = [] }

-- `RequireStorageOK` of a read: a key that is not there is a failure.
abbrev pub found : Option Bytes → Result Bytes
found none = err storage_failure
found (some value) = ok value

-- The changes of PersistSnapshot and TruncateSuffix: the entries of consecutive indices are deleted.
unfoldable pub deletions : ℕ → ℕ → List Change
deletions from zero = []
deletions from (suc count) = delete (index_to_key from) ∷ deletions (from + 1) count

abbrev pub put_tail : ℕ → ℕ → Change
put_tail index term = put tail_key (encode_tail index term)

module _ (D : Database) (P : Encoding) where
  -- The members of `RaftLog`.
  pub record RaftLog : Type 0 where
    pub db : D.State
    pub last_index : ℕ
    pub last_term : ℕ
    pub snapshot : Snapshot

  -- The loop of AppendBatch.
  unfoldable pub entry_puts : ℕ → List Entry → Result (List Change)
  entry_puts last [] = ok []
  entry_puts last (e ∷ es) =
      let value : Result (List Change) = elim (P.serialize e) [
        | none ↦ err serialize_failure
        | some value ↦
            and_then (entry_puts e.index es) λ cs. ok (put (index_to_key e.index) value ∷ cs)
      ] in
      if last == int64_max || not (e.index == last + 1) || e.term == 0
      then err invalid_append
      else value

  unfoldable pub append_batch : List Entry → RaftLog → Result RaftLog
  append_batch [] l = ok l
  append_batch (e ∷ es) l =
      let last = l.last_index + length (e ∷ es) in
      let term = term_after e.term es in
      and_then (entry_puts l.last_index (e ∷ es)) λ cs.
        and_then (D.write l.db (cs ++ put_tail last term ∷ []))
          λ db. ok (record l { db = db; last_index = last; last_term = term })

  -- A value of the database that must be the entry of the index.
  unfoldable pub decode_entry : ℕ → Bytes → Result Entry
  decode_entry index value = elim (P.parse value) [
    | none ↦ err corrupt_log
    | some e ↦ if not (e.index == index) || e.term == 0 then err corrupt_log else ok e
  ]

  unfoldable pub read_entry : D.State → ℕ → Result Entry
  read_entry s index =
      and_then (D.get s (index_to_key index)) λ v. and_then (found v) (decode_entry index)

  unfoldable pub get : ℕ → RaftLog → Result (Option Entry)
  get index l =
      if leb index l.snapshot.index || ltb l.last_index index
      then ok none
      else and_then (read_entry l.db index) λ e. ok (some e)

  -- -1 in the source is `none` here.
  unfoldable pub get_term : ℕ → RaftLog → Result (Option ℕ)
  get_term index l =
      let stored : Result (Option ℕ) =
        and_then (get index l) λ e. elim e [ none ↦ ok none | some e ↦ ok (some e.term) ] in
      if index == 0
      then ok (some 0)
      else if index == l.snapshot.index
      then ok (some l.snapshot.term)
      else if ltb index l.snapshot.index
      then ok none
      else stored

  unfoldable pub save_hard_state : HardState → RaftLog → Result RaftLog
  save_hard_state h l =
      and_then (D.write l.db (put (index_to_key 0) (encode_hard_state h) ∷ []))
        λ db. ok (record l { db = db })

  -- The tail of TruncateSuffix, once the term before `start` is read; a log has one, or its read throws.
  unfoldable pub cut : ℕ → Option ℕ → RaftLog → Result RaftLog
  cut start none l = err corrupt_log
  cut start (some term) l =
      and_then
        (D.write l.db
          (deletions start (l.last_index + 1 - start) ++ put_tail (start - 1) term ∷ []))
        λ db. ok (record l { db = db; last_index = start - 1; last_term = term })

  unfoldable pub truncate_suffix : ℕ → RaftLog → Result RaftLog
  truncate_suffix start l =
      let shorter = and_then (get_term (start - 1) l) λ term. cut start term l in
      if leb start l.snapshot.index
      then err cannot_truncate_snapshot
      else if ltb l.last_index start
      then ok l
      else shorter

  -- The write of PersistSnapshot.
  abbrev pub snapshot_changes : Snapshot → Bool → RaftLog → List Change
  snapshot_changes s keep_suffix l =
      put snapshot_meta_key (encode_tail s.index s.term)
      ∷ put snapshot_data_key s.bytes
      ∷ delete snapshot_intent_key
      ∷ put_tail (if keep_suffix then l.last_index else s.index)
          (if keep_suffix then l.last_term else s.term)
      ∷ deletions (l.snapshot.index + 1)
          ((if keep_suffix then s.index else l.last_index) - l.snapshot.index)

  unfoldable pub persist_snapshot : Snapshot → Bool → RaftLog → Result RaftLog
  persist_snapshot s keep_suffix l =
      let written = and_then (D.write l.db (snapshot_changes s keep_suffix l)) λ db. ok (record {
        db = db;
        last_index = if keep_suffix then l.last_index else s.index;
        last_term = if keep_suffix then l.last_term else s.term;
        snapshot = s;
      }) in
      if s.index == 0 || s.term == 0 || ltb max_snapshot_bytes (length s.bytes)
      then err invalid_snapshot
      else written

  unfoldable pub compact_applied : Snapshot → RaftLog → Result RaftLog
  compact_applied s l =
      let checked =
        and_then (get_term s.index l)
          λ term. if term_is term s.term then persist_snapshot s true l else err absent_entry in
      if leb s.index l.snapshot.index
      then ok l
      else if ltb l.last_index s.index
      then err absent_entry
      else checked

  unfoldable pub stage_snapshot_install : Snapshot → RaftLog → Result RaftLog
  stage_snapshot_install s l =
      let staged = and_then (D.get l.db snapshot_intent_key) λ pending. elim pending [
        | some p ↦ err pending_snapshot
        | none ↦
            and_then
              (D.write l.db (
                put snapshot_intent_key (encode_tail s.index s.term ++ s.bytes)
                ∷ put_tail l.last_index l.last_term
                ∷ []))
              λ db. ok (record l { db = db })
      ] in
      if leb s.index l.snapshot.index
        || s.term == 0
        || ltb int32_max s.term
        || ltb max_snapshot_bytes (length s.bytes)
      then err invalid_snapshot
      else staged

  unfoldable pub install_snapshot : Snapshot → RaftLog → Result RaftLog
  install_snapshot s l =
      let kept = and_then (get_term s.index l) λ term. persist_snapshot s (term_is term s.term) l in
      if s.index == 0 || s.term == 0
      then err invalid_snapshot
      else if ltb s.index l.snapshot.index
      then err snapshot_backwards
      else if s.index == l.snapshot.index
      then (if s.term == l.snapshot.term then ok l else err snapshot_term_mismatch)
      else if leb s.index l.last_index
      then kept
      else persist_snapshot s false l
