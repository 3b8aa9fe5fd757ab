-- ===== src/Log.antt =====
-- src/raftcore/raft_log.{h,cc}: the durable Raft log as its callers see it. The database holds
-- entries under their index, so a log is a snapshot and the list of entries that follow it.
pub mod Entries
pub mod Laws
pub mod Rising
pub mod Terms
use raft_kv.Base.{
  ℕ, ◌+◌, ◌-◌, ◌*◌, Bool, true, false, not, ◌&&◌, ◌||◌, Option, none, some, List, [], ◌∷◌, ◌++◌,
  Bytes, ltb, leb, ◌==◌, if◌then◌else◌, length, get_elem?, take, drop, int32_max, int64_max,
}
use raft_kv.Outcome.{
  Result, ok, err, storage_failure, invalid_append, cannot_truncate_snapshot, absent_entry,
  invalid_snapshot, snapshot_backwards, snapshot_term_mismatch, pending_snapshot,
}

-- `raftcore::LogEntry`.
pub record Entry : Type 0 where
  pub index : ℕ
  pub term : ℕ
  pub command : Bytes

-- A snapshot: the last index and term that it includes, and the bytes of the state machine.
pub record Snapshot : Type 0 where
  pub index : ℕ
  pub term : ℕ
  pub bytes : Bytes

-- `voted_for` is -1 in the source where it is `none` here.
pub record HardState : Type 0 where
  pub term : ℕ
  pub voted_for : Option ℕ

pub record Log : Type 0 where
  pub snapshot : Snapshot
  pub entries : List Entry
  pub hard : HardState
  pub intent : Option Snapshot

-- `kMaxSnapshotBytes`.
abbrev pub max_snapshot_bytes : ℕ
max_snapshot_bytes = 32 * 1024 * 1024

abbrev pub last_index : Log → ℕ
last_index l = l.snapshot.index + length l.entries

abbrev pub term_after : ℕ → List Entry → ℕ
term_after t [] = t
term_after t (e ∷ es) = term_after e.term es

abbrev pub last_term : Log → ℕ
last_term l = term_after l.snapshot.term l.entries

unfoldable pub get : Log → ℕ → Option Entry
get l i =
    if leb i l.snapshot.index || ltb (last_index l) i
    then none
    else get_elem? l.entries (i - l.snapshot.index - 1)

-- -1 in the source is `none` here.
unfoldable pub get_term : Log → ℕ → Option ℕ
get_term l i =
    if i == 0
    then some 0
    else if i == l.snapshot.index
    then some l.snapshot.term
    else if ltb i l.snapshot.index
    then none
    else elim (get l i) [ none ↦ none | some e ↦ some e.term ]

-- `term == t` of such a result.
abbrev pub term_is : Option ℕ → ℕ → Bool
term_is none t = false
term_is (some s) t = s == t

-- The loop of `AppendBatch`: consecutive indices from the last one, and positive terms.
unfoldable pub consecutive : ℕ → List Entry → Bool
consecutive last [] = true
consecutive last (e ∷ es) =
    not (last == int64_max) && e.index == last + 1 && ltb 0 e.term && consecutive e.index es

-- `disk_ok` says whether the durable write succeeds.
unfoldable pub append_batch : Bool → List Entry → Log → Result Log
append_batch disk_ok [] l = ok l
append_batch disk_ok (e ∷ es) l =
    if not (consecutive (last_index l) (e ∷ es))
    then err invalid_append
    else if disk_ok
    then ok (record l { entries = l.entries ++ e ∷ es })
    else err storage_failure

unfoldable pub truncate_suffix : Bool → ℕ → Log → Result Log
truncate_suffix disk_ok start l =
    if leb start l.snapshot.index
    then err cannot_truncate_snapshot
    else if ltb (last_index l) start
    then ok l
    else if disk_ok
    then ok (record l { entries = take (start - l.snapshot.index - 1) l.entries })
    else err storage_failure

unfoldable pub save_hard_state : Bool → ℕ → Option ℕ → Log → Result Log
save_hard_state disk_ok term voted_for l =
    if disk_ok
    then ok (record l { hard = record { term = term; voted_for = voted_for } })
    else err storage_failure

unfoldable pub persist_snapshot : Bool → Snapshot → Bool → Log → Result Log
persist_snapshot disk_ok s keep_suffix l =
    if s.index == 0 || s.term == 0 || ltb max_snapshot_bytes (length s.bytes)
    then err invalid_snapshot
    else if disk_ok
    then ok (record l {
      snapshot = s;
      entries = if keep_suffix then drop (s.index - l.snapshot.index) l.entries else [];
      intent = none;
    })
    else err storage_failure

unfoldable pub compact_applied : Bool → Snapshot → Log → Result Log
compact_applied disk_ok s l =
    if leb s.index l.snapshot.index
    then ok l
    else if ltb (last_index l) s.index || not (term_is (get_term l s.index) s.term)
    then err absent_entry
    else persist_snapshot disk_ok s true l

unfoldable pub stage_snapshot_install : Bool → Snapshot → Log → Result Log
stage_snapshot_install disk_ok s l =
    if leb s.index l.snapshot.index
      || s.term == 0
      || ltb int32_max s.term
      || ltb max_snapshot_bytes (length s.bytes)
    then err invalid_snapshot
    else elim l.intent [
      | some pending ↦ err pending_snapshot
      | none ↦ if disk_ok then ok (record l { intent = some s }) else err storage_failure
    ]

unfoldable pub install_snapshot : Bool → Snapshot → Log → Result Log
install_snapshot disk_ok s l =
    if s.index == 0 || s.term == 0
    then err invalid_snapshot
    else if ltb s.index l.snapshot.index
    then err snapshot_backwards
    else if s.index == l.snapshot.index
    then (if s.term == l.snapshot.term then ok l else err snapshot_term_mismatch)
    else persist_snapshot disk_ok s
        (leb s.index (last_index l) && term_is (get_term l s.index) s.term) l
