-- ===== src/Disk/Examples.antt =====
-- A log in a table, with two terms, a truncation and a compaction.
use raft_kv.Base.{
  ℕ, ◌≤◌, ◌≡◌, refl, sym, ◌&&◌, Option, none, some, List, [], ◌∷◌, ◌++◌, Bytes, codes, leb,
  if◌then◌else◌, drop, drop-length, arith, int64_max, same_bytes,
}
use raft_kv.Outcome.{Result, ok, err}
use raft_kv.Log.{Entry, Snapshot, HardState}
use raft_kv.Store.Tables.{tables}
use raft_kv.Disk.{
  Encoding, encode_tail, encode_hard_state, decode_hard_state, first_field, second_field, tail_key,
  no_snapshot, RaftLog,
}
use raft_kv.Disk.Keys.{
  first_field_lem, second_field_lem, length-encode_tail, decode_hard_state-encode_hard_state,
}
use raft_kv.Disk.Loading.{open_log}
use raft_kv.Disk.Opening.{Readable}
use raft_kv.Disk.Checking.{Checked, open_log-Checked}
use raft_kv.Disk.Calls.{
  Operation, append, truncate, save, compact, stage, AllowedAll, empty_log, log_history,
}
use raft_kv.Disk.Histories.{disk_history, Reopened, history-Reopens}

-- Entries as records of an index and a term, before the command.
abbrev write_entry : Entry → Option Bytes
write_entry e =
    if leb e.index int64_max && leb e.term int64_max
    then some (encode_tail e.index e.term ++ e.command)
    else none

abbrev read_entry : Bytes → Option Entry
read_entry b = some (record { index = first_field b; term = second_field b; command = drop 16 b })

write_entry-read : (e : Entry) (b : Bytes) → write_entry e ≡ some b → read_entry b ≡ some e
write_entry-read e b h =
    let low : e.index ≤ int64_max = ground (arith, h) in
    let high : e.term ≤ int64_max = ground (arith, h) in
    let same : encode_tail e.index e.term ++ e.command ≡ b = ground (arith, h) in
    let index = first_field_lem e.index e.term e.command low high in
    let term = second_field_lem e.index e.term e.command low high in
    let command : drop 16 (encode_tail e.index e.term ++ e.command) ≡ e.command =
      drop-length (encode_tail e.index e.term) e.command 16
        (sym (length-encode_tail e.index e.term)) in
    rw (← same, index, term, command) refl

abbrev plain : Encoding
plain = record { serialize = write_entry; parse = read_entry; parse_law = write_entry-read }

abbrev entry : ℕ → ℕ → Entry
entry index term = record { index = index; term = term; command = codes "x" }

abbrev calls : List Operation
calls =
    save (record { term = 1; voted_for = some 0 })
    ∷ append (entry 1 1 ∷ entry 2 1 ∷ [])
    ∷ append (entry 3 1 ∷ [])
    ∷ truncate 3
    ∷ save (record { term = 2; voted_for = none })
    ∷ append (entry 3 2 ∷ [])
    ∷ compact (record { index = 2; term = 1; bytes = codes "state" })
    ∷ stage (record { index = 9; term = 2; bytes = codes "later" })
    ∷ []

abbrev opened_empty : RaftLog tables plain
opened_empty = record { db = []; last_index = 0; last_term = 0; snapshot = no_snapshot }

abbrev left : Result (RaftLog tables plain) → RaftLog tables plain
left (ok o) = o
left (err e) = opened_empty

abbrev finish : RaftLog tables plain
finish = left (disk_history tables plain calls opened_empty)

calls-AllowedAll : AllowedAll calls empty_log
unfolding raft_kv.Log.save_hard_state raft_kv.Log.append_batch raft_kv.Log.consecutive
    raft_kv.Log.truncate_suffix raft_kv.Log.compact_applied raft_kv.Log.get_term raft_kv.Log.get
    raft_kv.Log.persist_snapshot raft_kv.Log.stage_snapshot_install
calls-AllowedAll = (
  (omega arith, omega arith, omega arith),
  (
    ((omega arith, (omega arith, tt)), (omega arith, (omega arith, tt)), omega arith),
    (
      ((omega arith, tt), (omega arith, tt), omega arith),
      (
        tt,
        (
          (omega arith, tt, omega arith),
          (((omega arith, tt), (omega arith, tt), omega arith), (tt, (omega arith, tt))),
        ),
      ),
    ),
  ),
)

table_Readable : (s : List (Bytes × Bytes)) → Readable tables s
table_Readable s = record { reads = λ k. refl; scans = (s, refl) }

calls-ok : disk_history tables plain calls opened_empty ≡ ok finish
unfolding raft_kv.Disk.save_hard_state raft_kv.Disk.append_batch raft_kv.Disk.entry_puts
    raft_kv.Disk.truncate_suffix raft_kv.Disk.cut raft_kv.Disk.get_term raft_kv.Disk.get
    raft_kv.Disk.read_entry raft_kv.Disk.decode_entry raft_kv.Disk.compact_applied
    raft_kv.Disk.persist_snapshot raft_kv.Disk.stage_snapshot_install raft_kv.Disk.deletions
    encode_tail raft_kv.Disk.index_to_key raft_kv.BigEndian.write_u64 raft_kv.BigEndian.big_endian
    raft_kv.BigEndian.read_u64 same_bytes raft_kv.Store.Tables.change_all
    raft_kv.Store.Tables.change_table raft_kv.Store.Tables.without encode_hard_state
    raft_kv.Disk.write_le32
calls-ok = refl

opened_empty-opened : open_log tables plain [] ≡ ok opened_empty
unfolding open_log raft_kv.Disk.Loading.load_snapshot raft_kv.Disk.Loading.scan_log
    raft_kv.Disk.Loading.scanned
opened_empty-opened = refl

history-Reopens_example : Reopened tables plain finish (log_history calls empty_log)
history-Reopens_example =
    history-Reopens tables plain [] opened_empty finish calls (λ k. refl) (table_Readable [])
      opened_empty-opened calls-AllowedAll calls-ok (table_Readable finish.db)

-- Opened again, from its tail.
tail_there : tables.get finish.db tail_key ≡ ok (some (encode_tail 3 2))
unfolding raft_kv.Disk.save_hard_state raft_kv.Disk.append_batch raft_kv.Disk.entry_puts
    raft_kv.Disk.truncate_suffix raft_kv.Disk.cut raft_kv.Disk.get_term raft_kv.Disk.get
    raft_kv.Disk.read_entry raft_kv.Disk.decode_entry raft_kv.Disk.compact_applied
    raft_kv.Disk.persist_snapshot raft_kv.Disk.stage_snapshot_install raft_kv.Disk.deletions
    encode_tail raft_kv.Disk.index_to_key raft_kv.BigEndian.write_u64 raft_kv.BigEndian.big_endian
    raft_kv.BigEndian.read_u64 same_bytes raft_kv.Store.Tables.change_all
    raft_kv.Store.Tables.change_table raft_kv.Store.Tables.without encode_hard_state
    raft_kv.Disk.write_le32
tail_there = refl

finish-opened : open_log tables plain finish.db ≡ ok finish
unfolding raft_kv.Disk.save_hard_state raft_kv.Disk.append_batch raft_kv.Disk.entry_puts
    raft_kv.Disk.truncate_suffix raft_kv.Disk.cut raft_kv.Disk.get_term raft_kv.Disk.get
    raft_kv.Disk.read_entry raft_kv.Disk.decode_entry raft_kv.Disk.compact_applied
    raft_kv.Disk.persist_snapshot raft_kv.Disk.stage_snapshot_install raft_kv.Disk.deletions
    encode_tail raft_kv.Disk.index_to_key raft_kv.BigEndian.write_u64 raft_kv.BigEndian.big_endian
    raft_kv.BigEndian.read_u64 same_bytes raft_kv.Store.Tables.change_all
    raft_kv.Store.Tables.change_table raft_kv.Store.Tables.without encode_hard_state
    raft_kv.Disk.write_le32 open_log raft_kv.Disk.Loading.load_snapshot
    raft_kv.Disk.Loading.snapshot_of raft_kv.Disk.Loading.load_tail raft_kv.Disk.Loading.check_tail
    raft_kv.Disk.Loading.verify_suffix
finish-opened = refl

open_log-Checked_example : Checked tables plain finish.db finish
open_log-Checked_example =
    open_log-Checked tables plain finish.db (encode_tail 3 2) finish tail_there finish-opened

decode_hard_state-encode_hard_state_example :
    decode_hard_state (encode_hard_state (record { term = 70000; voted_for = some 300 }))
    ≡ ok (record { term = 70000; voted_for = some 300 })
decode_hard_state-encode_hard_state_example =
    decode_hard_state-encode_hard_state 70000 (some 300) (omega arith) (omega arith)
