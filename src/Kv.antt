-- ===== src/Kv.antt =====
-- src/raft/kv_state_machine.cc: the bytes of a snapshot of the key-value store, as ExportSnapshot
-- writes and InstallSnapshot reads them. The store's own scan and replacement are RocksDB's.
pub mod Snapshots
pub mod Examples
use raft_kv.Base.{
  ℕ, zero, suc, ◌+◌, ◌-◌, ◌%◌, ◌^◌, Bool, ◌||◌, Option, none, some, List, [], ◌∷◌, ◌++◌, Bytes, ltb,
  ◌==◌, if◌then◌else◌, length, take, drop,
}
use raft_kv.Codec.{read_u32, write_u32}

abbrev pub uint32_max : ℕ
uint32_max = 2 ^ 32 - 1

-- The loop of `ExportSnapshot`; `none` is an exception.
unfoldable pub write_entries : List (Bytes × Bytes) → Option Bytes
write_entries [] = some []
write_entries ((key, value) ∷ es) =
    let rest = write_entries es in
    if ltb uint32_max (length key) || ltb uint32_max (length value) then none else elim rest [
      | none ↦ none
      | some bytes ↦
          some (write_u32 (length key) ++ key ++ write_u32 (length value) ++ value ++ bytes)
    ]

unfoldable pub export_snapshot : List (Bytes × Bytes) → Option Bytes
export_snapshot es = if ltb uint32_max (length es) then none else elim (write_entries es) [
  | none ↦ none
  | some bytes ↦ some (write_u32 (length es) ++ bytes)
]

-- `out_of_bounds` is a read past the end, which C++ leaves undefined.
pub data Parse : Type 0 where
  truncated trailing out_of_bounds : Parse
  parsed : List (Bytes × Bytes) → Parse

abbrev pub prepend : Bytes × Bytes → Parse → Parse
prepend e (parsed es) = parsed (e ∷ es)
prepend e p = p

-- `bytes.size() - offset < key_len + 4`, where the sum is one of 32 bits.
abbrev pub lacks_key : Bytes → ℕ → Bool
lacks_key bytes key_len = ltb (length bytes) ((key_len + 4) % 2 ^ 32)

-- The loop of `InstallSnapshot`, on the bytes behind the offset.
unfoldable pub read_entries : ℕ → Bytes → Parse
read_entries zero bytes = if length bytes == 0 then parsed [] else trailing
read_entries (suc count) bytes =
    let key_len = read_u32 bytes in
    let behind = drop 4 bytes in
    let at_value = drop key_len behind in
    let value_len = read_u32 at_value in
    let values = drop 4 at_value in
    let rest = read_entries count (drop value_len values) in
    if ltb (length bytes) 4
    then truncated
    else if lacks_key behind key_len
    then truncated
    else if ltb (length at_value) 4
    then out_of_bounds
    else if ltb (length values) value_len
    then truncated
    else prepend (take key_len behind, take value_len values) rest

-- What `InstallSnapshot` reads before it calls back and replaces the store.
unfoldable pub parse_snapshot : Bytes → Parse
parse_snapshot bytes =
    if ltb (length bytes) 4 then truncated else read_entries (read_u32 bytes) (drop 4 bytes)
