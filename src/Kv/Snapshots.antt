-- ===== src/Kv/Snapshots.antt =====
-- KVStateMachine: ExportSnapshot, read by InstallSnapshot.
use mathlib.Core.List.{append_assoc}
use raft_kv.Base.{
  ℕ, suc, ◌+◌, ◌^◌, ◌≤◌, ◌<◌, ◌≡◌, refl, ap, ◌∙◌, false, some, List, [], ◌∷◌, ◌++◌, Bytes, arith,
  inl, inr, Option-cases, ltb, length, length-append, take, drop,
}
use raft_kv.Log.{max_snapshot_bytes}
use raft_kv.Codec.{read_u32, write_u32, write_before}
use raft_kv.Codec.Words.{read_u32-write_u32}
use raft_kv.Kv.{
  write_entries, export_snapshot, parsed, prepend, lacks_key, read_entries, parse_snapshot,
}

take-append : (xs ys : Bytes) → take (length xs) (xs ++ ys) ≡ xs
take-append [] ys = refl
take-append (x ∷ xs) ys = ap (λ zs. x ∷ zs) (take-append xs ys)

drop-append : (xs ys : Bytes) → drop (length xs) (xs ++ ys) ≡ ys
drop-append [] ys = refl
drop-append (x ∷ xs) ys = drop-append xs ys

-- What the fields of the bytes are, decides what is read.
read_entry_of :
    (count : ℕ) (bytes at_value key value rest : Bytes)
    → read_u32 bytes ≡ length key
    → drop 4 bytes ≡ key ++ at_value
    → read_u32 at_value ≡ length value
    → drop 4 at_value ≡ value ++ rest
    → 4 ≤ length bytes
    → 4 ≤ length at_value
    → length key + 4 < 2 ^ 32
    → read_entries (suc count) bytes ≡ prepend (key, value) (read_entries count rest)
unfolding read_entries
read_entry_of count bytes at_value key value rest a b c d lo hi small =
    let behind = drop-append key at_value in
    let key' = take-append key at_value in
    let values = drop-append value rest in
    let value' = take-append value rest in
    let enough : ltb (length bytes) 4 ≡ false = ground arith in
    let has_key : lacks_key (key ++ at_value) (length key) ≡ false =
      ground (arith, length-append key at_value) in
    let inside : ltb (length at_value) 4 ≡ false = ground arith in
    let has_value : ltb (length (value ++ rest)) (length value) ≡ false =
      ground (arith, length-append value rest) in
    rw (enough, a, b, has_key, behind, inside, c, d, has_value, key', value', values, read_entries)
      refl

-- The bytes of an entry, and of what follows it.
abbrev entry_bytes : Bytes → Bytes → Bytes → Bytes
entry_bytes key value rest =
    write_u32 (length key) ++ (key ++ (write_u32 (length value) ++ (value ++ rest)))

read_entry :
    (count : ℕ) (key value rest : Bytes)
    → length key + 4 < 2 ^ 32
    → length value < 2 ^ 32
    → read_entries (suc count) (entry_bytes key value rest)
      ≡ prepend (key, value) (read_entries count rest)
unfolding write_before
read_entry count key value rest small fits =
    read_entry_of count (entry_bytes key value rest) (write_u32 (length value) ++ (value ++ rest))
      key value rest
      (read_u32-write_u32 (length key) (key ++ (write_u32 (length value) ++ (value ++ rest)))
        (omega arith))
      refl (read_u32-write_u32 (length value) (value ++ rest) fits) refl (omega arith) (omega arith)
      small

entry_bytes_lem :
    (key value rest : Bytes)
    → write_u32 (length key) ++ key ++ write_u32 (length value) ++ value ++ rest
      ≡ entry_bytes key value rest
entry_bytes_lem key value rest =
    append_assoc (write_u32 (length key) ++ key ++ write_u32 (length value)) value rest
    ∙ append_assoc (write_u32 (length key) ++ key) (write_u32 (length value)) (value ++ rest)
    ∙ append_assoc (write_u32 (length key)) key (write_u32 (length value) ++ (value ++ rest))

length-entry_bytes :
    (key value rest : Bytes)
    → length (entry_bytes key value rest) ≡ 8 + length key + length value + length rest
unfolding write_before
length-entry_bytes key value rest = omega (
  arith,
  length-append key (write_u32 (length value) ++ (value ++ rest)),
  length-append value rest,
)

-- The bytes of a list of entries are those of the first, and of the rest.
write_entries-cons :
    (key value : Bytes) (es : List (Bytes × Bytes)) (bytes : Bytes)
    → write_entries ((key, value) ∷ es) ≡ some bytes
    → (rest : Bytes) × (write_entries es ≡ some rest) × (bytes ≡ entry_bytes key value rest)
unfolding write_entries
write_entries-cons key value es bytes h = elim (Option-cases (write_entries es)) [
  | inl e ↦ absurd (grind (arith, e))
  | inr (rest, e) ↦
      let shape : bytes
          ≡ write_u32 (length key) ++ key ++ write_u32 (length value) ++ value ++ rest =
        grind (arith, e) in
      (rest, e, shape ∙ entry_bytes_lem key value rest)
]

empty_entries : (bytes : Bytes) → write_entries [] ≡ some bytes → read_entries 0 bytes ≡ parsed []
unfolding write_entries read_entries
empty_entries bytes h = let same : bytes ≡ [] = cc in rw same refl

read_entries-write_entries :
    (es : List (Bytes × Bytes)) (bytes : Bytes)
    → write_entries es ≡ some bytes
    → length bytes + 4 < 2 ^ 32
    → read_entries (length es) bytes ≡ parsed es
read_entries-write_entries [] bytes h small = empty_entries bytes h
read_entries-write_entries ((key, value) ∷ es) bytes h small =
    let (rest, e, shape) = write_entries-cons key value es bytes h in
    let size = length-entry_bytes key value rest in
    let same = ap length shape in
    let later = read_entries-write_entries es rest e (omega (arith, size, same)) in
    rw shape (
      read_entry (length es) key value rest (omega (arith, size, same)) (omega (arith, size, same))
      ∙ ap (prepend (key, value)) later)

-- What ExportSnapshot writes of the store's entries, when it is within the limit for snapshots,
-- InstallSnapshot reads back as the same entries in the same order.
pub parse_snapshot-export_snapshot :
    (es : List (Bytes × Bytes)) (bytes : Bytes)
    → export_snapshot es ≡ some bytes
    → length bytes ≤ max_snapshot_bytes
    → parse_snapshot bytes ≡ parsed es
unfolding export_snapshot parse_snapshot write_before
parse_snapshot-export_snapshot es bytes h fits = elim (Option-cases (write_entries es)) [
  | inl e ↦ absurd (grind (arith, e))
  | inr (rest, e) ↦
      let count : length es < 2 ^ 32 = grind arith in
      let shape : bytes ≡ write_u32 (length es) ++ rest = grind (arith, e) in
      let small : length rest + 4 < 2 ^ 32 = omega (arith, ap length shape) in
      let head = read_u32-write_u32 (length es) rest count in
      let long : ltb (length (write_u32 (length es) ++ rest)) 4 ≡ false = ground arith in
      rw (shape, long, head) (read_entries-write_entries es rest e small)
]
