-- ===== src/Kv/Examples.antt =====
-- A store of one entry.
use raft_kv.Base.{◌≡◌, refl, List, [], ◌∷◌, Bytes, arith}
use raft_kv.Codec.{write_before}
use raft_kv.Kv.{write_entries, export_snapshot, parse_snapshot, parsed}
use raft_kv.Kv.Snapshots.{parse_snapshot-export_snapshot}

abbrev one_entry : List (Bytes × Bytes)
one_entry = (7 ∷ [], 2 ∷ 3 ∷ []) ∷ []

abbrev exported : Bytes
exported = 0 ∷ 0 ∷ 0 ∷ 1 ∷ 0 ∷ 0 ∷ 0 ∷ 1 ∷ 7 ∷ 0 ∷ 0 ∷ 0 ∷ 2 ∷ 2 ∷ 3 ∷ []

parse_snapshot-export_snapshot_example : parse_snapshot exported ≡ parsed one_entry
unfolding export_snapshot write_entries write_before
parse_snapshot-export_snapshot_example =
    parse_snapshot-export_snapshot one_entry exported refl (omega arith)
