-- ===== src/Store.antt =====
-- src/storage/rocksdb_store.{h,cpp}: the key-value store over RocksDB, which is a parameter.
pub mod Batches
pub mod Tables
use raft_kv.Base.{
  ℕ, zero, suc, ◌+◌, ◌-◌, ◌≡◌, Bool, true, false, not, ◌&&◌, ◌||◌, Option, none, some, List, [],
  ◌∷◌, ◌++◌, Bytes, codes, same_bytes, ltb, ◌==◌, if◌then◌else◌, length, int64_max,
}
use raft_kv.Outcome.{
  Result, ok, err, and_then, storage_failure, out_of_order_application, session_collision,
  contains_applied, corrupt_store, snapshot_backwards,
}
use raft_kv.BigEndian.{write_u64, read_u64}

-- A change of a write batch.
pub data Change : Type 0 where
  put : Bytes → Bytes → Change
  delete : Bytes → Change

-- The contents of a database, by key.
abbrev pub Contents : Type 0
Contents = Bytes → Option Bytes

abbrev pub change : Change → Contents → Contents
change (put k v) m j = if same_bytes k j then some v else m j
change (delete k) m j = if same_bytes k j then none else m j

abbrev pub replay : List Change → Contents → Contents
replay [] m = m
replay (c ∷ cs) m = replay cs (change c m)

abbrev pub lookup : List (Bytes × Bytes) → Contents
lookup [] k = none
lookup ((key, value) ∷ es) k = if same_bytes key k then some value else lookup es k

-- What is used of RocksDB: reading a key, writing a batch in one step, and a scan; each may fail, and
-- a failed write changes nothing.
pub record Database : Type 1 where
  pub State : Type 0
  pub contents : State → Contents
  pub get : State → Bytes → Result (Option Bytes)
  pub write : State → List Change → Result State
  pub scan : State → Result (List (Bytes × Bytes))
  -- a read that succeeds returns what is held
  pub get_law : (s : State) (k : Bytes) (v : Option Bytes) → get s k ≡ ok v → v ≡ contents s k
  -- a batch that is written has been applied in its order
  pub write_law :
      (s t : State) (cs : List Change)
      → write s cs ≡ ok t
      → (k : Bytes) → contents t k ≡ replay cs (contents s) k
  -- a scan lists what is held
  pub scan_law :
      (s : State) (es : List (Bytes × Bytes))
      → scan s ≡ ok es
      → (k : Bytes) → lookup es k ≡ contents s k

-- `Mutation`; an empty session key is no session update.
pub data Kind : Type 0 where
  put_kind delete_kind noop_kind : Kind

pub record Mutation : Type 0 where
  pub index : ℕ
  pub kind : Kind
  pub key : Bytes
  pub value : Bytes
  pub session_key : Bytes
  pub session_value : Bytes

abbrev pub applied_key : Bytes
applied_key = 0 ∷ codes "raftkv:last_applied"

-- The first loop of `ApplyBatch`: the last index.
unfoldable pub check_order : ℕ → List Mutation → Result ℕ
check_order last [] = ok last
check_order last (m ∷ ms) =
    let rest = check_order m.index ms in
    if last == int64_max || not (m.index == last + 1) then err out_of_order_application else rest

-- The local variables of `ApplyBatch`.
pub record Batch : Type 0 where
  pub changes : List Change
  pub present : Bytes → Option Bool
  pub existed : List Bool

abbrev pub empty_batch : Batch
empty_batch = record { changes = []; present = λ k. none; existed = [] }

abbrev pub is_some {ℓ} : {A : Type ℓ} → Option A → Bool
is_some none = false
is_some (some a) = true

abbrev pub update_bytes {ℓ} : {A : Type ℓ} → (Bytes → Option A) → Bytes → A → Bytes → Option A
update_bytes f k a j = if same_bytes k j then some a else f j

-- The update of the client's session, in the same batch.
unfoldable pub add_session : Mutation → Batch → Result Batch
add_session m b =
    if length m.session_key == 0
    then ok b
    else if same_bytes m.session_key applied_key
    then err session_collision
    else ok (record b {
      changes = b.changes ++ put m.session_key m.session_value ∷ [];
      present = update_bytes b.present m.session_key true;
    })

unfoldable pub delete_found : Mutation → Bool → Batch → Batch
delete_found m found b = record {
  changes = b.changes ++ delete m.key ∷ [];
  present = update_bytes b.present m.key false;
  existed = b.existed ++ found ∷ [];
}

module _ (D : Database) where
  -- What is known of a key: from the batch, or else from the database.
  unfoldable pub find_present : D.State → Bytes → (Bytes → Option Bool) → Result Bool
  find_present s k present = elim (present k) [
    | some b ↦ ok b
    | none ↦ and_then (D.get s k) λ v. ok (is_some v)
  ]

  -- The switch of the second loop.
  unfoldable pub add_kind : D.State → Kind → Mutation → Batch → Result Batch
  add_kind s put_kind m b = ok (record {
    changes = b.changes ++ put m.key m.value ∷ [];
    present = update_bytes b.present m.key true;
    existed = b.existed ++ false ∷ [];
  })
  add_kind s delete_kind m b =
      and_then (find_present s m.key b.present) λ found. ok (delete_found m found b)
  add_kind s noop_kind m b = ok (record b { existed = b.existed ++ false ∷ [] })

  unfoldable pub add_mutations : D.State → List Mutation → Batch → Result Batch
  add_mutations s [] b = ok b
  add_mutations s (m ∷ ms) b =
      and_then (add_kind s m.kind m b) λ c. and_then (add_session m c) λ d. add_mutations s ms d

  pub record Store : Type 0 where
    pub db : D.State
    pub last_applied : ℕ

  unfoldable pub write_batch : ℕ → Batch → Store → Result (Store × List Bool)
  write_batch last b s =
      and_then (D.write s.db (b.changes ++ put applied_key (write_u64 last) ∷ []))
        λ db. ok (record { db = db; last_applied = last }, b.existed)

  unfoldable pub apply_mutations : List Mutation → Store → Result (Store × List Bool)
  apply_mutations [] s = ok (s, [])
  apply_mutations (m ∷ ms) s =
      and_then (check_order s.last_applied (m ∷ ms))
        λ last. and_then (add_mutations s.db (m ∷ ms) empty_batch) λ b. write_batch last b s

  -- `RocksDBStore`: the marker is read when the store is opened.
  unfoldable pub open_store : D.State → Result Store
  open_store s = and_then (D.get s applied_key) λ marker. elim marker [
    | none ↦
        and_then (D.scan s) λ es. elim es [
          | [] ↦ ok (record { db = s; last_applied = 0 })
          | _ ∷ _ ↦ err corrupt_store
        ]
    | some value ↦
        if not (length value == 8) || ltb int64_max (read_u64 0 value)
        then err corrupt_store
        else ok (record { db = s; last_applied = read_u64 0 value })
  ]

  unfoldable pub get_key : Store → Bytes → Result (Option Bytes)
  get_key s k = D.get s.db k

  -- The loop of `ExportEntries`.
  unfoldable pub client_entries : List (Bytes × Bytes) → List (Bytes × Bytes)
  client_entries [] = []
  client_entries ((key, value) ∷ es) =
      let rest = client_entries es in
      if same_bytes key applied_key then rest else (key, value) ∷ rest

  unfoldable pub export_entries : Store → Result (List (Bytes × Bytes))
  export_entries s = and_then (D.scan s.db) λ es. ok (client_entries es)

  -- The loops of `ReplaceAll`.
  unfoldable pub deletions : List (Bytes × Bytes) → List Change
  deletions [] = []
  deletions ((key, value) ∷ es) =
      let rest = deletions es in if same_bytes key applied_key then rest else delete key ∷ rest

  unfoldable pub additions : List (Bytes × Bytes) → Result (List Change)
  additions [] = ok []
  additions ((key, value) ∷ es) =
      let rest = additions es in
      if same_bytes key applied_key
      then err contains_applied
      else and_then rest λ cs. ok (put key value ∷ cs)

  unfoldable pub write_entries :
      ℕ → List (Bytes × Bytes) → Result (Unit {0}) → Store → List Change → Result Store
  write_entries index old after_validation s added = and_then after_validation λ _.
      and_then (D.write s.db (deletions old ++ added ++ put applied_key (write_u64 index) ∷ []))
        λ db. ok (record { db = db; last_applied = index })

  -- `ReplaceAll`; the callback is what it returns or throws.
  unfoldable pub replace_all : ℕ → List (Bytes × Bytes) → Result (Unit {0}) → Store → Result Store
  replace_all index entries after_validation s =
      let replaced = and_then (D.scan s.db) λ old.
        and_then (additions entries) λ added. write_entries index old after_validation s added in
      if ltb index s.last_applied then err snapshot_backwards else replaced
