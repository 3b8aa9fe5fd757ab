-- ===== src/Disk/Layout.antt =====
-- How the database of a log lays it out.
use raft_kv.Base.{
  ℕ, zero, suc, ◌+◌, ◌≤◌, ◌<◌, ◌≡◌, refl, ◌∙◌, false, Option, none, some, List, [], ◌∷◌, ◌++◌, ◌⊎◌,
  inl, inr, Bytes, same_bytes, length, get_elem?, take, drop, All, arith, int32_max, int64_max,
}
use raft_kv.Log.{Log, Entry, Snapshot, last_index, last_term, max_snapshot_bytes}
use raft_kv.Log.Entries.{Chained}
use raft_kv.Log.Rising.{Rising}
use raft_kv.Store.{Contents, Change, put, delete, change, replay, Database}
use raft_kv.Disk.{
  Encoding, index_to_key, snapshot_meta_key, snapshot_data_key, tail_key, snapshot_intent_key,
  encode_tail, encode_hard_state, no_snapshot, RaftLog, deletions,
}
use raft_kv.Disk.Keys.{IsVote, index_not_index, index_not_name}

-- A snapshot whose installation is pending is beyond the log's own.
abbrev pub IsPending : ℕ → Option Snapshot → Type 0
IsPending base none = Unit
IsPending base (some s) =
    (base < s.index)
    × (s.index ≤ int64_max)
    × (1 ≤ s.term)
    × (s.term ≤ int32_max)
    × (length s.bytes ≤ max_snapshot_bytes)

-- The bounds that the source's types and its checks set.
pub record IsRanged (l : Log) : Type 0 where
  pub chained : Chained l.snapshot.index l.entries
  pub rising : Rising l.snapshot.term l.entries
  pub terms : All (λ (e : Entry). e.term ≤ int32_max) l.entries
  pub last : last_index l ≤ int64_max
  pub snapshot_term : l.snapshot.term ≤ int32_max
  pub snapshot_bytes : length l.snapshot.bytes ≤ max_snapshot_bytes
  pub hard_term : l.hard.term ≤ int32_max
  pub vote : IsVote l.hard.voted_for
  pub pending : IsPending l.snapshot.index l.intent

module _ (P : Encoding) where
  -- Entries stand under the indices that follow `base`.
  abbrev pub Stored : Contents → ℕ → List Entry → Type 0
  Stored c base [] = Unit
  Stored c base (e ∷ es) =
      ((b : Bytes) × (P.serialize e ≡ some b) × (c (index_to_key (suc base)) ≡ some b))
      × Stored c (suc base) es

  pub Stored-agree :
      (c d : Contents) (base : ℕ) (es : List Entry)
      → ((i : ℕ) → base < i → i ≤ base + length es → d (index_to_key i) ≡ c (index_to_key i))
      → Stored c base es
      → Stored d base es
  Stored-agree c d base [] same h = tt
  Stored-agree c d base (e ∷ es) same ((b, made, there), h) = (
    (b, made, same (suc base) (omega arith) (omega arith) ∙ there),
    Stored-agree c d (suc base) es (λ i low high. same i (omega arith) (omega arith)) h,
  )

  pub Stored-append :
      (c : Contents) (base : ℕ) (es fs : List Entry)
      → Stored c base es
      → Stored c (base + length es) fs
      → Stored c base (es ++ fs)
  Stored-append c base [] fs h k = let e : base + 0 ≡ base = omega arith in rw e at k
  Stored-append c base (e ∷ es) fs h k =
      let moved : base + suc (length es) ≡ suc base + length es = omega arith in
      (h.0, Stored-append c (suc base) es fs h.1 (rw moved at k))

  pub Stored-take :
      (c : Contents) (k base : ℕ) (es : List Entry) → Stored c base es → Stored c base (take k es)
  Stored-take c zero base es h = tt
  Stored-take c (suc k) base [] h = tt
  Stored-take c (suc k) base (e ∷ es) h = (h.0, Stored-take c k (suc base) es h.1)

  pub Stored-drop :
      (c : Contents) (k base : ℕ) (es : List Entry)
      → k ≤ length es
      → Stored c base es
      → Stored c (base + k) (drop k es)
  Stored-drop c zero base es le h = let e : base ≡ base + 0 = omega arith in rw e at h
  Stored-drop c (suc k) base [] le h = absurd (omega arith)
  Stored-drop c (suc k) base (e ∷ es) le h =
      let moved : suc base + k ≡ base + suc k = omega arith in
      rw moved at (Stored-drop c k (suc base) es (omega arith) h.1)

  -- The value of an entry.
  pub nth-Stored :
      (c : Contents) (base : ℕ) (es : List Entry) (n : ℕ) (e : Entry)
      → Chained base es
      → Stored c base es
      → get_elem? es n ≡ some e
      → (b : Bytes) × (P.serialize e ≡ some b)
        × (c (index_to_key (suc base + n)) ≡ some b)
        × (e.index ≡ suc base + n)
        × (0 < e.term)
  nth-Stored c base [] n e chain h at = cc
  nth-Stored c base (x ∷ xs) zero e chain ((b, made, there), h) at =
      let same : x ≡ e = cc (at) in
      let place : suc base + 0 ≡ suc base = omega arith in
      rw place (b, rw same at made, there, rw same at chain.0, rw same at chain.1)
  nth-Stored c base (x ∷ xs) (suc n) e chain (first, h) at =
      let place : suc (suc base) + n ≡ suc base + suc n = omega arith in
      rw place at (nth-Stored c (suc base) xs n e chain.2 h at)

-- Nothing but a hard state has been written.
abbrev pub IsFresh : Contents → Type 0
IsFresh c = (k : Bytes) → same_bytes (index_to_key 0) k ≡ false → c k ≡ none

abbrev pub intent_value : Option Snapshot → Option Bytes
intent_value none = none
intent_value (some s) = some (encode_tail s.index s.term ++ s.bytes)

-- The contents of a database that hold a log.
pub record Lays (P : Encoding) (c : Contents) (l : Log) : Type 0 where
  pub stored : Stored P c l.snapshot.index l.entries
  pub snapshot :
      ((l.snapshot ≡ no_snapshot) × (c snapshot_meta_key ≡ none))
      ⊎ ((1 ≤ l.snapshot.index)
          × (1 ≤ l.snapshot.term)
          × (c snapshot_meta_key ≡ some (encode_tail l.snapshot.index l.snapshot.term))
          × (c snapshot_data_key ≡ some l.snapshot.bytes))
  pub tail :
      (c tail_key ≡ some (encode_tail (last_index l) (last_term l)))
      ⊎ ((l.entries ≡ []) × (l.snapshot ≡ no_snapshot) × IsFresh c)
  pub hard :
      (c (index_to_key 0) ≡ some (encode_hard_state l.hard))
      ⊎ ((c (index_to_key 0) ≡ none) × (l.hard ≡ record { term = 0; voted_for = none }))
  pub intent : c snapshot_intent_key ≡ intent_value l.intent

-- An open log that stands for a log.
pub record Stands (D : Database) (P : Encoding) (o : RaftLog D P) (l : Log) : Type 0 where
  pub lays : Lays P (D.contents o.db) l
  pub last_index_lem : o.last_index ≡ last_index l
  pub last_term_lem : o.last_term ≡ last_term l
  pub snapshot_lem : o.snapshot ≡ l.snapshot

-- Changes that leave a key as it is.
abbrev pub Untouched : Bytes → List Change → Type 0
Untouched k [] = Unit
Untouched k (put j v ∷ cs) = (same_bytes j k ≡ false) × Untouched k cs
Untouched k (delete j ∷ cs) = (same_bytes j k ≡ false) × Untouched k cs

pub replay-Untouched :
    (k : Bytes) (cs : List Change) (c : Contents) → Untouched k cs → replay cs c k ≡ c k
replay-Untouched k [] c h = refl
replay-Untouched k (put j v ∷ cs) c (apart, h) =
    replay-Untouched k cs (change (put j v) c) h ∙ (rw apart refl)
replay-Untouched k (delete j ∷ cs) c (apart, h) =
    replay-Untouched k cs (change (delete j) c) h ∙ (rw apart refl)

pub replay_last :
    (cs ds : List Change) (c : Contents) → replay (cs ++ ds) c ≡ replay ds (replay cs c)
replay_last [] ds c = refl
replay_last (x ∷ xs) ds c = replay_last xs ds (change x c)

pub deletions_name :
    (name : Bytes) (from count : ℕ) → 9 ≤ length name → Untouched name (deletions from count)
unfolding deletions
deletions_name name from zero h = tt
deletions_name name from (suc count) h =
    (index_not_name from name h, deletions_name name (from + 1) count h)

pub deletions_index :
    (i from count : ℕ)
    → i ≤ int64_max
    → from + count ≤ int64_max + 1
    → i < from ⊎ from + count ≤ i
    → Untouched (index_to_key i) (deletions from count)
unfolding deletions
deletions_index i from zero low high apart = tt
deletions_index i from (suc count) low high apart = (
  index_not_index from i (omega arith) low
      λ e. elim apart [ inl a ↦ omega arith | inr a ↦ omega arith ],
  deletions_index i (from + 1) count low (omega arith)
      (elim apart [ inl a ↦ inl (omega arith) | inr a ↦ inr (omega arith) ]),
)
