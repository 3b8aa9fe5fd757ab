-- ===== src/Disk/Opening.antt =====
-- A log that a database holds is read back when the database is opened.
use raft_kv.Base.{
  ℕ, suc, ◌+◌, ◌-◌, ◌≤◌, ◌<◌, ◌≡◌, refl, sym, ◌∙◌, ap, true, Option, none, some, List, [], ◌∷◌,
  Bytes, same_bytes, same_bytes_refl, same_bytes_sound, ◌++◌, drop, drop-length, length-append,
  length, All, arith, ℕ_discrete, ◌==◌, if◌then◌else◌, Bool-cases, inl, inr, int32_max,
}
use raft_kv.Outcome.{ok}
use raft_kv.Log.{Log, Entry, Snapshot, last_index, last_term, term_after}
use raft_kv.Log.Entries.{Chained}
use raft_kv.Log.Rising.{Rising}
use raft_kv.Store.{Database, lookup}
use raft_kv.Disk.{
  snapshot_intent_key, encode_hard_state, first_field, second_field, Encoding, index_to_key,
  snapshot_meta_key, snapshot_data_key, tail_key, encode_tail, no_snapshot, RaftLog, read_entry,
}
use raft_kv.Disk.Keys.{
  first_field_lem, second_field_lem, length-encode_tail, tail_index, tail_term,
  decode_hard_state-encode_hard_state, index_not_name,
}
use raft_kv.Disk.Loading.{
  load_hard_state, load_pending_snapshot, snapshot_of, load_snapshot, check_tail, verify_suffix,
  load_tail, scan_log, scanned, open_log,
}
use raft_kv.Disk.Reading.{read_entry_lem}
use raft_kv.Disk.Layout.{IsRanged, Stored, IsFresh, IsPending, intent_value, Lays}

-- Every read and a scan succeed.
pub record Readable (D : Database) (s : D.State) : Type 0 where
  pub reads : (k : Bytes) → D.get s k ≡ ok (D.contents s k)
  pub scans : (es : List (Bytes × Bytes)) × (D.scan s ≡ ok es)

term_after_le :
    (bound t : ℕ) (es : List Entry)
    → t ≤ bound
    → All (λ (e : Entry). e.term ≤ bound) es
    → term_after t es ≤ bound
term_after_le bound t [] h hs = h
term_after_le bound t (e ∷ es) h (k, hs) = term_after_le bound e.term es k hs

module _ (D : Database) (P : Encoding) (s : D.State) (r : Readable D s) where
  read_at :
      (index : ℕ) (e : Entry) (b : Bytes)
      → e.index ≡ index
      → 0 < e.term
      → P.serialize e ≡ some b
      → D.contents s (index_to_key index) ≡ some b
      → read_entry D P s index ≡ ok e
  read_at index e b place positive made there =
      read_entry_lem D P s index e b (D.contents s (index_to_key index)) place positive made there
        (r.reads (index_to_key index))

  last_read :
      (base term : ℕ) (e : Entry) (es : List Entry)
      → Chained base (e ∷ es)
      → Stored P (D.contents s) base (e ∷ es)
      → (x : Entry) × (read_entry D P s (base + length (e ∷ es)) ≡ ok x)
        × (x.term ≡ term_after term (e ∷ es))
        × (0 < x.term)
  last_read base term e [] c ((b, made, there), h) =
      let place : suc base ≡ base + 1 = omega arith in
      (e, rw place at (read_at (suc base) e b c.0 c.1 made there), refl, c.1)
  last_read base term e (f ∷ es) c (first, h) =
      let place : suc base + length (f ∷ es) ≡ base + length (e ∷ f ∷ es) = omega arith in
      rw place at (last_read (suc base) e.term f es c.2 h)

  verified :
      (base term : ℕ) (es : List Entry)
      → Chained base es
      → Rising term es
      → Stored P (D.contents s) base es
      → verify_suffix D P s (length es) (base + 1) term ≡ ok tt
  unfolding verify_suffix
  verified base term [] c rising h = refl
  verified base term (e ∷ es) c rising ((b, made, there), h) =
      let place : suc base ≡ base + 1 = omega arith in
      let read : read_entry D P s (base + 1) ≡ ok e =
        rw place at (read_at (suc base) e b c.0 c.1 made there) in
      let rest : verify_suffix D P s (length es) (base + 1 + 1) e.term ≡ ok tt =
        rw place at (verified (suc base) e.term es c.2 rising.1 h) in
      rw (read, rest) (ground (arith, rising.0))

  -- The checks of a record that the log wrote.
  recorded :
      (l : Log) (meta : Bytes)
      → IsRanged l
      → 1 ≤ l.snapshot.index
      → 1 ≤ l.snapshot.term
      → length meta ≡ 16
      → first_field meta ≡ l.snapshot.index
      → second_field meta ≡ l.snapshot.term
      → D.contents s snapshot_meta_key ≡ some meta
      → D.contents s snapshot_data_key ≡ some l.snapshot.bytes
      → load_snapshot D P s ≡ ok l.snapshot
  unfolding load_snapshot snapshot_of
  recorded l meta ranged low positive size first second there data_there =
      let small = ranged.snapshot_bytes in
      let high = ranged.last in
      let narrow = ranged.snapshot_term in
      rw (r.reads snapshot_meta_key, there, r.reads snapshot_data_key, data_there)
        (ground (arith, low, positive, size, first, second, small, high, narrow))

  loaded_snapshot :
      (l : Log) → IsRanged l → Lays P (D.contents s) l → load_snapshot D P s ≡ ok l.snapshot
  unfolding load_snapshot
  loaded_snapshot l ranged lays = elim lays.snapshot [
    | inl (none_yet, absent) ↦
        let read : load_snapshot D P s ≡ ok no_snapshot =
          rw (r.reads snapshot_meta_key, absent) refl in
        read ∙ ap ok (sym none_yet)
    | inr (low, positive, meta, data_there) ↦
        let high = ranged.last in
        let narrow = ranged.snapshot_term in
        recorded l (encode_tail l.snapshot.index l.snapshot.term) ranged low positive
          (length-encode_tail l.snapshot.index l.snapshot.term)
          (tail_index l.snapshot.index l.snapshot.term (omega arith) (omega arith))
          (tail_term l.snapshot.index l.snapshot.term (omega arith) (omega arith)) meta data_there
  ]

  -- Without a snapshot, its fields are zeros.
  zeros : (l : Log) → Lays P (D.contents s) l → l.snapshot.index ≡ 0 → l.snapshot.term ≡ 0
  zeros l lays h = elim lays.snapshot [
    | inl (none_yet, absent) ↦ rw none_yet refl
    | inr (low, positive, meta, data_there) ↦ absurd (omega arith)
  ]

  checked_at :
      (h : Snapshot) (es : List Entry)
      → Chained h.index es
      → Stored P (D.contents s) h.index es
      → (h.index ≡ 0 → h.term ≡ 0)
      → check_tail D P s h (h.index + length es) (term_after h.term es) ≡ ok tt
  unfolding check_tail
  checked_at h [] c stored zero_term = elim (ℕ_discrete h.index 0) [
    | yes z ↦ let t = zero_term z in ground (arith, z, t)
    | no z ↦ ground (arith, z)
  ]
  checked_at h (e ∷ es) c stored zero_term =
      let (x, read, term, positive) = last_read h.index h.term e es c stored in
      rw read (ground (arith, term, positive))

  -- The term that the verification of the entries starts from.
  start_term :
      (l : Log)
      → Lays P (D.contents s) l
      → (if l.snapshot.index == 0 then 0 else l.snapshot.term) ≡ l.snapshot.term
  start_term l lays = elim (ℕ_discrete l.snapshot.index 0) [
    | yes z ↦ let t = zeros l lays z in ground (arith, z, t)
    | no z ↦ ground (arith, z)
  ]

  abbrev pub memory : Log → RaftLog D P
  memory l = record {
    db = s;
    last_index = last_index l;
    last_term = last_term l;
    snapshot = l.snapshot;
  }

  loaded_tail :
      (l : Log) (raw : Bytes)
      → IsRanged l
      → Lays P (D.contents s) l
      → length raw ≡ 16
      → first_field raw ≡ last_index l
      → second_field raw ≡ last_term l
      → last_term l ≤ int32_max
      → load_tail D P s l.snapshot raw ≡ ok (memory l)
  unfolding load_tail
  loaded_tail l raw ranged lays size first second narrow =
      let high = ranged.last in
      let checked = checked_at l.snapshot l.entries ranged.chained lays.stored (zeros l lays) in
      let through =
        verified l.snapshot.index l.snapshot.term l.entries ranged.chained ranged.rising
          lays.stored in
      let start = start_term l lays in
      let count : last_index l - l.snapshot.index ≡ length l.entries = omega arith in
      rw (first, second, start, count, checked, through) (ground (arith, size, high, narrow))

  -- A scan that meets only keys of the log itself finds no entry.
  scan_own :
      (es : List (Bytes × Bytes)) (last term : ℕ)
      → ((k v : Bytes) → lookup es k ≡ some v → same_bytes (index_to_key 0) k ≡ true)
      → scan_log D P es last term ≡ ok (last, term)
  unfolding scan_log
  scan_own [] last term own = refl
  scan_own ((k, v) ∷ es) last term own =
      let here = own k v (rw (same_bytes_refl k) refl) in
      let mine : same_bytes k (index_to_key 0) ≡ true =
        let same : index_to_key 0 ≡ k = same_bytes_sound (index_to_key 0) k here in
        rw same (same_bytes_refl k) in
      let rest = scan_own es last term λ j w at. elim (Bool-cases (same_bytes k j)) [
        | inl e ↦ let same : k ≡ j = same_bytes_sound k j e in rw same at here
        | inr e ↦ own j w (rw e at)
      ] in
      rw (mine, rest) refl

  fresh_own :
      (es : List (Bytes × Bytes)) (k v : Bytes)
      → D.scan s ≡ ok es
      → IsFresh (D.contents s)
      → lookup es k ≡ some v
      → same_bytes (index_to_key 0) k ≡ true
  fresh_own es k v scan_ok fresh at = elim (Bool-cases (same_bytes (index_to_key 0) k)) [
    | inl e ↦ e
    | inr e ↦
        let held = D.scan_law s es scan_ok k in let nothing = fresh k e in cc (held, nothing, at)
  ]

  -- A log that is laid out is what opening the database returns.
  pub open_log-memory :
      (l : Log) → IsRanged l → Lays P (D.contents s) l → open_log D P s ≡ ok (memory l)
  unfolding open_log scanned
  open_log-memory l ranged lays = elim lays.tail [
    | inl tail_there ↦
        let high = ranged.last in
        let low =
          term_after_le int32_max l.snapshot.term l.entries ranged.snapshot_term ranged.terms in
        let loaded = loaded_snapshot l ranged lays in
        let read =
          loaded_tail l (encode_tail (last_index l) (last_term l)) ranged lays
            (length-encode_tail (last_index l) (last_term l))
            (tail_index (last_index l) (last_term l) high (omega arith))
            (tail_term (last_index l) (last_term l) high (omega arith)) low in
        rw (loaded, r.reads tail_key, tail_there) read
    | inr (no_entries, no_snap, fresh) ↦
        let loaded = loaded_snapshot l ranged lays in
        let (es, scan_ok) = r.scans in
        let nothing = fresh tail_key (index_not_name 0 tail_key (omega arith)) in
        let found_none =
          scan_own es l.snapshot.index l.snapshot.term
            λ k v at. fresh_own es k v scan_ok fresh at in
        rw (loaded, r.reads tail_key, nothing, scan_ok, found_none, no_entries, no_snap) refl
  ]

  -- The hard state is read, where one was saved.
  pub load_hard_state_lem :
      (l : Log)
      → IsRanged l
      → D.contents s (index_to_key 0) ≡ some (encode_hard_state l.hard)
      → load_hard_state D P (memory l) ≡ ok (some l.hard)
  unfolding load_hard_state
  load_hard_state_lem l ranged there =
      let read =
        decode_hard_state-encode_hard_state l.hard.term l.hard.voted_for ranged.hard_term
          ranged.vote in
      rw (r.reads (index_to_key 0), there, read) refl

  pub load_hard_state-none :
      (l : Log)
      → D.contents s (index_to_key 0) ≡ none
      → last_index l ≡ 0
      → load_hard_state D P (memory l) ≡ ok none
  unfolding load_hard_state
  load_hard_state-none l absent short =
      rw (r.reads (index_to_key 0), absent) (ground (arith, short))

  pending_of :
      (l : Log) (p : Option Snapshot)
      → IsPending l.snapshot.index p
      → D.contents s snapshot_intent_key ≡ intent_value p
      → load_pending_snapshot D P (memory l) ≡ ok p
  unfolding load_pending_snapshot
  pending_of l none h there = rw (r.reads snapshot_intent_key, there) refl
  pending_of l (some p) (beyond, high, positive, narrow, small) there =
      let head = encode_tail p.index p.term in
      let size : length (head ++ p.bytes) ≡ 16 + length p.bytes =
        omega (arith, length-append head p.bytes, length-encode_tail p.index p.term) in
      let first = first_field_lem p.index p.term p.bytes high (omega arith) in
      let second = second_field_lem p.index p.term p.bytes high (omega arith) in
      let body : drop 16 (head ++ p.bytes) ≡ p.bytes =
        drop-length head p.bytes 16 (sym (length-encode_tail p.index p.term)) in
      rw (r.reads snapshot_intent_key, there, size, first, second, body)
        (ground (arith, beyond, high, positive, narrow, small))

  -- The snapshot whose installation is pending is read.
  pub load_pending_snapshot_lem :
      (l : Log)
      → IsRanged l
      → Lays P (D.contents s) l
      → load_pending_snapshot D P (memory l) ≡ ok l.intent
  load_pending_snapshot_lem l ranged lays = pending_of l l.intent ranged.pending lays.intent
