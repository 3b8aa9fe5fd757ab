-- ===== src/Disk/Reading.antt =====
-- What the reads of src/raftcore/raft_log.cc return.
use raft_kv.Base.{
  ℕ, suc, ◌+◌, ◌-◌, ◌≤◌, ◌<◌, ◌≡◌, refl, sym, ◌∙◌, ap, true, ◌||◌, Option, none, some, ◌==◌, leb,
  ltb, Bytes, arith, Bool-cases, inl, inr,
}
use raft_kv.Outcome.{ok, and_then, and_then-eq-ok}
use raft_kv.Log.{Log, Entry, Snapshot, last_index}
use raft_kv.Log.Terms.{get_elem?-some}
use raft_kv.Store.{Database}
use raft_kv.Disk.{Encoding, index_to_key, RaftLog, decode_entry, read_entry, get, get_term}
use raft_kv.Disk.Layout.{IsRanged, Stands, nth-Stored}

module _ (D : Database) (P : Encoding) where
  pub decode_entry_lem :
      (index : ℕ) (e : Entry) (b : Bytes)
      → e.index ≡ index
      → 0 < e.term
      → P.serialize e ≡ some b
      → decode_entry D P index b ≡ ok e
  unfolding decode_entry
  decode_entry_lem index e b place positive made =
      let parsed = P.parse_law e b made in
      rw (parsed, decode_entry) (ground (arith, place, positive))

  -- An entry that is stored under its index is read, where the database returns a value.
  pub read_entry_lem :
      (s : D.State) (index : ℕ) (e : Entry) (b : Bytes) (v : Option Bytes)
      → e.index ≡ index
      → 0 < e.term
      → P.serialize e ≡ some b
      → D.contents s (index_to_key index) ≡ some b
      → D.get s (index_to_key index) ≡ ok v
      → read_entry D P s index ≡ ok e
  unfolding read_entry
  read_entry_lem s index e b v place positive made there got =
      let held = D.get_law s (index_to_key index) v got ∙ there in
      rw (got, held) (decode_entry_lem index e b place positive made)

  read_entry_got :
      (s : D.State) (i : ℕ) (x : Entry)
      → read_entry D P s i ≡ ok x
      → (v : Option Bytes) × (D.get s (index_to_key i) ≡ ok v)
  unfolding read_entry
  read_entry_got s i x h =
      let (v, got, rest) = and_then-eq-ok (D.get s (index_to_key i)) _ h in (v, got)

  module _ (o : RaftLog D P) (l : Log) (ranged : IsRanged l) (h : Stands D P o l) (i : ℕ) where
    -- A read that the database answers returns the entry of the index.
    pub get_returns :
        (v : Option Bytes)
        → D.get o.db (index_to_key i) ≡ ok v
        → get D P i o ≡ ok (raft_kv.Log.get l i)
    unfolding get raft_kv.Log.get
    get_returns v got =
        let last = h.last_index_lem in
        let snap = h.snapshot_lem in
        elim (Bool-cases (leb i l.snapshot.index || ltb (last_index l) i)) [
          | inl out ↦ rw (snap, last, out) refl
          | inr within ↦
              let low : l.snapshot.index < i = ground (arith, within) in
              let up : i ≤ last_index l = ground (arith, within) in
              let (e, at) = get_elem?-some l.entries (i - l.snapshot.index - 1) (omega arith) in
              let (b, made, there, place, positive) =
                nth-Stored P (D.contents o.db) l.snapshot.index l.entries (i - l.snapshot.index - 1)
                  e ranged.chained h.lays.stored at in
              let here : suc l.snapshot.index + (i - l.snapshot.index - 1) ≡ i = omega arith in
              let read =
                read_entry_lem o.db i e b v (place ∙ here) positive made (rw here at there) got in
              rw (snap, last, within, at, read) refl
        ]

    pub get_sound : (r : Option Entry) → get D P i o ≡ ok r → r ≡ raft_kv.Log.get l i
    unfolding get raft_kv.Log.get
    get_sound r e = elim (Bool-cases (leb i o.snapshot.index || ltb o.last_index i)) [
      | inl out ↦
          let same : none ≡ r = ground (arith, e, out) in
          let there : (leb i l.snapshot.index || ltb (last_index l) i) ≡ true =
            rw (h.snapshot_lem, h.last_index_lem) at out in
          rw there (sym same)
      | inr within ↦
          let step : and_then (read_entry D P o.db i) (λ e. ok (some e)) ≡ ok r =
            ground (arith, e, within) in
          let (x, read, made) = and_then-eq-ok (read_entry D P o.db i) _ step in
          let (v, got) = read_entry_got o.db i x read in
          let both : ok (raft_kv.Log.get l i) ≡ ok r = sym (get_returns v got) ∙ e in cc (both)
    ]

    snap_index : o.snapshot.index ≡ l.snapshot.index
    snap_index = ap (λ (x : Snapshot). x.index) h.snapshot_lem

    snap_term : o.snapshot.term ≡ l.snapshot.term
    snap_term = ap (λ (x : Snapshot). x.term) h.snapshot_lem

    term_of :
        (e : Option Entry)
        → e ≡ raft_kv.Log.get l i
        → get D P i o ≡ ok e
        → get_term D P i o ≡ ok (raft_kv.Log.get_term l i)
    unfolding get_term raft_kv.Log.get_term
    term_of none same read =
        let there = sym same in rw (read, snap_index, snap_term, there) (ground arith)
    term_of (some e) same read =
        let there = sym same in rw (read, snap_index, snap_term, there) (ground arith)

    pub get_term_returns :
        (v : Option Bytes)
        → D.get o.db (index_to_key i) ≡ ok v
        → get_term D P i o ≡ ok (raft_kv.Log.get_term l i)
    get_term_returns v got = term_of (raft_kv.Log.get l i) refl (get_returns v got)

    -- A term that a read returns is the term of the index.
    pub get_term_sound : (r : Option ℕ) → get_term D P i o ≡ ok r → r ≡ raft_kv.Log.get_term l i
    unfolding get_term raft_kv.Log.get_term
    get_term_sound r e = elim (Bool-cases (i == 0 || leb i o.snapshot.index)) [
      | inl early ↦ ground (arith, early, e, snap_index, snap_term)
      | inr late ↦
          let step : and_then (get D P i o)
                (λ e. elim e [ none ↦ ok none | some e ↦ ok (some e.term) ])
              ≡ ok r =
            ground (arith, late, e) in
          let (x, read, made) = and_then-eq-ok (get D P i o) _ step in
          let both : ok (raft_kv.Log.get_term l i) ≡ ok r =
            sym (term_of x (get_sound x read) read) ∙ e in
          cc (both)
    ]
