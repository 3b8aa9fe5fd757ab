-- ===== src/Disk/Checking.antt =====
-- A log that opens has its entries, whatever the database holds.
use raft_kv.Base.{
  ℕ, zero, suc, ◌+◌, ◌-◌, ◌≤◌, ◌<◌, ◌≡◌, refl, sym, subst, some, Bytes, arith, Bool-cases,
  Option-cases, ℕ_discrete, inl, inr, ◌==◌, if◌then◌else◌, ◌||◌, not, ◌&&◌, ◌-◌, ◌⊎◌,
}
use raft_kv.Outcome.{Result, ok, err, and_then, and_then-eq-ok, corrupt_log}
use raft_kv.Log.{Entry, Snapshot}
use raft_kv.Store.{Database}
use raft_kv.Disk.{
  Encoding, index_to_key, tail_key, first_field, second_field, found, RaftLog, decode_entry,
  read_entry,
}
use raft_kv.Disk.Loading.{load_snapshot, check_tail, verify_suffix, load_tail, open_log}

module _ (D : Database) (P : Encoding) (s : D.State) where
  decoded_entry :
      (index : ℕ) (b : Bytes) (e : Entry)
      → decode_entry D P index b ≡ ok e
      → (e.index ≡ index) × (1 ≤ e.term)
  unfolding decode_entry
  decoded_entry index b e h = elim (Option-cases (P.parse b)) [
    | inl f ↦ absurd (ground (arith, h, f))
    | inr (x, f) ↦
        let same : x ≡ e = ground (arith, h, f) in
        (ground (arith, h, f, same), ground (arith, h, f, same))
  ]

  -- An entry that is read stands at its index, in a term.
  read_entry_checked :
      (index : ℕ) (e : Entry) → read_entry D P s index ≡ ok e → (e.index ≡ index) × (1 ≤ e.term)
  unfolding read_entry
  read_entry_checked index e h =
      let (v, got, rest) = and_then-eq-ok (D.get s (index_to_key index)) _ h in
      let (b, there, decoded) = and_then-eq-ok (found v) _ rest in decoded_entry index b e decoded

  verify_suffix_lem :
      (count base term : ℕ)
      → verify_suffix D P s count (base + 1) term ≡ ok tt
      → (i : ℕ) → base < i
      → i ≤ base + count
      → (e : Entry) × (read_entry D P s i ≡ ok e) × (term ≤ e.term)
  unfolding verify_suffix
  verify_suffix_lem zero base term h i low up = absurd (omega arith)
  verify_suffix_lem (suc count) base term h i low up =
      let (e, read, step) = and_then-eq-ok (read_entry D P s (base + 1)) _ h in
      let rising : term ≤ e.term = ground (arith, step) in
      elim (ℕ_discrete i (base + 1)) [
        | yes same ↦ (e, subst (λ j. read_entry D P s j ≡ ok e) (sym same) read, rising)
        | no other ↦
            let rest : verify_suffix D P s count (base + 1 + 1) e.term ≡ ok tt =
              ground (arith, step) in
            let (f, there, above) =
              verify_suffix_lem count (base + 1) e.term rest i (omega arith) (omega arith) in
            (f, there, omega arith)
      ]

-- The log that opened, and the entries that the database has for it.
pub record Checked (D : Database) (P : Encoding) (s : D.State) (o : RaftLog D P) : Type 0 where
  pub same : o.db ≡ s
  pub order : o.snapshot.index ≤ o.last_index
  pub entries :
      (i : ℕ)
      → o.snapshot.index < i
      → i ≤ o.last_index
      → (e : Entry) × (read_entry D P s i ≡ ok e) × (e.index ≡ i) × (1 ≤ e.term)
  pub ends :
      ((o.last_index ≡ o.snapshot.index) × (o.last_term ≡ o.snapshot.term ⊎ o.last_index ≡ 0))
      ⊎ ((e : Entry) × (read_entry D P s o.last_index ≡ ok e) × (e.term ≡ o.last_term))

module _ (D : Database) (P : Encoding) (s : D.State) where
  check_tail_lem :
      (h : Snapshot) (index term : ℕ)
      → check_tail D P s h index term ≡ ok tt
      → (h.index ≤ index)
        × (((index ≡ h.index) × (term ≡ h.term ⊎ index ≡ 0))
            ⊎ ((e : Entry) × (read_entry D P s index ≡ ok e) × (e.term ≡ term)))
  unfolding check_tail
  check_tail_lem h index term c = elim (Bool-cases (index == 0 || index == h.index)) [
    | inl early ↦ elim (ℕ_discrete index 0) [
      | yes z ↦ (ground (arith, c, z), inl (ground (arith, c, z), inr z))
      | no z ↦ (
        ground (arith, c, z, early),
        inl (ground (arith, c, z, early), inl (ground (arith, c, z, early))),
      )
    ]
    | inr late ↦
        let step : ◌≡◌ {A = Result (Unit {0})}
            (and_then (read_entry D P s index)
              λ e. if e.term == term && not (term == 0) then ok tt else err corrupt_log)
            (ok tt) =
          ground (arith, c, late) in
        let (e, read, rest) = and_then-eq-ok (read_entry D P s index) _ step in
        let above : h.index ≤ index = ground (arith, c, late) in
        let last : e.term ≡ term = ground (arith, rest) in (above, inr (e, read, last))
  ]

  load_tail-Checked :
      (h : Snapshot) (raw : Bytes) (o : RaftLog D P)
      → load_tail D P s h raw ≡ ok o
      → Checked D P s o
  unfolding load_tail
  load_tail-Checked h raw o e =
      let index = first_field raw in
      let term = second_field raw in
      let left : RaftLog D P = record {
        db = s;
        last_index = index;
        last_term = term;
        snapshot = h;
      } in
      let step : and_then (check_tail D P s h index term) (λ _.
        and_then
          (verify_suffix D P s (index - h.index) (h.index + 1) (if h.index == 0 then 0 else h.term))
          λ _. ok left)
          ≡ ok o =
        ground (arith, e) in
      let (u, tail_ok, rest) = and_then-eq-ok (check_tail D P s h index term) _ step in
      let (v, suffix_ok, made) =
        and_then-eq-ok
          (verify_suffix D P s (index - h.index) (h.index + 1) (if h.index == 0 then 0 else h.term))
          _ rest in
      let same : left ≡ o = cc (made) in
      let (order, ends) = check_tail_lem h index term tail_ok in
      subst (Checked D P s) same (record {
        same = refl;
        order = order;
        entries = λ i low up.
            let (e, read, above) =
              verify_suffix_lem D P s (index - h.index) h.index (if h.index == 0 then 0 else h.term)
                suffix_ok i low (omega arith) in
            let (place, positive) = read_entry_checked D P s i e read in (e, read, place, positive);
        ends = ends;
      })

  -- A log whose database holds a tail and that opens is whole, whatever else the database holds: the last
  -- index is not before the snapshot's, every index between them reads an entry of that index and a
  -- positive term, and the last entry's term is the last term; where there is no entry, the last term is
  -- the snapshot's, or the log is empty.
  pub open_log-Checked :
      (raw : Bytes) (o : RaftLog D P)
      → D.get s tail_key ≡ ok (some raw)
      → open_log D P s ≡ ok o
      → Checked D P s o
  unfolding open_log
  open_log-Checked raw o there h =
      let (snapshot, loaded, rest) = and_then-eq-ok (load_snapshot D P s) _ h in
      load_tail-Checked snapshot raw o (rw there at rest)
