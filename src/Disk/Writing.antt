-- ===== src/Disk/Writing.antt =====
-- What the writes of src/raftcore/raft_log.cc leave in the database.
use mathlib.Core.Path.{fun_ext}
use raft_kv.Base.{
  ℕ, suc, ◌+◌, ◌≤◌, ◌<◌, ◌≡◌, refl, ◌∙◌, ap, subst, true, false, none, some, List, [], ◌∷◌, ◌++◌,
  Bytes, same_bytes, same_bytes_refl, length, arith, Option-cases, inl, inr, ◌⊎◌, int64_max,
}
use raft_kv.Outcome.{ok, and_then, and_then-eq-ok}
use raft_kv.Log.{Log, Entry, HardState, term_after, consecutive}
use raft_kv.Store.{Contents, Change, put, delete, change, replay, Database}
use raft_kv.Disk.{
  Encoding, index_to_key, snapshot_meta_key, snapshot_data_key, tail_key, snapshot_intent_key,
  encode_tail, encode_hard_state, no_snapshot, put_tail, entry_puts,
}
use raft_kv.Disk.Keys.{
  index_not_index, index_not_name, name_not_index, tail-meta, tail-data, tail-intent,
}
use raft_kv.Disk.Layout.{
  IsRanged, Stored, Stored-agree, Lays, Untouched, replay-Untouched, replay_last,
}

pub written_contents :
    (D : Database) (s t : D.State) (cs : List Change)
    → D.write s cs ≡ ok t
    → D.contents t ≡ replay cs (D.contents s)
written_contents D s t cs h = fun_ext (D.write_law s t cs h)

pub Untouched-append :
    (k : Bytes) (cs ds : List Change) → Untouched k cs → Untouched k ds → Untouched k (cs ++ ds)
Untouched-append k [] ds h g = g
Untouched-append k (put j v ∷ cs) ds (apart, h) g = (apart, Untouched-append k cs ds h g)
Untouched-append k (delete j ∷ cs) ds (apart, h) g = (apart, Untouched-append k cs ds h g)

-- The last change of a batch decides its key.
pub put_last :
    (cs : List Change) (k v : Bytes) (c : Contents) → replay (cs ++ put k v ∷ []) c k ≡ some v
put_last cs k v c =
    ap (λ (m : Contents). m k) (replay_last cs (put k v ∷ []) c) ∙ (rw (same_bytes_refl k) refl)

pub put_tail_apart : (i index term : ℕ) → Untouched (index_to_key i) (put_tail index term ∷ [])
put_tail_apart i index term = (name_not_index i tail_key (omega arith), tt)

-- The parts of the layout that a change leaves as they are.
module _ (P : Encoding) (c d : Contents) (l : Log) (h : Lays P c l) where
  pub snapshot_kept :
      d snapshot_meta_key ≡ c snapshot_meta_key
      → d snapshot_data_key ≡ c snapshot_data_key
      → ((l.snapshot ≡ no_snapshot) × (d snapshot_meta_key ≡ none))
        ⊎ ((1 ≤ l.snapshot.index)
            × (1 ≤ l.snapshot.term)
            × (d snapshot_meta_key ≡ some (encode_tail l.snapshot.index l.snapshot.term))
            × (d snapshot_data_key ≡ some l.snapshot.bytes))
  snapshot_kept meta_same data_same = elim h.snapshot [
    | inl (none_yet, absent) ↦ inl (none_yet, meta_same ∙ absent)
    | inr (low, positive, there, data_there) ↦
        inr (low, positive, meta_same ∙ there, data_same ∙ data_there)
  ]

  pub hard_kept :
      d (index_to_key 0) ≡ c (index_to_key 0)
      → (d (index_to_key 0) ≡ some (encode_hard_state l.hard))
        ⊎ ((d (index_to_key 0) ≡ none) × (l.hard ≡ record { term = 0; voted_for = none }))
  hard_kept same = elim h.hard [
    | inl there ↦ inl (same ∙ there)
    | inr (absent, default) ↦ inr (same ∙ absent, default)
  ]

-- SaveHardState.
pub saved-Lays :
    (P : Encoding) (c : Contents) (l : Log) (hard : HardState)
    → IsRanged l
    → Lays P c l
    → Lays P (change (put (index_to_key 0) (encode_hard_state hard)) c) (record l { hard = hard })
saved-Lays P c l hard ranged h =
    let value = encode_hard_state hard in
    let other = λ (name : Bytes) (long : 9 ≤ length name).
      replay-Untouched name (put (index_to_key 0) value ∷ []) c (index_not_name 0 name long, tt) in
    let high = ranged.last in
    record {
      stored =
          Stored-agree P c (change (put (index_to_key 0) value) c) l.snapshot.index l.entries
            (λ i low up.
              replay-Untouched (index_to_key i) (put (index_to_key 0) value ∷ []) c
                (index_not_index 0 i (omega arith) (omega arith) (λ e. omega arith), tt))
            h.stored;
      snapshot =
          snapshot_kept P c (change (put (index_to_key 0) value) c) l h
            (other snapshot_meta_key (omega arith)) (other snapshot_data_key (omega arith));
      tail = elim h.tail [
        | inl there ↦ inl (other tail_key (omega arith) ∙ there)
        | inr (no_entries, no_snap, fresh) ↦ inr (
          no_entries,
          no_snap,
          λ k apart.
              replay-Untouched k (put (index_to_key 0) value ∷ []) c (apart, tt) ∙ fresh k apart,
        )
      ];
      hard = inl (rw (same_bytes_refl (index_to_key 0)) refl);
      intent = other snapshot_intent_key (omega arith) ∙ h.intent;
    }

-- What a write leaves that changes entries and the tail.
pub entries-Lays :
    (P : Encoding) (c : Contents) (l : Log) (es : List Entry) (cs : List Change)
    → Lays P c l
    → ((name : Bytes) → 9 ≤ length name → Untouched name cs)
    → Untouched (index_to_key 0) cs
    → Stored P
        (replay
          (cs ++ put_tail (l.snapshot.index + length es) (term_after l.snapshot.term es) ∷ [])
          c)
        l.snapshot.index
        es
    → Lays P
        (replay
          (cs ++ put_tail (l.snapshot.index + length es) (term_after l.snapshot.term es) ∷ [])
          c)
        (record l { entries = es })
entries-Lays P c l es cs h names zero_key stored =
    let last = put_tail (l.snapshot.index + length es) (term_after l.snapshot.term es) in
    let other =
      λ (name : Bytes) (long : 9 ≤ length name) (apart : same_bytes tail_key name ≡ false).
        replay-Untouched name (cs ++ last ∷ []) c
          (Untouched-append name cs (last ∷ []) (names name long) (apart, tt)) in
    record {
      stored = stored;
      snapshot =
          snapshot_kept P c (replay (cs ++ last ∷ []) c) l h
            (other snapshot_meta_key (omega arith) tail-meta)
            (other snapshot_data_key (omega arith) tail-data);
      tail = inl (
          put_last cs tail_key
            (encode_tail (l.snapshot.index + length es) (term_after l.snapshot.term es)) c);
      hard = hard_kept P c (replay (cs ++ last ∷ []) c) l h (
          replay-Untouched (index_to_key 0) (cs ++ last ∷ []) c (
            Untouched-append (index_to_key 0) cs (last ∷ []) zero_key
              (put_tail_apart 0 (l.snapshot.index + length es) (term_after l.snapshot.term es))));
      intent = other snapshot_intent_key (omega arith) tail-intent ∙ h.intent;
    }

-- What the loop of AppendBatch puts.
pub record Puts (P : Encoding) (base : ℕ) (es : List Entry) (cs : List Change) : Type 0 where
  pub checked : consecutive base es ≡ true
  pub bound : base + length es ≤ int64_max
  pub names : (name : Bytes) → 9 ≤ length name → Untouched name cs
  pub earlier : (i : ℕ) → i ≤ base → Untouched (index_to_key i) cs
  pub stored : (c : Contents) → Stored P (replay cs c) base es

put-Puts :
    (P : Encoding) (base : ℕ) (e : Entry) (es : List Entry) (b : Bytes) (cs : List Change)
    → e.index ≡ base + 1
    → 0 < e.term
    → base < int64_max
    → P.serialize e ≡ some b
    → Puts P (base + 1) es cs
    → Puts P base (e ∷ es) (put (index_to_key (base + 1)) b ∷ cs)
unfolding consecutive
put-Puts P base e es b cs place positive low made h = record {
  checked = let rest = h.checked in ground (arith, place, positive, low, rest);
  bound = let last = h.bound in omega arith;
  names = λ name long. (index_not_name (base + 1) name long, h.names name long);
  earlier = λ i up.
      let last = h.bound in
      (
        index_not_index (base + 1) i (omega arith) (omega arith) (λ x. omega arith),
        h.earlier i (omega arith),
      );
  stored = λ c.
      let next : suc base ≡ base + 1 = omega arith in
      let here : replay cs (change (put (index_to_key (base + 1)) b) c) (index_to_key (base + 1))
          ≡ some b =
        replay-Untouched (index_to_key (base + 1)) cs (change (put (index_to_key (base + 1)) b) c)
          (h.earlier (base + 1) (omega arith))
        ∙ (rw (same_bytes_refl (index_to_key (base + 1))) refl) in
      rw next ((b, made, here), h.stored (change (put (index_to_key (base + 1)) b) c));
}

pub entry_puts-Puts :
    (D : Database) (P : Encoding) (base : ℕ) (es : List Entry) (cs : List Change)
    → base ≤ int64_max
    → entry_puts D P base es ≡ ok cs
    → Puts P base es cs
unfolding entry_puts consecutive
entry_puts-Puts D P base [] cs low h =
    let same : [] ≡ cs = cc (h) in
    subst (Puts P base []) same (record {
      checked = refl;
      bound = omega arith;
      names = λ name long. tt;
      earlier = λ i up. tt;
      stored = λ c. tt;
    })
entry_puts-Puts D P base (e ∷ es) cs low h = elim (Option-cases (P.serialize e)) [
  | inl f ↦ absurd (ground (arith, h, f))
  | inr (b, f) ↦
      let step : and_then (entry_puts D P e.index es) (λ cs. ok (put (index_to_key e.index) b ∷ cs))
          ≡ ok cs =
        ground (arith, h, f) in
      let place : e.index ≡ base + 1 = ground (arith, h) in
      let positive : 0 < e.term = ground (arith, h) in
      let room : base < int64_max = ground (arith, h) in
      let (ds, rest, made) = and_then-eq-ok (entry_puts D P e.index es) _ step in
      let next =
        entry_puts-Puts D P (base + 1) es ds (omega arith)
          (subst (λ i. entry_puts D P i es ≡ ok ds) place rest) in
      let listed : put (index_to_key e.index) b ∷ ds ≡ cs = cc (made) in
      let same = subst (λ i. put (index_to_key i) b ∷ ds ≡ cs) place listed in
      subst (Puts P base (e ∷ es)) same (put-Puts P base e es b ds place positive room f next)
]
