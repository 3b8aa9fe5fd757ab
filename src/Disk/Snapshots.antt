-- ===== src/Disk/Snapshots.antt =====
-- PersistSnapshot does to the log in its database what the log of its callers shows.
use raft_kv.Base.{
  ℕ, suc, ◌+◌, ◌-◌, ◌≤◌, ◌<◌, ◌≡◌, refl, sym, ◌∙◌, ap, subst, true, false, some, List, [], length,
  length-drop, drop, All, arith, inr, int32_max, int64_max,
}
use raft_kv.Outcome.{Result, ok, and_then, and_then-eq-ok}
use raft_kv.Log.{
  Log, Entry, Snapshot, last_index, last_term, term_after, term_is, max_snapshot_bytes,
}
use raft_kv.Log.Entries.{Chained, Chained-drop}
use raft_kv.Log.Rising.{Rising, get_term-entry}
use raft_kv.Store.{Contents, replay, Database}
use raft_kv.Disk.{Encoding, index_to_key, RaftLog, snapshot_changes, persist_snapshot}
use raft_kv.Disk.Layout.{
  IsRanged, Stored, Stored-agree, Stored-drop, Lays, Stands, replay-Untouched,
}
use raft_kv.Disk.Ranges.{All-elem, Rising-drop, term_after-drop, All-drop}
use raft_kv.Disk.Writing.{written_contents}
use raft_kv.Disk.Steps.{Follows}
use raft_kv.Disk.Persisting.{persist_changes, persist_index, with_snapshot, persisted-Lays}

module _ (D : Database) (P : Encoding) (l : Log) (ranged : IsRanged l) where
  -- A log whose snapshot was written.
  persisted-Follows :
      (s : Snapshot) (es : List Entry) (count last term : ℕ) (o : RaftLog D P) (db : D.State)
      (r : Result Log)
      → r ≡ ok (with_snapshot s es l)
      → last ≡ s.index + length es
      → term ≡ term_after s.term es
      → 1 ≤ s.index
      → 1 ≤ s.term
      → s.term ≤ int32_max
      → length s.bytes ≤ max_snapshot_bytes
      → l.snapshot.index + 1 + count ≤ int64_max + 1
      → s.index + length es ≤ int64_max
      → Chained s.index es
      → Rising s.term es
      → All (λ (e : Entry). e.term ≤ int32_max) es
      → Stands D P o l
      → D.write o.db (persist_changes s last term (l.snapshot.index + 1) count) ≡ ok db
      → Stored P
          (replay (persist_changes s last term (l.snapshot.index + 1) count) (D.contents o.db))
          s.index
          es
      → Follows D P (record { db = db; last_index = last; last_term = term; snapshot = s }) r
  persisted-Follows s es count last term o db r result index same_last low positive narrow small
        bound high chain rising terms stands written stored =
      let held =
        written_contents D o.db db (persist_changes s last term (l.snapshot.index + 1) count)
          written in
      record {
        log = with_snapshot s es l;
        same = result;
        stands = record {
          lays =
              rw (held, index, same_last)
                (persisted-Lays P (D.contents o.db) l s es (l.snapshot.index + 1) count stands.lays
                  low positive (omega arith) bound (rw (index, same_last) at stored));
          last_index_lem = index;
          last_term_lem = same_last;
          snapshot_lem = refl;
        };
        ranged = record {
          chained = chain;
          rising = rising;
          terms = terms;
          last = high;
          snapshot_term = narrow;
          snapshot_bytes = small;
          hard_term = ranged.hard_term;
          vote = ranged.vote;
          pending = tt;
        };
      }

  -- The entries behind the snapshot.
  dropped_Stored :
      (s : Snapshot) (last term : ℕ) (c : Contents)
      → l.snapshot.index < s.index
      → s.index ≤ last_index l
      → Lays P c l
      → Stored P
          (replay
            (persist_changes s last term (l.snapshot.index + 1) (s.index - l.snapshot.index))
            c)
          s.index
          (drop (s.index - l.snapshot.index) l.entries)
  dropped_Stored s last term c low up lays =
      let k = s.index - l.snapshot.index in
      let place : l.snapshot.index + k ≡ s.index = omega arith in
      let size = length-drop k l.entries in
      let high = ranged.last in
      let changes = persist_changes s last term (l.snapshot.index + 1) k in
      Stored-agree P c (replay changes c) s.index (drop k l.entries)
        (λ i after up. replay-Untouched (index_to_key i) changes c (
          persist_index s last term (l.snapshot.index + 1) k i (omega arith) (omega arith)
            (inr (omega arith))))
        (rw place at (Stored-drop P c k l.snapshot.index l.entries (omega arith) lays.stored))

  -- PersistSnapshot with the entries behind the snapshot kept, where the log agrees with it.
  pub persist_keep :
      (s : Snapshot) (o o' : RaftLog D P)
      → l.snapshot.index < s.index
      → s.index ≤ last_index l
      → raft_kv.Log.get_term l s.index ≡ some s.term
      → Stands D P o l
      → persist_snapshot D P s true o ≡ ok o'
      → Follows D P o' (raft_kv.Log.persist_snapshot true s true l)
  unfolding persist_snapshot raft_kv.Log.persist_snapshot
  persist_keep s o o' low up known stands e =
      let k = s.index - l.snapshot.index - 1 in
      let es = drop (s.index - l.snapshot.index) l.entries in
      let snap = ap (λ (x : Snapshot). x.index) stands.snapshot_lem in
      let at_end = stands.last_index_lem in
      let end_term = stands.last_term_lem in
      let high = ranged.last in
      let (x, at, same) = get_term-entry l s.index s.term low known in
      let next : suc k ≡ s.index - l.snapshot.index = omega arith in
      let place : l.snapshot.index + (s.index - l.snapshot.index) ≡ s.index = omega arith in
      let step : and_then (D.write o.db (snapshot_changes D P s true o)) (λ db.
        ok (record { db = db; last_index = o.last_index; last_term = o.last_term; snapshot = s }))
          ≡ ok o' =
        ground (arith, e) in
      let positive : 1 ≤ s.term = ground (arith, e) in
      let small : length s.bytes ≤ max_snapshot_bytes = ground (arith, e) in
      let narrow : s.term ≤ int32_max =
        omega (
          arith,
          same,
          All-elem (λ (e : Entry). e.term ≤ int32_max) l.entries k x ranged.terms at,
        ) in
      let (db, written, made) =
        and_then-eq-ok (D.write o.db (snapshot_changes D P s true o)) _ step in
      let listed =
        subst
          (λ i.
            D.write o.db (persist_changes s o.last_index o.last_term (i + 1) (s.index - i)) ≡ ok db)
          snap written in
      let size : length es ≡ length l.entries - (s.index - l.snapshot.index) =
        length-drop (s.index - l.snapshot.index) l.entries in
      let rising : Rising s.term es =
        rw (same, next) at (Rising-drop k l.snapshot.term l.entries x ranged.rising at) in
      let ends : term_after s.term es ≡ last_term l =
        rw (same, next) at (term_after-drop k l.snapshot.term l.entries x at) in
      let chain : Chained s.index es = rw place at (
        Chained-drop (s.index - l.snapshot.index) l.snapshot.index l.entries (omega arith)
          ranged.chained) in
      subst (λ y. Follows D P y (raft_kv.Log.persist_snapshot true s true l)) (cc (made))
        (persisted-Follows s es (s.index - l.snapshot.index) o.last_index o.last_term o db
          (raft_kv.Log.persist_snapshot true s true l) (ground (arith, low, positive, small))
          (omega arith) (end_term ∙ sym ends) (omega arith) positive narrow small (omega arith)
          (omega arith) chain rising
          (All-drop (λ (e : Entry). e.term ≤ int32_max) (s.index - l.snapshot.index) l.entries
            ranged.terms)
          stands listed
          (dropped_Stored s o.last_index o.last_term (D.contents o.db) low up stands.lays))

  pub persist_drop :
      (s : Snapshot) (o o' : RaftLog D P)
      → s.index ≤ int64_max
      → s.term ≤ int32_max
      → Stands D P o l
      → persist_snapshot D P s false o ≡ ok o'
      → Follows D P o' (raft_kv.Log.persist_snapshot true s false l)
  unfolding persist_snapshot raft_kv.Log.persist_snapshot
  persist_drop s o o' high narrow stands e =
      let snap = ap (λ (x : Snapshot). x.index) stands.snapshot_lem in
      let at_end = stands.last_index_lem in
      let bound = ranged.last in
      let low : 1 ≤ s.index = ground (arith, e) in
      let positive : 1 ≤ s.term = ground (arith, e) in
      let small : length s.bytes ≤ max_snapshot_bytes = ground (arith, e) in
      let step : and_then (D.write o.db (snapshot_changes D P s false o))
            (λ db. ok (record { db = db; last_index = s.index; last_term = s.term; snapshot = s }))
          ≡ ok o' =
        ground (arith, e) in
      let (db, written, made) =
        and_then-eq-ok (D.write o.db (snapshot_changes D P s false o)) _ step in
      let listed =
        subst
          (λ i. D.write o.db (persist_changes s s.index s.term (i + 1) (o.last_index - i)) ≡ ok db)
          snap written in
      subst (λ y. Follows D P y (raft_kv.Log.persist_snapshot true s false l)) (cc (made))
        (persisted-Follows s [] (o.last_index - l.snapshot.index) s.index s.term o db
          (raft_kv.Log.persist_snapshot true s false l) (ground (arith, low, positive, small))
          (omega arith) refl low positive narrow small (omega arith) (omega arith) tt tt tt stands
          listed tt)
