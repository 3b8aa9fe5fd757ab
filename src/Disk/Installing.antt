-- ===== src/Disk/Installing.antt =====
-- CompactApplied and InstallSnapshot do to the log in its database what the log of its callers shows.
use raft_kv.Base.{
  ℕ, ◌≤◌, ◌<◌, ◌≡◌, sym, ◌∙◌, ap, subst, true, false, Option, none, some, arith, Bool-cases, inl,
  inr, leb, int32_max, int64_max, ◌==◌, if◌then◌else◌,
}
use raft_kv.Outcome.{Result, ok, err, absent_entry, and_then, and_then-eq-ok}
use raft_kv.Log.{
  Log, Entry, Snapshot, last_index, last_term, term_after, term_is, max_snapshot_bytes,
}
use raft_kv.Store.{Database}
use raft_kv.Disk.{Encoding, RaftLog, get_term, persist_snapshot, compact_applied, install_snapshot}
use raft_kv.Disk.Layout.{IsRanged, Stands}
use raft_kv.Disk.Reading.{get_term_sound}
use raft_kv.Disk.Steps.{Follows}
use raft_kv.Disk.Snapshots.{persist_keep, persist_drop}

module _ (D : Database) (P : Encoding) (l : Log) (ranged : IsRanged l) where
  -- An operation that changes nothing.
  unchanged :
      (o o' : RaftLog D P) (r : Result Log) → Stands D P o l → o ≡ o' → r ≡ ok l → Follows D P o' r
  unchanged o o' r stands same result =
      subst (λ y. Follows D P y r) same
        (record { log = l; same = result; stands = stands; ranged = ranged })

  agreed : (t : Option ℕ) (u : ℕ) → term_is t u ≡ true → t ≡ some u
  agreed none u h = cc
  agreed (some t) u h = let same : t ≡ u = ground (arith, h) in ap some same

  pub compact_applied-Follows :
      (s : Snapshot) (o o' : RaftLog D P)
      → Stands D P o l
      → compact_applied D P s o ≡ ok o'
      → Follows D P o' (raft_kv.Log.compact_applied true s l)
  unfolding compact_applied raft_kv.Log.compact_applied
  compact_applied-Follows s o o' stands e =
      let at_end = stands.last_index_lem in
      let snap = ap (λ (x : Snapshot). x.index) stands.snapshot_lem in
      elim (Bool-cases (leb s.index o.snapshot.index)) [
        | inl early ↦
            unchanged o o' (raft_kv.Log.compact_applied true s l) stands (ground (arith, e, early))
              (ground (arith, early, snap))
        | inr late ↦
            let up : s.index ≤ last_index l = ground (arith, e, late, at_end) in
            let low : l.snapshot.index < s.index = ground (arith, late, snap) in
            let step : and_then (get_term D P s.index o) (λ term.
              if term_is term s.term then persist_snapshot D P s true o else err absent_entry)
                ≡ ok o' =
              ground (arith, e, late) in
            let (t, read, rest) = and_then-eq-ok (get_term D P s.index o) _ step in
            let known = get_term_sound D P o l ranged stands s.index t read in
            let equal : term_is t s.term ≡ true = ground (arith, rest) in
            let there = sym known ∙ agreed t s.term equal in
            let written : persist_snapshot D P s true o ≡ ok o' = ground (arith, rest) in
            let result : raft_kv.Log.persist_snapshot true s true l
                ≡ raft_kv.Log.compact_applied true s l =
              ground (arith, low, up, there) in
            subst (λ r. Follows D P o' r) result
              (persist_keep D P l ranged s o o' low up there stands written)
      ]

  pub install_snapshot-Follows :
      (s : Snapshot) (o o' : RaftLog D P)
      → s.index ≤ int64_max
      → s.term ≤ int32_max
      → Stands D P o l
      → install_snapshot D P s o ≡ ok o'
      → Follows D P o' (raft_kv.Log.install_snapshot true s l)
  unfolding install_snapshot raft_kv.Log.install_snapshot
  install_snapshot-Follows s o o' high narrow stands e =
      let at_end = stands.last_index_lem in
      let snap = ap (λ (x : Snapshot). x.index) stands.snapshot_lem in
      let snap_term = ap (λ (x : Snapshot). x.term) stands.snapshot_lem in
      let positive : 1 ≤ s.index = ground (arith, e) in
      let positive_term : 1 ≤ s.term = ground (arith, e) in
      let low : l.snapshot.index ≤ s.index = ground (arith, e, snap) in
      elim (Bool-cases (s.index == o.snapshot.index)) [
        | inl equal ↦
            unchanged o o' (raft_kv.Log.install_snapshot true s l) stands (ground (arith, e, equal))
              (ground (arith, e, equal, snap, snap_term, positive, positive_term))
        | inr apart ↦ elim (Bool-cases (leb s.index o.last_index)) [
          | inr beyond ↦
              let written : persist_snapshot D P s false o ≡ ok o' =
                ground (arith, e, apart, beyond) in
              let result : raft_kv.Log.persist_snapshot true s false l
                  ≡ raft_kv.Log.install_snapshot true s l =
                ground (arith, low, positive, positive_term, apart, beyond, at_end, snap) in
              subst (λ r. Follows D P o' r) result
                (persist_drop D P l ranged s o o' high narrow stands written)
          | inl within ↦
              let step : and_then (get_term D P s.index o)
                    (λ term. persist_snapshot D P s (term_is term s.term) o)
                  ≡ ok o' =
                ground (arith, e, apart, within) in
              let (t, read, rest) = and_then-eq-ok (get_term D P s.index o) _ step in
              let known = get_term_sound D P o l ranged stands s.index t read in
              elim (Bool-cases (term_is t s.term)) [
                | inl equal ↦
                    let there = sym known ∙ agreed t s.term equal in
                    let written : persist_snapshot D P s true o ≡ ok o' =
                      subst (λ b. persist_snapshot D P s b o ≡ ok o') equal rest in
                    let up : s.index ≤ last_index l = ground (arith, within, at_end) in
                    let after : l.snapshot.index < s.index = ground (arith, low, apart, snap) in
                    let result : raft_kv.Log.persist_snapshot true s true l
                        ≡ raft_kv.Log.install_snapshot true s l =
                      ground (arith, after, positive, positive_term, up, there) in
                    subst (λ r. Follows D P o' r) result
                      (persist_keep D P l ranged s o o' after up there stands written)
                | inr other ↦
                    let written : persist_snapshot D P s false o ≡ ok o' =
                      subst (λ b. persist_snapshot D P s b o ≡ ok o') other rest in
                    let there : term_is (raft_kv.Log.get_term l s.index) s.term ≡ false =
                      rw known at other in
                    let after : l.snapshot.index < s.index = ground (arith, low, apart, snap) in
                    let result : raft_kv.Log.persist_snapshot true s false l
                        ≡ raft_kv.Log.install_snapshot true s l =
                      ground (arith, after, positive, positive_term, there) in
                    subst (λ r. Follows D P o' r) result
                      (persist_drop D P l ranged s o o' high narrow stands written)
              ]
        ]
      ]
