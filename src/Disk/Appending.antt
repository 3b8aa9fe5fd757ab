-- ===== src/Disk/Appending.antt =====
-- AppendBatch and TruncateSuffix do to the log in its database what the log of its callers shows.
use raft_kv.Base.{
  ℕ, ◌+◌, ◌-◌, ◌≤◌, ◌<◌, ◌≡◌, refl, sym, ◌∙◌, ap, subst, true, some, List, [], ◌∷◌, ◌++◌, length,
  length-append, length-take, take, All, arith, Bool-cases, Option-cases, inl, inr, ltb, int32_max,
  int64_max,
}
use raft_kv.Outcome.{ok, and_then, and_then-eq-ok}
use raft_kv.Log.{Log, Entry, Snapshot, HardState, last_index, last_term, term_after, consecutive}
use raft_kv.Log.Entries.{Chained-append, Chained-take, consecutive-Chained}
use raft_kv.Log.Terms.{get_term-take}
use raft_kv.Log.Rising.{Rising}
use raft_kv.Store.{Contents, Change, replay, Database}
use raft_kv.Disk.{
  Encoding, index_to_key, RaftLog, deletions, put_tail, entry_puts, append_batch, cut,
  truncate_suffix, get_term,
}
use raft_kv.Disk.Layout.{
  IsRanged, Stored, Stored-agree, Stored-append, Stored-take, Lays, Stands, replay-Untouched,
  replay_last, deletions_name, deletions_index,
}
use raft_kv.Disk.Ranges.{
  Rising-append, Rising-take, All-append, All-take, term_after-append, get_term-last,
}
use raft_kv.Disk.Reading.{get_term_sound}
use raft_kv.Disk.Writing.{put_tail_apart, Untouched-append, Puts, entry_puts-Puts}
use raft_kv.Disk.Steps.{Follows, no_term, entries-IsRanged, written-Follows}

module _ (D : Database) (P : Encoding) (l : Log) (ranged : IsRanged l) where
  -- The entries of a batch behind those of the log.
  appended-Stored :
      (es : List Entry) (cs : List Change) (c : Contents) (last term : ℕ)
      → Lays P c l
      → Puts P (last_index l) es cs
      → Stored P (replay (cs ++ put_tail last term ∷ []) c) l.snapshot.index (l.entries ++ es)
  appended-Stored es cs c last term lays puts =
      let tail = put_tail last term in
      let all = replay (cs ++ tail ∷ []) c in
      let bound = puts.bound in
      Stored-append P all l.snapshot.index l.entries es
        (Stored-agree P c all l.snapshot.index l.entries
          (λ i low up. replay-Untouched (index_to_key i) (cs ++ tail ∷ []) c (
            Untouched-append (index_to_key i) cs (tail ∷ []) (puts.earlier i up)
              (put_tail_apart i last term)))
          lays.stored)
        (Stored-agree P (replay cs c) all (last_index l) es
          (λ i low up.
            ap (λ (m : Contents). m (index_to_key i)) (replay_last cs (tail ∷ []) c)
            ∙ replay-Untouched (index_to_key i) (tail ∷ []) (replay cs c)
                (put_tail_apart i last term))
          (puts.stored c))

  pub append_batch-Follows :
      (es : List Entry) (o o' : RaftLog D P)
      → Rising (last_term l) es
      → All (λ (e : Entry). e.term ≤ int32_max) es
      → Stands D P o l
      → append_batch D P es o ≡ ok o'
      → Follows D P o' (raft_kv.Log.append_batch true es l)
  unfolding append_batch raft_kv.Log.append_batch
  append_batch-Follows [] o o' rising terms stands e =
      let same : o ≡ o' = cc (e) in
      subst (λ x. Follows D P x (ok l)) same
        (record { log = l; same = refl; stands = stands; ranged = ranged })
  append_batch-Follows (x ∷ xs) o o' rising terms stands e =
      let es = x ∷ xs in
      let (cs, listed, step) = and_then-eq-ok (entry_puts D P o.last_index es) _ e in
      let (db, written, made) =
        and_then-eq-ok
          (D.write o.db (cs ++ put_tail (o.last_index + length es) (term_after x.term xs) ∷ [])) _
          step in
      let at_end = stands.last_index_lem in
      let high = ranged.last in
      let puts =
        entry_puts-Puts D P (last_index l) es cs high
          (subst (λ i. entry_puts D P i es ≡ ok cs) at_end listed) in
      let checked = puts.checked in
      let bound = puts.bound in
      let size = length-append l.entries es in
      subst (λ y. Follows D P y (raft_kv.Log.append_batch true es l)) (cc (made))
        (written-Follows D P l ranged (l.entries ++ es) cs o db (o.last_index + length es)
          (term_after x.term xs) (raft_kv.Log.append_batch true es l)
          (entries-IsRanged D P l ranged (l.entries ++ es)
            (Chained-append l.snapshot.index l.entries es ranged.chained
              (consecutive-Chained (last_index l) es checked))
            (Rising-append l.snapshot.term l.entries es ranged.rising rising)
            (All-append (λ (e : Entry). e.term ≤ int32_max) l.entries es ranged.terms terms)
            (omega arith))
          (rw checked refl) (omega arith) (sym (term_after-append l.snapshot.term l.entries es))
          stands written puts.names (puts.earlier 0 (omega arith))
          (appended-Stored es cs (D.contents o.db) (o.last_index + length es) (term_after x.term xs)
            stands.lays puts))

  -- The entries before the ones that are deleted.
  kept_Stored :
      (start count last term k : ℕ) (c : Contents)
      → Lays P c l
      → start + count ≤ int64_max + 1
      → l.snapshot.index + k < start
      → k ≤ length l.entries
      → Stored P
          (replay (deletions start count ++ put_tail last term ∷ []) c)
          l.snapshot.index
          (take k l.entries)
  kept_Stored start count last term k c lays bound before fits =
      let tail = put_tail last term in
      let size = length-take k l.entries in
      let high = ranged.last in
      Stored-agree P c (replay (deletions start count ++ tail ∷ []) c) l.snapshot.index
        (take k l.entries)
        (λ i low up. replay-Untouched (index_to_key i) (deletions start count ++ tail ∷ []) c (
          Untouched-append (index_to_key i) (deletions start count) (tail ∷ [])
            (deletions_index i start count (omega arith) bound (inl (omega arith)))
            (put_tail_apart i last term)))
        (Stored-take P c k l.snapshot.index l.entries lays.stored)

  cut-Follows :
      (start term : ℕ) (o o' : RaftLog D P)
      → l.snapshot.index < start
      → start ≤ last_index l
      → raft_kv.Log.get_term l (start - 1) ≡ some term
      → Stands D P o l
      → cut D P start (some term) o ≡ ok o'
      → Follows D P o' (raft_kv.Log.truncate_suffix true start l)
  unfolding cut raft_kv.Log.truncate_suffix
  cut-Follows start term o o' low up known stands e =
      let k = start - l.snapshot.index - 1 in
      let es = take k l.entries in
      let count = o.last_index + 1 - start in
      let (db, written, made) =
        and_then-eq-ok (D.write o.db (deletions start count ++ put_tail (start - 1) term ∷ [])) _
          e in
      let at_end = stands.last_index_lem in
      let high = ranged.last in
      let size : length es ≡ k = omega (arith, length-take k l.entries) in
      let place : l.snapshot.index + length es ≡ start - 1 = omega arith in
      let moved = get_term-take l k (start - 1) (omega arith) (omega arith) in
      let ends =
        get_term-last (record l { entries = es }) es refl (no_term P D o.db l stands.lays) in
      let terms : term ≡ term_after l.snapshot.term es =
        let both : some term ≡ some (term_after l.snapshot.term es) =
          sym known ∙ (sym moved ∙ (rw place at ends)) in
        cc (both) in
      subst (λ y. Follows D P y (raft_kv.Log.truncate_suffix true start l)) (cc (made))
        (written-Follows D P l ranged es (deletions start count) o db (start - 1) term
          (raft_kv.Log.truncate_suffix true start l)
          (entries-IsRanged D P l ranged es
            (Chained-take k l.snapshot.index l.entries ranged.chained)
            (Rising-take k l.snapshot.term l.entries ranged.rising)
            (All-take (λ (e : Entry). e.term ≤ int32_max) k l.entries ranged.terms) (omega arith))
          (ground (arith, low, up)) (sym place) terms stands written
          (λ name long. deletions_name name start count long)
          (deletions_index 0 start count (omega arith) (omega arith) (inl (omega arith)))
          (kept_Stored start count (start - 1) term k (D.contents o.db) stands.lays (omega arith)
            (omega arith) (omega arith)))

  pub truncate_suffix-Follows :
      (start : ℕ) (o o' : RaftLog D P)
      → Stands D P o l
      → truncate_suffix D P start o ≡ ok o'
      → Follows D P o' (raft_kv.Log.truncate_suffix true start l)
  unfolding truncate_suffix cut raft_kv.Log.truncate_suffix
  truncate_suffix-Follows start o o' stands e =
      let at_end = stands.last_index_lem in
      let snap = ap (λ (x : Snapshot). x.index) stands.snapshot_lem in
      elim (Bool-cases (ltb o.last_index start)) [
        | inl beyond ↦
            let same : o ≡ o' = ground (arith, e, beyond) in
            let result : raft_kv.Log.truncate_suffix true start l ≡ ok l =
              ground (arith, e, beyond, at_end, snap) in
            subst (λ y. Follows D P y (raft_kv.Log.truncate_suffix true start l)) same
              (record { log = l; same = result; stands = stands; ranged = ranged })
        | inr within ↦
            let low : l.snapshot.index < start = ground (arith, e, snap) in
            let up : start ≤ last_index l = ground (arith, within, at_end) in
            let step : and_then (get_term D P (start - 1) o) (λ term. cut D P start term o)
                ≡ ok o' =
              ground (arith, e, within) in
            let (t, read, rest) = and_then-eq-ok (get_term D P (start - 1) o) _ step in
            let known = get_term_sound D P o l ranged stands (start - 1) t read in
            elim (Option-cases t) [
              | inl f ↦ let bad = subst (λ x. cut D P start x o ≡ ok o') f rest in cc (bad)
              | inr (term, f) ↦
                  cut-Follows start term o o' low up (sym known ∙ f) stands
                    (subst (λ x. cut D P start x o ≡ ok o') f rest)
            ]
      ]
