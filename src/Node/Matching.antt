-- ===== src/Node/Matching.antt =====
-- HandleAppendEntries: storing the entries of a request.
use raft_kv.Base.{
  ℕ, suc, ◌+◌, ◌-◌, ◌≤◌, ◌<◌, ◌≡◌, refl, ap, ◌∙◌, false, some, List, [], ◌∷◌, ◌++◌, arith, inl, inr,
  ◌⊎◌, Bool-cases, All, length, length-take, ltb, if◌then◌else◌, dec_lt, lt→ltb,
}
use raft_kv.Outcome.{done, ok, >>=-eq-done, Result-cases}
use raft_kv.Log.{Log, Entry, Snapshot, last_index, get_term, append_batch, truncate_suffix}
use raft_kv.Log.Laws.{append_batch-cases, truncate_suffix-cases}
use raft_kv.Log.Entries.{Chained, consecutive-Chained}
use raft_kv.Log.Terms.{
  Known, All-append_left, appended-Known, get_term-some, get_term-some_le, get_term-append,
  get_term-take,
}
use raft_kv.Node.State.{Node, Env}
use raft_kv.Node.Append.{store_entries, resolve_conflict, disagrees}

module _ {S : Type 0} (env : Env S) where
  -- The node is as before, where the entry does not disagree, or the log is cut before it.
  resolve_conflict-cases :
      (e : Entry) (n m : Node S)
      → resolve_conflict env e n ≡ done m
      → ((m ≡ n) × (disagrees (get_term n.log e.index) e.term ≡ false))
        ⊎ ((l : Log) × (truncate_suffix env.disk_ok e.index n.log ≡ ok l)
            × (m ≡ record n { log = l }))
  unfolding resolve_conflict
  resolve_conflict-cases e n m h = elim (Bool-cases (disagrees (get_term n.log e.index) e.term)) [
    | inr same ↦ inl (ground arith, same)
    | inl differs ↦ elim (Result-cases (truncate_suffix env.disk_ok e.index n.log)) [
      | inl (l, cut) ↦ inr (l, cut, ground arith)
      | inr (x, failed) ↦ absurd (ground arith)
    ]
  ]

  resolve_conflict-snapshot :
      (e : Entry) (n m : Node S)
      → resolve_conflict env e n ≡ done m
      → m.log.snapshot ≡ n.log.snapshot
  unfolding resolve_conflict truncate_suffix
  resolve_conflict-snapshot e n m h = ground arith

  -- What stands before the entry stays, also where the log is cut for it.
  resolve_conflict-keeps :
      (e : Entry) (n m : Node S) (i t : ℕ)
      → resolve_conflict env e n ≡ done m
      → i < e.index
      → get_term n.log i ≡ some t
      → get_term m.log i ≡ some t
  resolve_conflict-keeps e n m i t h lt known = elim (resolve_conflict-cases e n m h) [
    | inl (same, agrees) ↦ rw same known
    | inr (l, cut, same) ↦
        let (later, left) = truncate_suffix-cases env.disk_ok e.index n.log l cut in
        elim left [
          | inl (past, whole) ↦ rw (same, whole) known
          | inr (fits, short) ↦
              rw (same, short)
                (get_term-take n.log (e.index - n.log.snapshot.index - 1) i (omega arith)
                    (omega arith)
                  ∙ known)
        ]
  ]

  -- Once resolved, the entry is past the end, or it is known, or the snapshot covers it.
  resolve_conflict-Known :
      (e : Entry) (n m : Node S)
      → resolve_conflict env e n ≡ done m
      → n.log.snapshot.index ≤ e.index
      → ¬ (last_index m.log < e.index)
      → Known m.log e
  resolve_conflict-Known e n m h lo hi = elim (resolve_conflict-cases e n m h) [
    | inl (same, agrees) ↦
        let stays : ¬ (last_index n.log < e.index) = rw same at hi in
        let (t, at) = get_term-some n.log e.index lo (omega arith) in
        let equal : t ≡ e.term = ground arith in rw (same, at, equal) refl
    | inr (l, cut, same) ↦
        let (later, left) = truncate_suffix-cases env.disk_ok e.index n.log l cut in
        elim left [
          | inl (past, whole) ↦
              let end : ¬ (last_index l < e.index) = rw same at hi in
              absurd (omega (arith, end, ap last_index whole))
          | inr (fits, short) ↦
              let end : ¬ (l.snapshot.index + length l.entries < e.index) = rw same at hi in
              absurd (
                omega (
                  arith,
                  end,
                  ap (λ (x : Log). x.snapshot.index) short,
                  ap (λ (x : Log). length x.entries) short,
                  length-take (e.index - n.log.snapshot.index - 1) n.log.entries,
                ))
        ]
  ]

  -- The entries that go on being collected after e.
  abbrev collect : Entry → List Entry → Node S → List Entry
  collect e app n = if ltb (last_index n.log) e.index then app ++ e ∷ [] else app

  store_first :
      (e : Entry) (es app : List Entry) (n m : Node S)
      → store_entries env (e ∷ es) app n ≡ done m
      → (k : Node S) × (resolve_conflict env e n ≡ done k)
        × (store_entries env es (collect e app k) k ≡ done m)
  unfolding store_entries
  store_first e es app n m h =
      >>=-eq-done (resolve_conflict env e n) (λ k. store_entries env es (collect e app k) k) h

  store_end :
      (app : List Entry) (n m : Node S)
      → store_entries env [] app n ≡ done m
      → (l : Log) × (append_batch env.disk_ok app n.log ≡ ok l) × (m ≡ record n { log = l })
  unfolding store_entries
  store_end app n m h = elim (Result-cases (append_batch env.disk_ok app n.log)) [
    | inl (l, e) ↦ (l, e, ground arith)
    | inr (x, e) ↦ absurd (ground arith)
  ]

  store_entries-snapshot :
      (es app : List Entry) (n m : Node S)
      → store_entries env es app n ≡ done m
      → m.log.snapshot ≡ n.log.snapshot
  store_entries-snapshot [] app n m h =
      let (l, e, same) = store_end app n m h in
      let (chain, snap, ents) = append_batch-cases env.disk_ok app n.log l e in rw same snap
  store_entries-snapshot (e ∷ es) app n m h =
      let (k, first, rest) = store_first e es app n m h in
      store_entries-snapshot es (collect e app k) k m rest ∙ resolve_conflict-snapshot e n k first

  -- The entries collected so far stand in the log.
  collected-Known :
      (es app : List Entry) (n m : Node S)
      → store_entries env es app n ≡ done m
      → All (Known m.log) app
  collected-Known [] app n m h =
      let (l, e, same) = store_end app n m h in
      let (chain, snap, ents) = append_batch-cases env.disk_ok app n.log l e in
      rw same (
        appended-Known l n.log.entries app ents
          (rw snap (consecutive-Chained (last_index n.log) app chain)))
  collected-Known (e ∷ es) app n m h =
      let (k, first, rest) = store_first e es app n m h in
      let all = collected-Known es (collect e app k) k m rest in
      elim (Bool-cases (ltb (last_index k.log) e.index)) [
        | inl past ↦ All-append_left (Known m.log) app (e ∷ []) (rw past at all)
        | inr held ↦ rw held at all
      ]

  -- What stands before the entries that are left stays.
  store_entries-keeps :
      (es app : List Entry) (n m : Node S) (base i t : ℕ)
      → store_entries env es app n ≡ done m
      → Chained base es
      → i ≤ base
      → get_term n.log i ≡ some t
      → get_term m.log i ≡ some t
  store_entries-keeps [] app n m base i t h c le known =
      let (l, e, same) = store_end app n m h in
      let (chain, snap, ents) = append_batch-cases env.disk_ok app n.log l e in
      let inside : i ≤ last_index n.log = get_term-some_le n.log i t known in
      rw same (get_term-append n.log l app i snap ents inside ∙ known)
  store_entries-keeps (e ∷ es) app n m base i t h (at, positive, c) le known =
      let (k, first, rest) = store_first e es app n m h in
      store_entries-keeps es (collect e app k) k m (suc base) i t rest c (omega arith)
        (resolve_conflict-keeps e n k i t first (omega arith) known)

  All-last : (P : Entry → Type 0) (es : List Entry) (e : Entry) → All P (es ++ e ∷ []) → P e
  All-last P [] e (h, hs) = h
  All-last P (x ∷ es) e (h, hs) = All-last P es e hs

  -- When the entries of a request are stored, each stands in the log under its term, unless the
  -- snapshot has passed it; the entries before them are as they were.
  pub store_entries-Known :
      (es app : List Entry) (n m : Node S) (base : ℕ)
      → store_entries env es app n ≡ done m
      → Chained base es
      → All (λ e. n.log.snapshot.index ≤ e.index → Known m.log e) es
  store_entries-Known [] app n m base h c = tt
  store_entries-Known (e ∷ es) app n m base h (at, positive, c) =
      let (k, first, rest) = store_first e es app n m h in
      let snap = ap (λ (s : Snapshot). s.index) (resolve_conflict-snapshot e n k first) in
      let later = store_entries-Known es (collect e app k) k m (suc base) rest c in
      (
        (λ lo. elim (dec_lt (last_index k.log) e.index) [
          | no held ↦
              store_entries-keeps es (collect e app k) k m (suc base) e.index e.term rest c
                (omega arith) (resolve_conflict-Known e n k first lo held)
          | yes past ↦
              let all = collected-Known es (collect e app k) k m rest in
              All-last (Known m.log) app e (rw (lt→ltb (last_index k.log) e.index past) at all)
        ]),
        rw snap at later,
      )
