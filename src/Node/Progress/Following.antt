-- ===== src/Node/Progress/Following.antt =====
-- HandleAppendEntries, and what is committed.
use raft_kv.Base.{
  ℕ, suc, ◌+◌, ◌-◌, ◌≤◌, ◌<◌, ◌≡◌, refl, ◌∙◌, Bool, true, false, not, ◌||◌, ◌&&◌, some, List, [],
  ◌∷◌, ◌++◌, arith, inl, inr, Option-cases, length, length-append, length-take, ltb, ◌==◌,
  if◌then◌else◌, min, max, pos_part,
}
use raft_kv.Outcome.{done, ◌>>=◌, state, ok, >>=-eq-done}
use raft_kv.Log.{Log, Entry, truncate_suffix, last_index}
use raft_kv.Log.Laws.{truncate_suffix-cases, last_index-append_batch, get_term-le}
use raft_kv.Log.Entries.{Chained}
use raft_kv.Message.{AppendEntries, WireEntry}
use raft_kv.Node.State.{Node, Env}
use raft_kv.Node.Roles.{reset_election_timer}
use raft_kv.Node.Append.{
  Accepted, handle_append_entries, accept_append, check_entries, answer_append, answer_in_term,
  follow_leader, take_entries, commit_through, store_entries, resolve_conflict, reply_append,
}
use raft_kv.Node.Votes.{is_follower_role}
use raft_kv.Node.Progress.Relation.{
  progress, Advances-refl, Advances-trans, Advances-of_eq, Advances-commit, Advances-cut, Grows,
  Grows-bind, Grows-bind_done, Grows-then,
}
use raft_kv.Node.Progress.Applying.{apply_committed-Grows, progress-unhealthy}
use raft_kv.Node.Progress.Committing.{appended-Grows}
use raft_kv.Node.Progress.Elections.{progress-emit, raise_term-Grows}

module _ {S : Type 0} (env : Env S) where
  -- The log is cut before an index after the commit index.
  cut-Grows :
      (i : ℕ) (n : Node S) (l : Log)
      → n.commit_index < i
      → truncate_suffix env.disk_ok i n.log ≡ ok l
      → Grows n (record n { log = l })
  unfolding progress
  cut-Grows i n l lt h =
      let (above, cases) = truncate_suffix-cases env.disk_ok i n.log l h in
      elim cases [
        | inl (past, same) ↦ rw same (Advances-refl _)
        | inr (le, new) ↦
            rw new
              (Advances-cut (progress n) (i - n.log.snapshot.index - 1) (omega arith) (omega arith))
      ]

  resolve_conflict-Grows : (e : Entry) (n : Node S) → Grows n (state (resolve_conflict env e n))
  unfolding resolve_conflict
  resolve_conflict-Grows e n =
      grind (arith, Advances-refl (progress n), λ (l : Log). cut-Grows e.index n l)

  store_entries-Grows :
      (es appended : List Entry) (n : Node S) → Grows n (state (store_entries env es appended n))
  unfolding store_entries
  store_entries-Grows [] appended n =
      grind (arith, Advances-of_eq (progress-unhealthy env n), appended-Grows env appended n)
  store_entries-Grows (e ∷ es) appended n =
      Grows-bind n (resolve_conflict env e n)
        (λ m.
          store_entries env es
            (if ltb (last_index m.log) e.index then appended ++ e ∷ [] else appended) m)
        (resolve_conflict-Grows e n)
        (λ m.
          store_entries-Grows es
            (if ltb (last_index m.log) e.index then appended ++ e ∷ [] else appended) m)

  -- The log, with the entries still to be appended, reaches the index before the next entry.
  reach-resolve_conflict :
      (e : Entry) (n m : Node S) (previous k : ℕ)
      → e.index ≡ suc previous
      → previous ≤ last_index n.log + k
      → resolve_conflict env e n ≡ done m
      → previous ≤ last_index m.log + k
  unfolding resolve_conflict truncate_suffix
  reach-resolve_conflict e n m previous k index le h =
      ground (arith, length-take (e.index - n.log.snapshot.index - 1) n.log.entries)

  reach-store_entries :
      (es appended : List Entry) (n m : Node S) (previous : ℕ)
      → Chained previous es
      → previous ≤ last_index n.log + length appended
      → store_entries env es appended n ≡ done m
      → previous + length es ≤ last_index m.log
  unfolding store_entries
  reach-store_entries [] appended n m previous c le h =
      grind (arith, λ (l : Log). last_index-append_batch env.disk_ok appended n.log l)
  reach-store_entries (e ∷ es) appended n m previous c le h =
      let (k, first, rest) = >>=-eq-done (resolve_conflict env e n) _ h in
      let reached = reach-resolve_conflict e n k previous (length appended) c.0 le first in
      let more = if ltb (last_index k.log) e.index then appended ++ e ∷ [] else appended in
      let covered : suc previous ≤ last_index k.log + length more =
        ground (arith, c.0, reached, length-append appended (e ∷ [])) in
      let ih = reach-store_entries es more k m (suc previous) c.2 covered rest in omega (arith, ih)

  progress-reply_append :
      (from rpc : ℕ) (success : Bool) (i : ℕ) (n : Node S)
      → progress (reply_append env from rpc success i n) ≡ progress n
  unfolding reply_append
  progress-reply_append from rpc success i n = progress-emit env from _ n

  commit_through-Grows :
      (c matched : ℕ) (n : Node S)
      → matched ≤ last_index n.log
      → Grows n (state (commit_through env c matched n))
  unfolding commit_through progress
  commit_through-Grows c matched n h =
      let k = max n.commit_index (min c matched) in
      Advances-trans {q = record (progress n) { commit = k }}
        (Advances-commit (progress n) k (omega arith) (λ s. omega (arith, s.commit_le)))
        (apply_committed-Grows env (record n { commit_index = k }))

  take_entries-Grows :
      (from : ℕ) (r : Accepted) (n : Node S)
      → Chained r.prev_log_index r.entries
      → r.prev_log_index ≤ last_index n.log
      → Grows n (state (take_entries env from r n))
  unfolding take_entries
  take_entries-Grows from r n c le =
      let matched = r.prev_log_index + length r.entries in
      Grows-then n (store_entries env r.entries [] n >>= commit_through env r.leader_commit matched)
        (reply_append env from r.rpc_id true matched)
        (Grows-bind_done n (store_entries env r.entries [] n)
          (commit_through env r.leader_commit matched) (store_entries-Grows r.entries [] n)
          (λ m e.
            commit_through-Grows r.leader_commit matched m
              (reach-store_entries r.entries [] n m r.prev_log_index c (omega arith) e)))
        (progress-reply_append from r.rpc_id true matched)

  follow_leader-Grows :
      (from : ℕ) (r : Accepted) (n : Node S)
      → Chained r.prev_log_index r.entries
      → Grows n (state (follow_leader env from r n))
  unfolding follow_leader
  follow_leader-Grows from r n c =
      let m : Node S = reset_election_timer env (record n { leader_id = some from }) in
      let same : progress m ≡ progress n = unfold reset_election_timer progress in refl in
      grind (
        arith,
        λ (le : r.prev_log_index ≤ last_index m.log).
            Advances-trans (Advances-of_eq same) (take_entries-Grows from r m c le),
        get_term-le m.log r.prev_log_index r.prev_log_term,
        λ (i : ℕ). Advances-of_eq (progress-reply_append from r.rpc_id false i m ∙ same),
      )

  answer_append-Grows :
      (from : ℕ) (r : Accepted) (n : Node S)
      → Chained r.prev_log_index r.entries
      → Grows n (state (answer_append env from r n))
  unfolding answer_append answer_in_term
  answer_append-Grows from r n c =
      raise_term-Grows env
        (ltb n.current_term r.term || r.term == n.current_term && not (is_follower_role n.role))
        r.term n (answer_in_term env from r)
        (λ m. ground (
          arith,
          follow_leader-Grows from r m c,
          Advances-of_eq (progress-reply_append from r.rpc_id false (last_index m.log) m),
        ))

-- The entries of a request that is accepted follow the index before them.
check_entries-Chained :
    (term index previous : ℕ) (ws : List WireEntry) (es : List Entry)
    → check_entries term index previous ws ≡ some es
    → Chained index es
unfolding check_entries
check_entries-Chained term index previous [] [] h = tt
check_entries-Chained term index previous [] (e ∷ es) h = cc
check_entries-Chained term index previous (w ∷ ws) [] h = tt
check_entries-Chained term index previous (w ∷ ws) (e ∷ es) h =
    let next : index + 1 ≡ suc index = omega arith in
    let ih : check_entries term (index + 1) (pos_part w.term) ws ≡ some es = ground arith in
    (ground arith, ground arith, rw next at (check_entries-Chained term (index + 1) _ ws es ih))

accept_append-Chained :
    {S : Type 0} (n : Node S) (from : ℕ) (r : AppendEntries) (a : Accepted)
    → accept_append n from r ≡ some a
    → Chained a.prev_log_index a.entries
unfolding accept_append
accept_append-Chained n from r a h =
    let term = pos_part r.term in
    let index = pos_part r.prev_log_index in
    let previous = pos_part r.prev_log_term in
    let checked : check_entries term index previous r.entries ≡ some a.entries = ground arith in
    let same : a.prev_log_index ≡ index = ground arith in
    rw same (check_entries-Chained term index previous r.entries a.entries checked)

-- A follower handles AppendEntries, and whatever the request holds: the log keeps its shape, no
-- index moves back, and every entry committed before that the snapshot does not cover is the same.
pub handle_append_entries-Grows :
    {S : Type 0} (env : Env S) (from : ℕ) (r : AppendEntries) (n : Node S)
    → Grows n (state (handle_append_entries env from r n))
unfolding handle_append_entries
handle_append_entries-Grows env from r n = elim (Option-cases (accept_append n from r)) [
  | inl e ↦ rw (e, handle_append_entries) (Advances-refl (progress n))
  | inr (a, e) ↦
      rw (e, handle_append_entries)
        (answer_append-Grows env from a n (accept_append-Chained n from r a e))
]
