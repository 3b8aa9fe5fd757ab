-- ===== src/Node/Progress/Committing.antt =====
-- The completion of an asynchronous apply, the commit index of a leader, and its proposals.
use raft_kv.Base.{
  ℕ, suc, ◌+◌, ◌≤◌, ◌<◌, ◌≡◌, refl, ap, ◌∙◌, true, false, none, some, List, [], ◌∷◌, Bytes, arith,
  length,
}
use raft_kv.Outcome.{◌>>=◌, state, ok}
use raft_kv.Log.{Log, Entry, append_batch, last_index, get_term, term_is}
use raft_kv.Log.Laws.{append_batch-cases, get_term-le}
use raft_kv.Log.Entries.{consecutive-Chained}
use raft_kv.Node.State.{Node, Env, ApplyJob, Proposal, Reason, storage_failed}
use raft_kv.Node.Send.{broadcast_append_entries}
use raft_kv.Node.Apply.{
  finish_apply, apply_committed, apply_completed, raise_commit, advance_commit_index,
  majority_match,
}
use raft_kv.Node.Propose.{
  append_proposals, register, fail_pending, propose_batch, propose, make_entries,
}
use raft_kv.Node.Core.{core-broadcast}
use raft_kv.Node.Progress.Relation.{
  progress, job_end, IsSound, Advances-refl, Advances-trans, Advances-of_eq, Advances-given,
  Advances-commit, Advances-append, Advances-idle, progress-core, Grows, Grows-bind,
}
use raft_kv.Node.Progress.Applying.{
  finish_apply-Grows, apply_committed-Grows, progress-machine, progress-unhealthy,
}

module _ {S : Type 0} (env : Env S) where
  progress-idle :
      (n : Node S)
      → progress (record n { apply_inflight = none }) ≡ record (progress n) { job = none }
  unfolding progress
  progress-idle n = refl

  resume-Grows :
      (n : Node S) → Grows n (state (apply_committed env (record n { apply_inflight = none })))
  resume-Grows n =
      Advances-trans (Advances-idle (progress n))
        (rw (progress-idle n) at (apply_committed-Grows env (record n { apply_inflight = none })))

  completion-Grows :
      (n : Node S) (m : S) (j : ApplyJob) (rs : List Bytes)
      → n.apply_inflight ≡ some j
      → Grows n (
          state (
            finish_apply env j.first (length j.commands) rs (record n { machine = m }) >>= λ n'.
            apply_committed env (record n' { apply_inflight = none })))
  completion-Grows n m j rs e =
      let n' : Node S = record n { machine = m } in
      Advances-given λ s.
        Grows-bind n (finish_apply env j.first (length j.commands) rs n')
          (λ k. apply_committed env (record k { apply_inflight = none }))
          (Advances-trans (Advances-of_eq (progress-machine env n m))
            (finish_apply-Grows env j.first (length j.commands) rs n' (fits s)))
          resume-Grows
    where
      fits : IsSound (progress n) → j.first + length j.commands ≤ suc n.commit_index
      fits s = unfold progress in omega (arith, s.job_fits, ap job_end e)

  pub apply_completed-Grows : (n : Node S) → Grows n (state (apply_completed env n))
  unfolding apply_completed
  apply_completed-Grows n = grind (
    arith,
    Advances-refl (progress n),
    Advances-of_eq (progress-unhealthy env n),
    completion-Grows n,
  )

  pub raise_commit-Grows : (n : Node S) → Grows n (raise_commit env n)
  unfolding raise_commit progress
  raise_commit-Grows n =
      let k = majority_match env n in
      grind (
        arith,
        Advances-refl (progress n),
        λ (lt : n.commit_index < k) (t : term_is (get_term n.log k) n.current_term ≡ true).
            Advances-commit (progress n) k (omega arith)
              (λ s. get_term-le n.log k n.current_term t),
      )

  pub advance_commit_index-Grows : (n : Node S) → Grows n (state (advance_commit_index env n))
  unfolding advance_commit_index
  advance_commit_index-Grows n =
      Advances-trans (raise_commit-Grows n) (apply_committed-Grows env (raise_commit env n))

  pub progress-broadcast :
      (n : Node S) → progress (state (broadcast_append_entries env n)) ≡ progress n
  progress-broadcast n = progress-core _ n (core-broadcast env n)

  pub progress-fail_pending :
      (why : Reason) (n : Node S) → progress (fail_pending why n) ≡ progress n
  unfolding fail_pending progress
  progress-fail_pending why n = refl

  progress-register :
      (first : ℕ) (ps : List Proposal) (n : Node S)
      → progress (register env first ps n) ≡ progress n
  unfolding register progress
  progress-register first ps n = refl

  -- A durable append puts chained entries behind the last one.
  pub appended-Grows :
      (es : List Entry) (n : Node S) (l : Log)
      → append_batch env.disk_ok es n.log ≡ ok l
      → Grows n (record n { log = l })
  unfolding progress
  appended-Grows es n l h =
      let (chain, snap, ents) = append_batch-cases env.disk_ok es n.log l h in
      rw (snap, ents)
        (Advances-append (progress n) es (consecutive-Chained (last_index n.log) es chain))

  append_proposals-Grows :
      (first : ℕ) (ps : List Proposal) (n : Node S)
      → Grows n (state (append_proposals env first ps n))
  unfolding append_proposals
  append_proposals-Grows first ps n =
      let m : Node S = record n { storage_healthy = false } in
      grind (
        arith,
        Advances-refl (progress n),
        Advances-of_eq (progress-fail_pending storage_failed m ∙ progress-unhealthy env n),
        λ (l : Log)
              (h : append_batch env.disk_ok (make_entries first n.current_term ps) n.log ≡ ok l).
            Advances-trans (appended-Grows (make_entries first n.current_term ps) n l h)
              (Advances-of_eq (progress-register first ps (record n { log = l }))),
      )

  admitted-Grows :
      (first : ℕ) (ps : List Proposal) (n : Node S)
      → Grows n (
          state (
            append_proposals env first ps n
            >>= broadcast_append_entries env
            >>= advance_commit_index env))
  admitted-Grows first ps n =
      Grows-bind n (append_proposals env first ps n >>= broadcast_append_entries env)
        (advance_commit_index env)
        (Grows-bind n (append_proposals env first ps n) (broadcast_append_entries env)
          (append_proposals-Grows first ps n) (λ m. Advances-of_eq (progress-broadcast m)))
        advance_commit_index-Grows

  pub propose_batch-Grows :
      (ps : List Proposal) (n : Node S) → Grows n (state (propose_batch env ps n))
  unfolding propose_batch
  propose_batch-Grows ps n =
      grind (arith, Advances-refl (progress n), λ (first : ℕ). admitted-Grows first ps n)

  pub propose-Grows : (p : Proposal) (n : Node S) → Grows n (state (propose env p n))
  unfolding propose
  propose-Grows p n = propose_batch-Grows (p ∷ []) n
