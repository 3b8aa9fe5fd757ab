-- ===== src/Node/Progress/Applying.antt =====
-- Applying committed entries, and the snapshot that follows.
use raft_kv.Base.{
  minus_size, ℕ, zero, suc, ◌+◌, ◌-◌, ◌≤◌, ◌<◌, ◌≡◌, refl, ◌∙◌, false, some, List, [], ◌∷◌, ◌++◌,
  Bytes, arith, inl, inr, Option-cases, length, length-drop, drop,
}
use raft_kv.Outcome.{Outcome, done, fault, ◌>>=◌, state, ok}
use raft_kv.Log.{Log, Snapshot, compact_applied}
use raft_kv.Log.Laws.{compact_applied-cases}
use raft_kv.Log.Entries.{Chained-drop, entry_at-drop}
use raft_kv.Node.State.{Node, Env, ApplyJob}
use raft_kv.Node.Reads.{process_pending_reads}
use raft_kv.Node.Apply.{
  settle, take_pending, answer, enable_reads, finish_apply, take_snapshot, maybe_snapshot,
  apply_now, submit, apply_loop, apply_committed, gather, mark_unhealthy,
}
use raft_kv.Node.Core.{core-process_pending}
use raft_kv.Node.Progress.Relation.{
  Progress, progress, Advances, Advances-refl, Advances-trans, Advances-of_eq, progress-core, Grows,
  Grows-bind, Grows-then,
}

-- The batch is no longer than the rounds given.
pub gather-le :
    (l : Log) (left i count bytes : ℕ) {cs : List Bytes}
    → gather l left i count bytes ≡ ok cs
    → length cs ≤ left
unfolding gather
gather-le l zero i count bytes h = ground arith
gather-le l (suc left) i count bytes h =
    grind (arith, λ (b : ℕ) (cs : List Bytes). gather-le l left (i + 1) (count + 1) b {cs = cs})

module _ {S : Type 0} where
  progress-settle : (i : ℕ) (rs : List Bytes) (n : Node S) → progress (settle i rs n) ≡ progress n
  unfolding settle progress
  progress-settle i [] n = refl
  progress-settle i (r ∷ rs) n = elim (Option-cases (take_pending i n.pending)) [
    | inl e ↦ rw (e, settle) (progress-settle (i + 1) rs n)
    | inr ((p, rest), e) ↦
        rw (e, settle)
          (progress-settle (i + 1) rs (record n {
            pending = rest;
            pending_bytes = minus_size n.pending_bytes p.bytes;
            outbox = n.outbox ++ answer p.callback r;
          }))
  ]

  progress-enable_reads : (n : Node S) → progress (enable_reads n) ≡ progress n
  unfolding enable_reads progress
  progress-enable_reads n = ground arith

  -- Entries up to the commit index are applied.
  applied-Grows :
      (n : Node S) (k : ℕ)
      → n.last_applied + k ≤ n.commit_index
      → Grows n (record n { last_applied = n.last_applied + k })
  unfolding progress
  applied-Grows n k h = record {
    sound = λ s. record {
      chained = s.chained;
      snapshot_le = omega (arith, s.snapshot_le);
      applied_le = omega arith;
      commit_le = s.commit_le;
      job_fits = s.job_fits;
    };
    kept = λ s. record {
      snapshot_le = omega arith;
      applied_le = omega arith;
      commit_le = omega arith;
      same = λ i a b. refl;
    };
  }

module _ {S : Type 0} (env : Env S) where
  pub finish_apply-Grows :
      (first count : ℕ) (rs : List Bytes) (n : Node S)
      → first + count ≤ suc n.commit_index
      → Grows n (state (finish_apply env first count rs n))
  unfolding finish_apply
  finish_apply-Grows first count rs n h =
      let m : Node S = record n { last_applied = n.last_applied + count } in
      let rest : progress (state (process_pending_reads env (enable_reads m))) ≡ progress m =
        progress-core _ (enable_reads m) (core-process_pending env (enable_reads m))
        ∙ progress-enable_reads m in
      grind (
        arith,
        Advances-refl (progress n),
        λ (e : first ≡ n.last_applied + 1).
            Grows-then n (process_pending_reads env (enable_reads m)) (settle first rs)
              (Advances-trans (applied-Grows n count (omega arith)) (Advances-of_eq rest))
              (progress-settle first rs),
      )

  progress-mark :
      (o : Outcome (Node S)) → progress (state (mark_unhealthy env o)) ≡ progress (state o)
  unfolding progress
  progress-mark (done m) = refl
  progress-mark (fault e m) = refl

  pub progress-machine : (n : Node S) (m : S) → progress (record n { machine = m }) ≡ progress n
  unfolding progress
  progress-machine n m = refl

  pub progress-unhealthy :
      (n : Node S) → progress (record n { storage_healthy = false }) ≡ progress n
  unfolding progress
  progress-unhealthy n = refl

  apply_now-Grows :
      (cs : List Bytes) (n : Node S)
      → n.last_applied + length cs ≤ n.commit_index
      → Grows n (state (apply_now env (n.last_applied + 1) cs n))
  unfolding apply_now
  apply_now-Grows cs n h = elim (Option-cases (env.apply_batch n.machine (n.last_applied + 1) cs)) [
    | inl e ↦ rw (e, apply_now) (Advances-of_eq (progress-unhealthy n))
    | inr ((rs, m), e) ↦
        let n' : Node S = record n { machine = m } in
        rw (e, apply_now)
          (Advances-trans (Advances-of_eq (progress-machine n m)) (
            Advances-trans (finish_apply-Grows (n.last_applied + 1) (length cs) rs n' (omega arith))
              (Advances-of_eq
                (progress-mark (finish_apply env (n.last_applied + 1) (length cs) rs n')))))
  ]

  -- A compaction at the applied index drops applied entries only.
  compacted-Advances :
      (p : Progress) (s : Snapshot)
      → s.index ≡ p.applied
      → p.snapshot.index < s.index
      → Advances p
          (record p { snapshot = s; entries = drop (s.index - p.snapshot.index) p.entries })
  compacted-Advances p s e lt =
      let k = s.index - p.snapshot.index in
      let at : p.snapshot.index + k ≡ s.index = omega arith in
      record {
        sound = λ h. record {
          chained = rw at at (Chained-drop k p.snapshot.index p.entries (omega arith) h.chained);
          snapshot_le = omega arith;
          applied_le = h.applied_le;
          commit_le = omega (arith, length-drop k p.entries, h.commit_le, h.applied_le);
          job_fits = h.job_fits;
        };
        kept = λ h. record {
          snapshot_le = omega arith;
          applied_le = omega arith;
          commit_le = omega arith;
          same = λ i a b. rw at at (
              entry_at-drop k p.snapshot.index p.entries i (omega arith)
                (omega (arith, h.commit_le, h.applied_le)));
        };
      }

  compacted-Grows :
      (n : Node S) (s : Snapshot) (l : Log)
      → s.index ≡ n.last_applied
      → compact_applied env.disk_ok s n.log ≡ ok l
      → Grows n (record n { last_snapshot_attempt = n.last_applied; log = l })
  unfolding progress
  compacted-Grows n s l e h = elim (compact_applied-cases env.disk_ok s n.log l h) [
    | inl same ↦ rw same (Advances-refl _)
    | inr (lt, le, t, new) ↦ rw new (compacted-Advances (progress n) s e lt)
  ]

  progress-attempt :
      (n : Node S) (k : ℕ) → progress (record n { last_snapshot_attempt = k }) ≡ progress n
  unfolding progress
  progress-attempt n k = refl

  take_snapshot-Grows : (t : ℕ) (n : Node S) → Grows n (state (take_snapshot env t n))
  unfolding take_snapshot
  take_snapshot-Grows t n = grind (
    arith,
    Advances-refl (progress n),
    Advances-of_eq (progress-attempt n n.last_applied),
    λ (bytes : Bytes) (l : Log).
        compacted-Grows n (record { index = n.last_applied; term = t; bytes = bytes }) l refl,
  )

  maybe_snapshot-Grows : (n : Node S) → Grows n (state (maybe_snapshot env n))
  unfolding maybe_snapshot
  maybe_snapshot-Grows n = grind (arith, take_snapshot-Grows, Advances-refl (progress n))

  submit-Grows :
      (cs : List Bytes) (n : Node S)
      → n.last_applied + length cs ≤ n.commit_index
      → Grows n (state (submit env (n.last_applied + 1) cs n))
  unfolding submit progress
  submit-Grows cs n h =
      let j : ApplyJob = record { first = n.last_applied + 1; commands = cs } in
      let taken : Advances (progress n) (record (progress n) { job = some j }) = record {
        sound = λ s. record {
          chained = s.chained;
          snapshot_le = s.snapshot_le;
          applied_le = s.applied_le;
          commit_le = s.commit_le;
          job_fits = omega arith;
        };
        kept = λ s. record {
          snapshot_le = omega arith;
          applied_le = omega arith;
          commit_le = omega arith;
          same = λ i a b. refl;
        };
      } in
      ground (arith, taken)

  apply_turn-Grows :
      (fuel : ℕ) (n : Node S) (cs : List Bytes)
      → ((m : Node S) → Grows m (state (apply_loop env fuel m)))
      → n.last_applied + length cs ≤ n.commit_index
      → Grows n (state (apply_now env (n.last_applied + 1) cs n >>= apply_loop env fuel))
  apply_turn-Grows fuel n cs ih h =
      Grows-bind n (apply_now env (n.last_applied + 1) cs n) (apply_loop env fuel)
        (apply_now-Grows cs n h) ih

  apply_loop-Grows : (fuel : ℕ) (n : Node S) → Grows n (state (apply_loop env fuel n))
  unfolding apply_loop
  apply_loop-Grows zero n = maybe_snapshot-Grows n
  apply_loop-Grows (suc fuel) n = grind (
    arith,
    maybe_snapshot-Grows n,
    Advances-refl (progress n),
    λ (cs : List Bytes). submit-Grows cs n,
    λ (cs : List Bytes).
        gather-le n.log (n.commit_index - n.last_applied) (n.last_applied + 1) 0 0 {cs = cs},
    λ (cs : List Bytes). apply_turn-Grows fuel n cs (apply_loop-Grows fuel),
  )

  pub apply_committed-Grows : (n : Node S) → Grows n (state (apply_committed env n))
  unfolding apply_committed
  apply_committed-Grows n =
      grind
        (arith, apply_loop-Grows (n.commit_index - n.last_applied) n, Advances-refl (progress n))
