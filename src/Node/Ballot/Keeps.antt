-- ===== src/Node/Ballot/Keeps.antt =====
-- Applying, proposing and sending, and the term, the vote and the hard state.
use raft_kv.Base.{
  minus_size, ℕ, zero, suc, ◌+◌, ◌-◌, ◌≡◌, refl, ap, ◌∙◌, false, Option, none, List, [], ◌∷◌, ◌++◌,
  Bytes, arith, inl, inr, Option-cases, length,
}
use raft_kv.Outcome.{Outcome, done, fault, ◌>>=◌, state}
use raft_kv.Log.{HardState, compact_applied, persist_snapshot, append_batch}
use raft_kv.Node.State.{Node, Env, Proposal, Reason, ApplyJob}
use raft_kv.Node.Send.{broadcast_append_entries}
use raft_kv.Node.Reads.{process_pending_reads}
use raft_kv.Node.Apply.{
  settle, take_pending, answer, enable_reads, finish_apply, take_snapshot, maybe_snapshot,
  apply_now, submit, apply_loop, apply_committed, apply_completed, raise_commit,
  advance_commit_index, mark_unhealthy,
}
use raft_kv.Node.Propose.{append_proposals, register, fail_pending, propose_batch, propose}
use raft_kv.Node.Core.{Core, core, core-process_pending, core-broadcast}

pub record Ballot : Type 0 where
  pub term : ℕ
  pub vote : Option ℕ
  pub hard : HardState

unfoldable pub ballot : {S : Type 0} → Node S → Ballot
ballot n = record { term = n.current_term; vote = n.voted_for; hard = n.log.hard }

module _ {S : Type 0} where
  pub ballot-core : (m n : Node S) → core m ≡ core n → ballot m ≡ ballot n
  unfolding core ballot
  ballot-core m n e =
      ap (λ (c : Core S). record { term = c.current_term; vote = c.voted_for; hard = c.log.hard }) e

  ballot-settle : (i : ℕ) (rs : List Bytes) (n : Node S) → ballot (settle i rs n) ≡ ballot n
  unfolding settle ballot
  ballot-settle i [] n = refl
  ballot-settle i (r ∷ rs) n = elim (Option-cases (take_pending i n.pending)) [
    | inl e ↦ rw (e, settle) (ballot-settle (i + 1) rs n)
    | inr ((p, rest), e) ↦
        rw (e, settle)
          (ballot-settle (i + 1) rs (record n {
            pending = rest;
            pending_bytes = minus_size n.pending_bytes p.bytes;
            outbox = n.outbox ++ answer p.callback r;
          }))
  ]

  ballot-enable_reads : (n : Node S) → ballot (enable_reads n) ≡ ballot n
  unfolding enable_reads ballot
  ballot-enable_reads n = ground arith

  pub ballot-fail_pending : (why : Reason) (n : Node S) → ballot (fail_pending why n) ≡ ballot n
  unfolding fail_pending ballot
  ballot-fail_pending why n = refl

  ballot-applied :
      (n : Node S) (m : S) (k : ℕ) → ballot (record n { machine = m; last_applied = k }) ≡ ballot n
  unfolding ballot
  ballot-applied n m k = refl

module _ {S : Type 0} (env : Env S) where
  pub ballot-bind :
      (n : Node S) (o : Outcome (Node S)) (f : Node S → Outcome (Node S))
      → ballot (state o) ≡ ballot n
      → ((m : Node S) → ballot (state (f m)) ≡ ballot m)
      → ballot (state (o >>= f)) ≡ ballot n
  ballot-bind n (done m) f h k = k m ∙ h
  ballot-bind n (fault e m) f h k = h

  ballot-pending_reads : (n : Node S) → ballot (state (process_pending_reads env n)) ≡ ballot n
  ballot-pending_reads n = ballot-core _ _ (core-process_pending env n)

  pub ballot-broadcast : (n : Node S) → ballot (state (broadcast_append_entries env n)) ≡ ballot n
  ballot-broadcast n = ballot-core _ _ (core-broadcast env n)

  ballot-finish_apply :
      (first count : ℕ) (rs : List Bytes) (n : Node S)
      → ballot (state (finish_apply env first count rs n)) ≡ ballot n
  unfolding finish_apply
  ballot-finish_apply first count rs n =
      let m : Node S = record n { last_applied = n.last_applied + count } in
      ground (
        arith,
        ballot-bind n (process_pending_reads env (enable_reads m)) (λ n'. done (settle first rs n'))
            (ballot-pending_reads (enable_reads m)
              ∙ ballot-enable_reads m
              ∙ ballot-applied n n.machine _)
            (ballot-settle first rs),
      )

  ballot-mark : (o : Outcome (Node S)) → ballot (state (mark_unhealthy env o)) ≡ ballot (state o)
  unfolding ballot
  ballot-mark (done m) = refl
  ballot-mark (fault e m) = refl

  ballot-apply_now :
      (first : ℕ) (cs : List Bytes) (n : Node S)
      → ballot (state (apply_now env first cs n)) ≡ ballot n
  unfolding apply_now
  ballot-apply_now first cs n = elim (Option-cases (env.apply_batch n.machine first cs)) [
    | inl e ↦ rw (e, apply_now) (unfold ballot in refl)
    | inr ((rs, m), e) ↦
        let n' : Node S = record n { machine = m } in
        rw (e, apply_now)
          (ballot-mark (finish_apply env first (length cs) rs n')
            ∙ ballot-finish_apply first (length cs) rs n'
            ∙ ballot-applied n m n.last_applied)
  ]

  ballot-take_snapshot : (t : ℕ) (n : Node S) → ballot (state (take_snapshot env t n)) ≡ ballot n
  unfolding take_snapshot ballot compact_applied persist_snapshot
  ballot-take_snapshot t n = ground arith

  ballot-maybe_snapshot : (n : Node S) → ballot (state (maybe_snapshot env n)) ≡ ballot n
  unfolding maybe_snapshot
  ballot-maybe_snapshot n = grind (arith, ballot-take_snapshot)

  ballot-submit :
      (first : ℕ) (cs : List Bytes) (n : Node S) → ballot (state (submit env first cs n)) ≡ ballot n
  unfolding submit ballot
  ballot-submit first cs n = ground arith

  ballot-apply_turn :
      (fuel : ℕ) (n : Node S) (cs : List Bytes)
      → ((m : Node S) → ballot (state (apply_loop env fuel m)) ≡ ballot m)
      → ballot (state (apply_now env (n.last_applied + 1) cs n >>= apply_loop env fuel)) ≡ ballot n
  ballot-apply_turn fuel n cs ih =
      ballot-bind n (apply_now env (n.last_applied + 1) cs n) (apply_loop env fuel)
        (ballot-apply_now _ cs n) ih

  ballot-apply_loop : (fuel : ℕ) (n : Node S) → ballot (state (apply_loop env fuel n)) ≡ ballot n
  unfolding apply_loop
  ballot-apply_loop zero n = ballot-maybe_snapshot n
  ballot-apply_loop (suc fuel) n = grind (
    arith,
    ballot-maybe_snapshot n,
    ballot-submit (n.last_applied + 1),
    λ (cs : List Bytes). ballot-apply_turn fuel n cs (ballot-apply_loop fuel),
  )

  pub ballot-apply_committed : (n : Node S) → ballot (state (apply_committed env n)) ≡ ballot n
  unfolding apply_committed
  ballot-apply_committed n = ground (arith, ballot-apply_loop (n.commit_index - n.last_applied) n)

  ballot-job :
      (n : Node S) (j : Option ApplyJob) → ballot (record n { apply_inflight = j }) ≡ ballot n
  unfolding ballot
  ballot-job n j = refl

  ballot-completion :
      (n : Node S) (m : S) (job : ApplyJob) (rs : List Bytes)
      → ballot (
          state (
            finish_apply env job.first (length job.commands) rs (record n { machine = m }) >>= λ n'.
            apply_committed env (record n' { apply_inflight = none })))
        ≡ ballot n
  ballot-completion n m job rs =
      let n' : Node S = record n { machine = m } in
      ballot-bind n (finish_apply env job.first (length job.commands) rs n')
        (λ k. apply_committed env (record k { apply_inflight = none }))
        (ballot-finish_apply job.first (length job.commands) rs n'
          ∙ ballot-applied n m n.last_applied)
        (λ k. ballot-apply_committed (record k { apply_inflight = none }) ∙ ballot-job k none)

  ballot-unhealthy : (n : Node S) → ballot (record n { storage_healthy = false }) ≡ ballot n
  unfolding ballot
  ballot-unhealthy n = refl

  pub ballot-apply_completed : (n : Node S) → ballot (state (apply_completed env n)) ≡ ballot n
  unfolding apply_completed
  ballot-apply_completed n = grind (arith, ballot-completion n, ballot-unhealthy n)

  ballot-raise : (n : Node S) → ballot (raise_commit env n) ≡ ballot n
  unfolding raise_commit ballot
  ballot-raise n = ground arith

  pub ballot-advance : (n : Node S) → ballot (state (advance_commit_index env n)) ≡ ballot n
  unfolding advance_commit_index
  ballot-advance n = ballot-apply_committed (raise_commit env n) ∙ ballot-raise n

  ballot-append_proposals :
      (first : ℕ) (ps : List Proposal) (n : Node S)
      → ballot (state (append_proposals env first ps n)) ≡ ballot n
  unfolding append_proposals register append_batch fail_pending ballot
  ballot-append_proposals first ps n = ground arith

  ballot-admitted :
      (first : ℕ) (ps : List Proposal) (n : Node S)
      → ballot (
          state (
            append_proposals env first ps n
            >>= broadcast_append_entries env
            >>= advance_commit_index env))
        ≡ ballot n
  ballot-admitted first ps n =
      ballot-bind n (append_proposals env first ps n >>= broadcast_append_entries env)
        (advance_commit_index env)
        (ballot-bind n (append_proposals env first ps n) (broadcast_append_entries env)
          (ballot-append_proposals first ps n) ballot-broadcast)
        ballot-advance

  pub ballot-propose_batch :
      (ps : List Proposal) (n : Node S) → ballot (state (propose_batch env ps n)) ≡ ballot n
  unfolding propose_batch
  ballot-propose_batch ps n = grind (arith, λ (first : ℕ). ballot-admitted first ps n)

  pub ballot-propose : (p : Proposal) (n : Node S) → ballot (state (propose env p n)) ≡ ballot n
  unfolding propose
  ballot-propose p n = ballot-propose_batch (p ∷ []) n
