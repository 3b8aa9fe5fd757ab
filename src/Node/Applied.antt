-- ===== src/Node/Applied.antt =====
-- ApplyCommitted on the synchronous path.
use raft_kv.Base.{
  minus_size, ℕ, zero, suc, ◌+◌, ◌-◌, ◌≤◌, ◌<◌, ◌≡◌, refl, sym, ap, ◌∙◌, Bool, true, false, not,
  ◌||◌, none, List, [], ◌∷◌, ◌++◌, Bytes, arith, inl, inr, Bool-cases, Option-cases, length, ltb,
  ◌==◌,
}
use raft_kv.Outcome.{done, ◌>>=◌, state, ok, >>=-eq-done, Result-cases}
use raft_kv.Log.{Log}
use raft_kv.Node.State.{Node, Env}
use raft_kv.Node.Reads.{process_pending_reads}
use raft_kv.Node.Apply.{
  settle, take_pending, answer, enable_reads, finish_apply, take_snapshot, maybe_snapshot,
  apply_now, apply_loop, apply_committed, gather,
}
use raft_kv.Node.Core.{Core, core, core-process_pending}
use raft_kv.Node.Progress.Applying.{gather-le}

-- The part of a node that the loop of ApplyCommitted tests.
pub record Stage : Type 0 where
  pub applied : ℕ
  pub commit : ℕ
  pub running : Bool
  pub async : Bool

abbrev pub stage : {S : Type 0} → Node S → Stage
stage n = record {
  applied = n.last_applied;
  commit = n.commit_index;
  running = n.running;
  async = n.async_apply;
}

-- A turn takes at least one command.
gather-positive :
    (l : Log) (left i bytes : ℕ) {cs : List Bytes}
    → 0 < left
    → gather l left i 0 bytes ≡ ok cs
    → 0 < length cs
unfolding gather
gather-positive l zero i bytes pos h = elim pos [ ]
gather-positive l (suc left) i bytes pos h = ground arith

module _ {S : Type 0} where
  stage-core : (m n : Node S) → core m ≡ core n → stage m ≡ stage n
  unfolding core
  stage-core m n e =
      ap
        (λ (c : Core S). record {
          applied = c.last_applied;
          commit = c.commit_index;
          running = c.running;
          async = c.async_apply;
        })
        e

  stage-settle : (i : ℕ) (rs : List Bytes) (n : Node S) → stage (settle i rs n) ≡ stage n
  unfolding settle
  stage-settle i [] n = refl
  stage-settle i (r ∷ rs) n = elim (Option-cases (take_pending i n.pending)) [
    | inl e ↦ rw (e, settle) (stage-settle (i + 1) rs n)
    | inr ((p, rest), e) ↦
        rw (e, settle)
          (stage-settle (i + 1) rs (record n {
            pending = rest;
            pending_bytes = minus_size n.pending_bytes p.bytes;
            outbox = n.outbox ++ answer p.callback r;
          }))
  ]

  stage-enable_reads : (n : Node S) → stage (enable_reads n) ≡ stage n
  unfolding enable_reads
  stage-enable_reads n = ground arith

module _ {S : Type 0} (env : Env S) where
  stage-finish_apply :
      (first count : ℕ) (rs : List Bytes) (n m : Node S)
      → finish_apply env first count rs n ≡ done m
      → stage m ≡ record (stage n) { applied = n.last_applied + count }
  unfolding finish_apply
  stage-finish_apply first count rs n m h =
      elim (Bool-cases (not (first == n.last_applied + 1) || not (length rs == count))) [
        | inl bad ↦ absurd (ground arith)
        | inr good ↦
            let k : Node S = enable_reads (record n { last_applied = n.last_applied + count }) in
            let chain : (process_pending_reads env k >>= λ x. done (settle first rs x)) ≡ done m =
              ground arith in
            let (x, served, last) =
              >>=-eq-done (process_pending_reads env k) (λ x. done (settle first rs x)) chain in
            let same : m ≡ settle first rs x = ground arith in
            let read : stage x ≡ stage k =
              stage-core x k (ap (λ o. core (state o)) (sym served) ∙ core-process_pending env k) in
            rw same (
              stage-settle first rs x
              ∙ read
              ∙ stage-enable_reads (record n { last_applied = n.last_applied + count }))
      ]

  stage-apply_now :
      (cs : List Bytes) (n m : Node S)
      → apply_now env (n.last_applied + 1) cs n ≡ done m
      → stage m ≡ record (stage n) { applied = n.last_applied + length cs }
  unfolding apply_now
  stage-apply_now cs n m h =
      elim (Option-cases (env.apply_batch n.machine (n.last_applied + 1) cs)) [
        | inl e ↦ absurd (ground arith)
        | inr ((rs, x), e) ↦
            let finished : finish_apply env (n.last_applied + 1) (length cs) rs
                  (record n { machine = x })
                ≡ done m =
              ground arith in
            stage-finish_apply (n.last_applied + 1) (length cs) rs (record n { machine = x }) m
              finished
      ]

  stage-maybe_snapshot : (n m : Node S) → maybe_snapshot env n ≡ done m → stage m ≡ stage n
  unfolding maybe_snapshot take_snapshot
  stage-maybe_snapshot n m h = ground arith

  -- With a turn for each entry that is left, the loop ends at the commit index.
  apply_loop-caught_up :
      (fuel : ℕ) (n m : Node S)
      → apply_loop env fuel n ≡ done m
      → n.running ≡ true
      → n.async_apply ≡ false
      → n.commit_index ≤ n.last_applied + fuel
      → n.last_applied ≤ n.commit_index
      → (m.last_applied ≡ n.commit_index) × (m.commit_index ≡ n.commit_index)
  unfolding apply_loop
  apply_loop-caught_up zero n m h run sync enough le =
      let same = stage-maybe_snapshot n m h in
      (omega (arith, ap (λ (s : Stage). s.applied) same), ap (λ (s : Stage). s.commit) same)
  apply_loop-caught_up (suc fuel) n m h run sync enough le =
      elim (Bool-cases (ltb n.last_applied n.commit_index)) [
        | inr even ↦
            let same = stage-maybe_snapshot n m (ground arith) in
            let level : n.last_applied ≡ n.commit_index = ground arith in
            (ap (λ (s : Stage). s.applied) same ∙ level, ap (λ (s : Stage). s.commit) same)
        | inl behind ↦
            let left = n.commit_index - n.last_applied in
            elim (Result-cases (gather n.log left (n.last_applied + 1) 0 0)) [
              | inr (x, failed) ↦ absurd (ground arith)
              | inl (cs, taken) ↦
                  let turn : (apply_now env (n.last_applied + 1) cs n >>= apply_loop env fuel)
                      ≡ done m =
                    ground arith in
                  let (k, now, rest) =
                    >>=-eq-done (apply_now env (n.last_applied + 1) cs n) (apply_loop env fuel)
                      turn in
                  let moved = stage-apply_now cs n k now in
                  let applied = ap (λ (s : Stage). s.applied) moved in
                  let commit = ap (λ (s : Stage). s.commit) moved in
                  let some_taken =
                    gather-positive n.log left (n.last_applied + 1) 0 {cs = cs} (ground arith)
                      taken in
                  let few = gather-le n.log left (n.last_applied + 1) 0 0 {cs = cs} taken in
                  let (level, kept) =
                    apply_loop-caught_up fuel k m rest (ap (λ (s : Stage). s.running) moved ∙ run)
                      (ap (λ (s : Stage). s.async) moved ∙ sync)
                      (omega (arith, applied, commit, some_taken))
                      (omega (arith, applied, commit, few)) in
                  (level ∙ commit, kept ∙ commit)
            ]
      ]

  -- A running node that applies on its own thread and has no apply in flight: a call of
  -- ApplyCommitted that returns has applied every committed entry, and the loop's rounds suffice.
  pub apply_committed-caught_up :
      (n m : Node S)
      → apply_committed env n ≡ done m
      → n.running ≡ true
      → n.async_apply ≡ false
      → n.apply_inflight ≡ none
      → n.last_applied ≤ n.commit_index
      → (m.last_applied ≡ m.commit_index) × (m.commit_index ≡ n.commit_index)
  unfolding apply_committed
  apply_committed-caught_up n m h run sync idle le =
      let looped : apply_loop env (n.commit_index - n.last_applied) n ≡ done m = ground arith in
      let (level, kept) =
        apply_loop-caught_up (n.commit_index - n.last_applied) n m looped run sync (omega arith)
          le in
      (level ∙ sym kept, kept)
