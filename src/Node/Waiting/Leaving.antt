-- ===== src/Node/Waiting/Leaving.antt =====
-- Stepping down and stopping fail the reads that wait.
use raft_kv.Base.{
  ℕ, ◌+◌, ◌≡◌, refl, sym, subst, Option, none, some, List, [], ◌∷◌, ◌++◌, arith, inl, inr,
  Bool-cases, ltb, if◌then◌else◌,
}
use raft_kv.Outcome.{done, >>=-eq-done, Result-cases}
use raft_kv.Log.{save_hard_state}
use raft_kv.Node.State.{
  Node, Env, ReadRequest, Output, Pending, Reason, leadership_lost, server_stopped, read_failed,
}
use raft_kv.Node.State as State
use raft_kv.Node.Propose.{fail_callback, fail_each, fail_pending}
use raft_kv.Node.Reads.{requests_of, fail_reads, clear_read_index_queues}
use raft_kv.Node.Roles.{persist_term, reset_election_timer, step_down, become_follower, stop}
use raft_kv.Node.Waiting.Counting.{
  total_reads, total_outputs, total_outputs-append, waiting, asks, serves, fails, served_reads,
  failed_reads,
}
use raft_kv.Node.Waiting.Answering.{outputs-fail_reads, total_reads-zero}

-- The reads of a callback that wait for a round, or for the applied index.
abbrev pub held : {S : Type 0} → ℕ → Node S → ℕ
held c n = waiting c (requests_of n.rounds) + waiting c n.unsent_reads + waiting c n.pending_reads

-- Every read that waited was failed, once, and no read waits; none was served.
pub record Failed {S : Type 0} (c : ℕ) (n m : Node S) : Type 0 where
  pub none_wait : (m.rounds ≡ []) × (m.unsent_reads ≡ []) × (m.pending_reads ≡ [])
  pub failures : failed_reads c m.outbox ≡ failed_reads c n.outbox + held c n
  pub none_served : served_reads c m.outbox ≡ served_reads c n.outbox

-- The failures of proposals answer no read.
outputs-fail_callback :
    (f : Output → ℕ) (why : Reason) (c : Option ℕ)
    → ((d : ℕ) → f (State.failed d why) ≡ 0)
    → total_outputs f (fail_callback why c) ≡ 0
outputs-fail_callback f why none h = refl
outputs-fail_callback f why (some d) h = omega (arith, h d)

outputs-fail_each :
    (f : Output → ℕ) (why : Reason) (ps : List Pending)
    → ((d : ℕ) → f (State.failed d why) ≡ 0)
    → total_outputs f (fail_each why ps) ≡ 0
outputs-fail_each f why [] h = refl
outputs-fail_each f why (p ∷ ps) h = omega (
  arith,
  total_outputs-append f (fail_callback why p.callback) (fail_each why ps),
  outputs-fail_callback f why p.callback h,
  outputs-fail_each f why ps h,
)

pub none_of : (qs : List ReadRequest) → total_reads (λ q. 0) qs ≡ 0
none_of qs = total_reads-zero (λ q. 0) qs λ q. refl

module _ {S : Type 0} where
  cleared :
      (f : Output → ℕ) (w : ReadRequest → ℕ) (why : Reason) (n : Node S)
      → ((q : ReadRequest) → f (read_failed q.callback why) ≡ w q)
      → total_outputs f (clear_read_index_queues why n).outbox
        ≡ total_outputs f n.outbox
          + (total_reads w (requests_of n.rounds)
              + total_reads w n.unsent_reads
              + total_reads w n.pending_reads)
  unfolding clear_read_index_queues
  cleared f w why n h =
      let rounds = fail_reads why (requests_of n.rounds) in
      let unsent = fail_reads why n.unsent_reads in
      let pending = fail_reads why n.pending_reads in
      omega (
        arith,
        total_outputs-append f (n.outbox ++ rounds ++ unsent) pending,
        total_outputs-append f (n.outbox ++ rounds) unsent,
        total_outputs-append f n.outbox rounds,
        outputs-fail_reads f w why (requests_of n.rounds) h,
        outputs-fail_reads f w why n.unsent_reads h,
        outputs-fail_reads f w why n.pending_reads h,
      )

  -- The calls that a node makes on its way out.
  left-Failed :
      (c : ℕ) (why : Reason) (n : Node S)
      → Failed c n (clear_read_index_queues why (fail_pending why n))
  unfolding fail_pending
  left-Failed c why n =
      let m = fail_pending why n in
      let proposals = fail_each why n.pending in
      record {
        none_wait = unfold clear_read_index_queues in (refl, refl, refl);
        failures = omega (
          arith,
          cleared (fails c) (asks c) why m (λ q. refl),
          total_outputs-append (fails c) n.outbox proposals,
          outputs-fail_each (fails c) why n.pending λ d. refl,
        );
        none_served = omega (
          arith,
          cleared (serves c) (λ q. 0) why m (λ q. refl),
          none_of (requests_of n.rounds),
          none_of n.unsent_reads,
          none_of n.pending_reads,
          total_outputs-append (serves c) n.outbox proposals,
          outputs-fail_each (serves c) why n.pending λ d. refl,
        );
      }

module _ {S : Type 0} (env : Env S) where
  step_down-Failed : (c : ℕ) (n : Node S) → Failed c n (step_down env n)
  unfolding step_down reset_election_timer clear_read_index_queues fail_pending
  step_down-Failed c n =
      let h = left-Failed c leadership_lost n in
      record { none_wait = (refl, refl, refl); failures = h.failures; none_served = h.none_served }

  persist_term-Failed :
      (c term : ℕ) (vote : Option ℕ) (n k m : Node S)
      → persist_term env term vote n ≡ done k
      → Failed c k m
      → Failed c n m
  unfolding persist_term
  persist_term-Failed c term vote n k m e h =
      elim (Result-cases (save_hard_state env.disk_ok term vote n.log)) [
        | inr (x, f) ↦ absurd (ground (arith, e, f))
        | inl (l, f) ↦
            let same : record n { log = l; current_term = term; voted_for = vote } ≡ k =
              ground (arith, e, f) in
            let moved = subst (λ x. Failed c x m) (sym same) h in
            record {
              none_wait = moved.none_wait;
              failures = moved.failures;
              none_served = moved.none_served;
            }
      ]

  -- When a node becomes a follower, by a term that it can make durable, and when it stops, every read
  -- that waited for a round or for the applied index is failed, once each, none is served, and no read
  -- waits any more.
  pub become_follower-Failed :
      (c term : ℕ) (n m : Node S)
      → become_follower env term n ≡ done m
      → Failed c n m × Failed c n (stop n)
  unfolding become_follower stop
  become_follower-Failed c term n m e =
      let first = if ltb n.current_term term then persist_term env term none n else done n in
      let (k, began, ended) = >>=-eq-done first (λ k. done (step_down env k)) e in
      let same : step_down env k ≡ m = cc (ended) in
      let down = subst (Failed c k) same (step_down-Failed c k) in
      let stopped = left-Failed c server_stopped n in
      (
        elim (Bool-cases (ltb n.current_term term)) [
          | inl f ↦ persist_term-Failed c term none n k m (ground (arith, began, f)) down
          | inr f ↦
              let kept : n ≡ k = ground (arith, began, f) in
              subst (λ x. Failed c x m) (sym kept) down
        ],
        unfold clear_read_index_queues fail_pending in
            record {
              none_wait = (refl, refl, refl);
              failures = stopped.failures;
              none_served = stopped.none_served;
            },
      )
