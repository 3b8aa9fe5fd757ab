-- ===== src/Policies/Tokens.antt =====
-- Histories of the two policies.
use raft_kv.Base.{
  ℕ, ◌-◌, ◌≤◌, ◌<◌, ◌≡◌, Bool, true, false, ◌⊎◌, inl, inr, none, some, List, [], ◌∷◌, arith,
}
use raft_kv.Policies.{
  idle, BatchFlush, plan_flush, request_flush, consume_flush, PeerRetry, note_connected,
  note_disconnected, consume_retry,
}

-- A call of BatchFlushPolicy; one that throws leaves the policy as it was.
pub data FlushCall : Type 0 where
  requested : ℕ → ℕ → Bool → FlushCall
  consumed : ℕ → FlushCall

unfoldable pub flush_step : FlushCall → BatchFlush → BatchFlush
flush_step (requested n b e) p = elim (request_flush n b e p) [ none ↦ p | some (q, plan) ↦ q ]
flush_step (consumed t) p = (consume_flush t p).0

unfoldable pub flush_run : List FlushCall → BatchFlush → BatchFlush
flush_run [] p = p
flush_run (c ∷ cs) p = flush_run cs (flush_step c p)

-- A token that is spent: it is older, or it is the last one and no plan is pending.
abbrev Spent : ℕ → BatchFlush → Type 0
Spent t p = (t < p.generation) ⊎ ((t ≡ p.generation) × (p.pending ≡ idle))

flush_step-Spent : (t : ℕ) (c : FlushCall) (p : BatchFlush) → Spent t p → Spent t (flush_step c p)
unfolding flush_step request_flush plan_flush consume_flush
flush_step-Spent t (requested n b e) p (inl h) = grind arith
flush_step-Spent t (requested n b e) p (inr (h, i)) = grind arith
flush_step-Spent t (consumed u) p (inl h) = grind arith
flush_step-Spent t (consumed u) p (inr (h, i)) = grind arith

flush_run-Spent :
    (t : ℕ) (cs : List FlushCall) (p : BatchFlush) → Spent t p → Spent t (flush_run cs p)
unfolding flush_run
flush_run-Spent t [] p h = h
flush_run-Spent t (c ∷ cs) p h = flush_run-Spent t cs (flush_step c p) (flush_step-Spent t c p h)

consumed-Spent :
    (t : ℕ) (p : BatchFlush) → (consume_flush t p).1 ≡ true → Spent t (consume_flush t p).0
unfolding consume_flush
consumed-Spent t p h = inr (grind arith, grind arith)

Spent-refused : (t : ℕ) (p : BatchFlush) → Spent t p → (consume_flush t p).1 ≡ false
unfolding consume_flush
Spent-refused t p (inl h) = grind arith
Spent-refused t p (inr (h, i)) = grind arith

-- A flush token is consumed at most once: after it was, it is refused, whatever is requested and
-- consumed in between.
pub consume_flush_once :
    (t : ℕ) (p : BatchFlush) (cs : List FlushCall)
    → (consume_flush t p).1 ≡ true
    → (consume_flush t (flush_run cs (consume_flush t p).0)).1 ≡ false
consume_flush_once t p cs h =
    let q = (consume_flush t p).0 in
    Spent-refused t (flush_run cs q) (flush_run-Spent t cs q (consumed-Spent t p h))

-- A call of PeerRetryPolicy.
pub data RetryCall : Type 0 where
  connected disconnected consumed_retry : ℕ → RetryCall

unfoldable pub retry_step : RetryCall → PeerRetry → PeerRetry
retry_step (connected now) p = note_connected now p
retry_step (disconnected now) p = (note_disconnected now p).0
retry_step (consumed_retry t) p = (consume_retry t p).0

unfoldable pub retry_run : List RetryCall → PeerRetry → PeerRetry
retry_run [] p = p
retry_run (c ∷ cs) p = retry_run cs (retry_step c p)

abbrev pub new_retry : PeerRetry
new_retry = record {
  connected_at = 0;
  generation = 0;
  next_delay_ms = 500;
  connected = false;
  pending = false;
}

abbrev InRange : ℕ → Type 0
InRange d = (500 ≤ d) × (d ≤ 2000)

retry_step-InRange :
    (c : RetryCall) (p : PeerRetry)
    → InRange p.next_delay_ms
    → InRange (retry_step c p).next_delay_ms
unfolding retry_step note_connected note_disconnected consume_retry
retry_step-InRange (connected now) p h = h
retry_step-InRange (disconnected now) p (lo, hi) = (grind arith, grind arith)
retry_step-InRange (consumed_retry t) p (lo, hi) = (grind arith, grind arith)

retry_run-InRange :
    (cs : List RetryCall) (p : PeerRetry)
    → InRange p.next_delay_ms
    → InRange (retry_run cs p).next_delay_ms
unfolding retry_run
retry_run-InRange [] p h = h
retry_run-InRange (c ∷ cs) p h = retry_run-InRange cs (retry_step c p) (retry_step-InRange c p h)

-- After any history of a new policy, a connection that is lost is tried again after half a second
-- to two seconds, and after half a second where it lasted ten.
pub note_disconnected-bounds :
    (cs : List RetryCall) (now : ℕ)
    → (retry_run cs new_retry).connected ≡ true
    → (500 ≤ (note_disconnected now (retry_run cs new_retry)).1.delay_ms)
      × ((note_disconnected now (retry_run cs new_retry)).1.delay_ms ≤ 2000)
      × (10000 ≤ now - (retry_run cs new_retry).connected_at
          → (note_disconnected now (retry_run cs new_retry)).1.delay_ms ≡ 500)
unfolding note_disconnected
note_disconnected-bounds cs now h =
    let (lo, hi) = retry_run-InRange cs new_retry (omega arith, omega arith) in
    (grind arith, grind arith, λ long. grind arith)
