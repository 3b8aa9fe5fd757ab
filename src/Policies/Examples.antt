-- ===== src/Policies/Examples.antt =====
-- Policies at concrete calls.
use raft_kv.Base.{◌≤◌, ◌≡◌, ◌-◌, refl, false, [], ◌∷◌}
use raft_kv.Policies.{BatchFlush, delayed, consume_flush, note_connected, note_disconnected}
use raft_kv.Policies.Tokens.{
  requested, flush_run, consume_flush_once, connected, retry_run, retry_step, new_retry,
  note_disconnected-bounds,
}

abbrev waiting_flush : BatchFlush
waiting_flush = record { pending = delayed; generation = 4 }

consume_flush_once_example :
    (consume_flush 4 (flush_run (requested 3 10 false ∷ []) (consume_flush 4 waiting_flush).0)).1
    ≡ false
unfolding consume_flush
consume_flush_once_example = consume_flush_once 4 waiting_flush (requested 3 10 false ∷ []) refl

note_disconnected-bounds_example :
    (500 ≤ (note_disconnected 100 (retry_run (connected 50 ∷ []) new_retry)).1.delay_ms)
    × ((note_disconnected 100 (retry_run (connected 50 ∷ []) new_retry)).1.delay_ms ≤ 2000)
    × (10000 ≤ 100 - (retry_run (connected 50 ∷ []) new_retry).connected_at
        → (note_disconnected 100 (retry_run (connected 50 ∷ []) new_retry)).1.delay_ms ≡ 500)
unfolding retry_run retry_step note_connected
note_disconnected-bounds_example = note_disconnected-bounds (connected 50 ∷ []) 100 refl
