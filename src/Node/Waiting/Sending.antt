-- ===== src/Node/Waiting/Sending.antt =====
-- SendAppendEntries and the count of reads.
use raft_kv.Base.{
  ℕ, ◌+◌, ◌-◌, ◌≡◌, refl, ◌∙◌, not, ◌||◌, List, [], ◌∷◌, ◌++◌, arith, inl, inr, Bool-cases, ◌==◌,
  if◌then◌else◌, uint64_max,
}
use raft_kv.Outcome.{Outcome, done, fault, ◌>>=◌, state, Result-cases}
use raft_kv.Log.{Entry, last_index}
use raft_kv.Message.{Message}
use raft_kv.Node.State.{Node, Env, Round, ReadRequest, Output, sent}
use raft_kv.Node.Send.{
  emit, bind_read_index_probe, send_snapshot_chunk, retry_flight, start_snapshot, launch_batch,
  append_message, collect_batch, send_batch, send_append_entries,
}
use raft_kv.Node.Reads.{requests_of, send_probes, front_needs_probe}
use raft_kv.Node.Waiting.Counting.{
  total_reads, total_reads-append, total_outputs, total_outputs-append,
}

-- A view of the reads of a node: of the sums of a weight over its rounds and queues, and of a measure of
-- its outputs.
unfoldable pub view :
    {S : Type 0} → (ℕ → ℕ → ℕ → ℕ → ℕ) → (ReadRequest → ℕ) → (Output → ℕ) → Node S → ℕ
view g w f n =
    g (total_reads w (requests_of n.rounds)) (total_reads w n.unsent_reads)
      (total_reads w n.pending_reads) (total_outputs f n.outbox)

total_reads-bind :
    (w : ReadRequest → ℕ) (peer rpc : ℕ) (rs : List Round)
    → total_reads w (requests_of (bind_read_index_probe peer rpc rs))
      ≡ total_reads w (requests_of rs)
unfolding bind_read_index_probe
total_reads-bind w peer rpc [] = refl
total_reads-bind w peer rpc (r ∷ rs) = ground (
  arith,
  total_reads-bind w peer rpc rs,
  total_reads-append w r.requests (requests_of rs),
  total_reads-append w r.requests (requests_of (bind_read_index_probe peer rpc rs)),
)

-- Where the measure does not count messages, sending does not show in a view.
module _ {S : Type 0} (env : Env S) (g : ℕ → ℕ → ℕ → ℕ → ℕ) (w : ReadRequest → ℕ) (f : Output → ℕ)
    (silent : (p : ℕ) (m : Message) → f (sent p m) ≡ 0) where
  total_outputs-sent :
      (p : ℕ) (m : Message) (os : List Output)
      → total_outputs f (os ++ sent p m ∷ []) ≡ total_outputs f os
  total_outputs-sent p m os = omega (arith, total_outputs-append f os (sent p m ∷ []), silent p m)

  view-emit : (p : ℕ) (m : Message) (n : Node S) → view g w f (emit env p m n) ≡ view g w f n
  unfolding emit view
  view-emit p m n = elim (Bool-cases (env.link p)) [
    | inr e ↦ rw e refl
    | inl e ↦ rw (e, total_outputs-sent p m n.outbox) refl
  ]

  view-send_snapshot_chunk :
      (p : ℕ) (n : Node S) → view g w f (state (send_snapshot_chunk env p n)) ≡ view g w f n
  unfolding send_snapshot_chunk view
  view-send_snapshot_chunk p n = grind (arith, λ (m : Message) (k : Node S). view-emit p m k)

  view-retry_flight : (p : ℕ) (n : Node S) → view g w f (retry_flight env p n) ≡ view g w f n
  unfolding retry_flight view
  view-retry_flight p n = grind (arith, λ (m : Message) (k : Node S). view-emit p m k)

  view-start_snapshot :
      (p : ℕ) (n : Node S) → view g w f (state (start_snapshot env p n)) ≡ view g w f n
  unfolding start_snapshot view
  view-start_snapshot p n = view-send_snapshot_chunk p _

  view-launch_batch :
      (p : ℕ) (es : List Entry) (n : Node S) → view g w f (launch_batch env p es n) ≡ view g w f n
  unfolding launch_batch view
  view-launch_batch p es n =
      let m = append_message env n (n.next_index p - 1) es n.rpc_sequence in
      elim (Bool-cases (env.link p)) [
        | inr e ↦ rw e refl
        | inl e ↦
            rw (e, total_outputs-sent p m n.outbox, total_reads-bind w p n.rpc_sequence n.rounds)
              refl
      ]

  view-send_batch : (p : ℕ) (n : Node S) → view g w f (state (send_batch env p n)) ≡ view g w f n
  unfolding send_batch view
  view-send_batch p n =
      let n' : Node S = record n { rpc_sequence = n.rpc_sequence + 1 } in
      let next = n.next_index p in
      elim (Bool-cases (n.rpc_sequence == uint64_max)) [
        | inl e ↦ rw (e, send_batch) refl
        | inr e ↦
            elim (Result-cases
              (collect_batch env.entry_size n.log (last_index n.log + 1 - next) next 0 128)) [
                | inr (x, f) ↦ rw (e, f, send_batch) refl
                | inl (es, f) ↦ rw (e, f, send_batch) (view-launch_batch p es n')
              ]
      ]

  pub view-send :
      (p : ℕ) (n : Node S) → view g w f (state (send_append_entries env p n)) ≡ view g w f n
  unfolding send_append_entries
  view-send p n =
      ground (arith, view-retry_flight p n, view-start_snapshot p n, view-send_batch p n)

  view-bind :
      (n : Node S) (o : Outcome (Node S)) (next : Node S → Outcome (Node S))
      → view g w f (state o) ≡ view g w f n
      → ((m : Node S) → view g w f (state (next m)) ≡ view g w f m)
      → view g w f (state (o >>= next)) ≡ view g w f n
  view-bind n (done m) next h k = k m ∙ h
  view-bind n (fault e m) next h k = h

  pub view-send_probes :
      (ps : List ℕ) (n : Node S) → view g w f (state (send_probes env ps n)) ≡ view g w f n
  unfolding send_probes
  view-send_probes [] n = refl
  view-send_probes (p ∷ ps) n =
      let skip = p == n.node_id || not (front_needs_probe p n.rounds) in
      let first : view g w f (state (if skip then done n else send_append_entries env p n))
          ≡ view g w f n =
        ground (arith, view-send p n) in
      view-bind n (if skip then done n else send_append_entries env p n) (send_probes env ps) first
        (view-send_probes ps)
