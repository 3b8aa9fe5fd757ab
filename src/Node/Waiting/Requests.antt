-- ===== src/Node/Waiting/Requests.antt =====
-- RequestReadIndex: each request is counted once.
use raft_kv.Base.{
  ℕ, ◌+◌, ◌≡◌, refl, ap, ◌∙◌, true, List, [], ◌∷◌, ◌++◌, arith, inl, inr, ◌⊎◌, Bool-cases, ◌==◌,
  if◌then◌else◌, All,
}
use raft_kv.Outcome.{state}
use raft_kv.Node.State.{Node, Env, Round, ReadRequest, Reason, read_failed, read_served}
use raft_kv.Node.Reads.{
  requests_of, drop_confirmed, try_start_read_round, maybe_send_read_probes,
  finish_read_index_rounds, process_pending_reads, ready_reads, serve_reads, request_read_index,
  reject_read, quorum_size,
}
use raft_kv.Node.Waiting.Counting.{
  asks, answers, waiting, answered-append, waiting-append, reads_of, answered-serve_reads,
  waiting-ready_reads, reads_of-process_confirmed,
}
use raft_kv.Node.Waiting.Sending.{view, view-send_probes}

-- A round that is confirmed holds no request any more.
abbrev pub Emptied : List Round → Type 0
Emptied = All (λ r. r.confirmed ≡ true → r.requests ≡ [])

pub waiting-drop_confirmed :
    (c : ℕ) (rs : List Round)
    → Emptied rs
    → waiting c (requests_of (drop_confirmed rs)) ≡ waiting c (requests_of rs)
unfolding drop_confirmed
waiting-drop_confirmed c [] h = refl
waiting-drop_confirmed c (r ∷ rs) (h, hs) = elim (Bool-cases r.confirmed) [
  | inr e ↦ rw (e, drop_confirmed) refl
  | inl e ↦
      rw (e, drop_confirmed)
        (omega (
          arith,
          waiting-drop_confirmed c rs hs,
          waiting-append c r.requests (requests_of rs),
          ap (waiting c) (h e),
        ))
]

pub List-cases : {A : Type 0} (xs : List A) → (xs ≡ []) ⊎ ((x : A) × (ys : List A) × (xs ≡ x ∷ ys))
List-cases [] = inl refl
List-cases (x ∷ xs) = inr (x, xs, refl)

module _ {S : Type 0} (env : Env S) where
  pub reads_of-try_start :
      (c : ℕ) (n : Node S) → reads_of c (try_start_read_round env n) ≡ reads_of c n
  unfolding try_start_read_round
  reads_of-try_start c n = elim (List-cases n.unsent_reads) [
    | inl e ↦ rw (e, try_start_read_round) (omega (arith, ap (waiting c) e))
    | inr (q, qs, e) ↦ elim (List-cases n.rounds) [
      | inr (r, rs, f) ↦
          rw (e, f, try_start_read_round)
            (omega (arith, ap (waiting c) e, ap (λ rs. waiting c (requests_of rs)) f))
      | inl f ↦
          let begun : Node S = record n {
            next_round_id = n.next_round_id + 1;
            unsent_reads = [];
          } in
          let moved = reads_of-process_confirmed c (q ∷ qs) begun in
          elim (Bool-cases (quorum_size n == 1)) [
            | inl g ↦
                rw (e, f, g, try_start_read_round)
                  (omega (arith, moved, ap (λ rs. waiting c (requests_of rs)) f, ap (waiting c) e))
            | inr g ↦
                rw (e, f, g, try_start_read_round)
                  (omega (
                    arith,
                    waiting-append c (q ∷ qs) [],
                    ap (λ rs. waiting c (requests_of rs)) f,
                    ap (waiting c) e,
                  ))
          ]
    ]
  ]

  pub reads_of-finish_rounds :
      (c : ℕ) (n : Node S)
      → Emptied n.rounds
      → reads_of c (state (finish_read_index_rounds env n)) ≡ reads_of c n
  unfolding finish_read_index_rounds maybe_send_read_probes view
  reads_of-finish_rounds c n h =
      let kept : Node S = record n { rounds = drop_confirmed n.rounds } in
      let begun = try_start_read_round env kept in
      view-send_probes env (λ a b d e. a + b + d + e) (asks c) (answers c) (λ p m. refl) begun.peers
        begun
      ∙ reads_of-try_start c kept
      ∙ omega (arith, waiting-drop_confirmed c n.rounds h)

  pub reads_of-pending_reads :
      (c : ℕ) (n : Node S)
      → Emptied n.rounds
      → reads_of c (state (process_pending_reads env n)) ≡ reads_of c n
  unfolding process_pending_reads
  reads_of-pending_reads c n h =
      let (ready, kept) = ready_reads n.last_applied n.pending_reads in
      let m : Node S = record n { pending_reads = kept; outbox = n.outbox ++ serve_reads ready } in
      reads_of-finish_rounds c m h
      ∙ omega (
        arith,
        answered-append c n.outbox (serve_reads ready),
        answered-serve_reads c ready,
        waiting-ready_reads c n.last_applied n.pending_reads,
      )

  -- A read request is answered once or waits in one place, and no other read is touched, also where
  -- sending a probe throws: over the rounds, the queues and the answers, the count of its callback
  -- rises by one and that of any other callback stays.
  pub request_read_index-reads_of :
      (c d : ℕ) (n : Node S)
      → Emptied n.rounds
      → reads_of d (state (request_read_index env c n)) ≡ reads_of d n + (if c == d then 1 else 0)
  unfolding request_read_index reject_read
  request_read_index-reads_of c d n h =
      let q : ReadRequest = record {
        read_index = n.commit_index;
        callback = c;
        created_at = env.now;
      } in
      let unsent : Node S = record n { unsent_reads = n.unsent_reads ++ q ∷ [] } in
      let served : Node S = record n { outbox = n.outbox ++ read_served c n.commit_index ∷ [] } in
      let answered_now = answered-append d n.outbox (read_served c n.commit_index ∷ []) in
      grind (
        arith,
        λ (why : Reason). answered-append d n.outbox (read_failed c why ∷ []),
        answered_now,
        waiting-append d n.pending_reads (q ∷ []),
        waiting-append d n.unsent_reads (q ∷ []),
        reads_of-finish_rounds d unsent h,
        reads_of-pending_reads d served h,
      )
