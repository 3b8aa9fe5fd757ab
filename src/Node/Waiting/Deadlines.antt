-- ===== src/Node/Waiting/Deadlines.antt =====
-- The deadlines of reads, and the acknowledgements of their probes.
use raft_kv.Base.{
  ℕ, ◌+◌, ◌-◌, ◌≤◌, ◌<◌, ◌≡◌, refl, ◌∙◌, ap, Bool, true, false, ◌&&◌, List, [], ◌∷◌, ◌++◌, arith,
  inl, inr, Bool-cases, leb, ltb, if◌then◌else◌, length, insert,
}
use raft_kv.Node.State.{
  Node, Env, Round, ReadRequest, Output, read_failed, min_election_timeout_ms,
  read_index_timeout_ms, read_timeout, apply_timeout,
}
use raft_kv.Node.Reads.{
  requests_of, fail_reads, expire_rounds, expire_queue, has_rpc, ack_round, ack_rounds,
  ack_read_index_probe, check_read_index_timeout, quorum_size,
}
use raft_kv.Node.Waiting.Counting.{
  total_reads, total_outputs, total_outputs-append, waiting, waiting-append, asks, serves, fails,
  served_reads, failed_reads, waiting-expire_rounds, waiting-expire_queue,
}
use raft_kv.Node.Waiting.Answering.{
  InOrder, if_reached, if_beyond, as_served, total_reads-zero, outputs-process_confirmed,
  pending-process_confirmed, rounds-process_confirmed, outputs-fail_reads,
}
use raft_kv.Node.Waiting.Leaving.{held, none_of}

-- A callback's requests in a queue that are within their deadline, and those in the rounds.
abbrev pub timely : ℕ → ℕ → List ReadRequest → ℕ
timely c now qs =
    total_reads (λ q. if leb (now - q.created_at) read_index_timeout_ms then asks c q else 0) qs

abbrev pub timely_rounds : ℕ → ℕ → List Round → ℕ
timely_rounds c now [] = 0
timely_rounds c now (r ∷ rs) =
    (if ltb (now - r.sent_at) min_election_timeout_ms then waiting c r.requests else 0)
    + timely_rounds c now rs

timely_all :
    (c now low : ℕ) (qs : List ReadRequest)
    → now - low ≤ read_index_timeout_ms
    → InOrder (λ (q : ReadRequest). q.created_at) low qs
    → timely c now qs ≡ waiting c qs
timely_all c now low [] h order = refl
timely_all c now low (q ∷ qs) h (le, order) =
    let fresh : now - q.created_at ≤ read_index_timeout_ms = omega arith in
    ground (arith, fresh, timely_all c now q.created_at qs fresh order)

kept-expire_queue :
    (c now low : ℕ) (qs : List ReadRequest)
    → InOrder (λ (q : ReadRequest). q.created_at) low qs
    → waiting c (expire_queue now qs).1 ≡ timely c now qs
unfolding expire_queue
kept-expire_queue c now low [] order = refl
kept-expire_queue c now low (q ∷ qs) (le, order) =
    elim (Bool-cases (leb (now - q.created_at) read_index_timeout_ms)) [
      | inl e ↦
          let rest = timely_all c now q.created_at qs (ground (arith, e)) order in
          rw (e, expire_queue) (omega (arith, rest))
      | inr e ↦ rw (e, expire_queue) (omega (arith, kept-expire_queue c now q.created_at qs order))
    ]

timely_rounds_all :
    (c now low : ℕ) (rs : List Round)
    → now - low < min_election_timeout_ms
    → InOrder (λ (r : Round). r.sent_at) low rs
    → timely_rounds c now rs ≡ waiting c (requests_of rs)
timely_rounds_all c now low [] h order = refl
timely_rounds_all c now low (r ∷ rs) h (le, order) =
    let fresh : now - r.sent_at < min_election_timeout_ms = omega arith in
    ground (
      arith,
      fresh,
      timely_rounds_all c now r.sent_at rs fresh order,
      waiting-append c r.requests (requests_of rs),
    )

kept-expire_rounds :
    (c now low : ℕ) (rs : List Round)
    → InOrder (λ (r : Round). r.sent_at) low rs
    → waiting c (requests_of (expire_rounds now rs).1) ≡ timely_rounds c now rs
unfolding expire_rounds
kept-expire_rounds c now low [] order = refl
kept-expire_rounds c now low (r ∷ rs) (le, order) =
    elim (Bool-cases (ltb (now - r.sent_at) min_election_timeout_ms)) [
      | inl e ↦
          let rest = timely_rounds_all c now r.sent_at rs (ground (arith, e)) order in
          rw (e, expire_rounds) (omega (arith, rest, waiting-append c r.requests (requests_of rs)))
      | inr e ↦ rw (e, expire_rounds) (omega (arith, kept-expire_rounds c now r.sent_at rs order))
    ]

-- What becomes of the rounds, when the first one is the probe's.
taken :
    (quorum now from rpc : ℕ) (r : Round) (rs : List Round)
    → r.confirmed ≡ false
    → has_rpc from rpc r.probe_rpc_ids ≡ true
    → (confirms : Bool)
    → (ltb (now - r.sent_at) min_election_timeout_ms && leb quorum (length (insert from r.acks)))
      ≡ confirms
    → ((c : ℕ)
        → waiting c (requests_of (ack_rounds quorum now from rpc (r ∷ rs)).0)
            + (if confirms then waiting c r.requests else 0)
          ≡ waiting c (requests_of (r ∷ rs)))
      × ((ack_rounds quorum now from rpc (r ∷ rs)).1 ≡ (if confirms then r.requests else []))
unfolding ack_rounds ack_round
taken quorum now from rpc r rs fresh there true met = (
  λ c. ground (arith, fresh, there, met, waiting-append c r.requests (requests_of rs)),
  ground (arith, fresh, there, met),
)
taken quorum now from rpc r rs fresh there false met = (
  λ c. ground (arith, fresh, there, met, waiting-append c r.requests (requests_of rs)),
  ground (arith, fresh, there, met),
)

taken_at :
    (quorum now from rpc : ℕ) (rounds : List Round) (r : Round) (rs : List Round) (confirms : Bool)
    → rounds ≡ r ∷ rs
    → r.confirmed ≡ false
    → has_rpc from rpc r.probe_rpc_ids ≡ true
    → (ltb (now - r.sent_at) min_election_timeout_ms && leb quorum (length (insert from r.acks)))
      ≡ confirms
    → ((c : ℕ)
        → waiting c (requests_of (ack_rounds quorum now from rpc rounds).0)
            + (if confirms then waiting c r.requests else 0)
          ≡ waiting c (requests_of rounds))
      × ((ack_rounds quorum now from rpc rounds).1 ≡ (if confirms then r.requests else []))
taken_at quorum now from rpc rounds r rs confirms here fresh there met =
    rw here (taken quorum now from rpc r rs fresh there confirms met)

total_reads-if :
    (w : ReadRequest → ℕ) (b : Bool) (qs : List ReadRequest)
    → total_reads w (if b then qs else []) ≡ (if b then total_reads w qs else 0)
total_reads-if w true qs = refl
total_reads-if w false qs = refl

module _ {S : Type 0} (env : Env S) where
  expired :
      (f : Output → ℕ) (w : ReadRequest → ℕ) (n : Node S)
      → ((q : ReadRequest) (late : Bool)
          → f (read_failed q.callback (if late then read_timeout else apply_timeout)) ≡ w q)
      → total_outputs f (check_read_index_timeout env n).outbox
        ≡ total_outputs f n.outbox
          + (total_reads w (expire_rounds env.now n.rounds).0
              + total_reads w (expire_queue env.now n.unsent_reads).0
              + total_reads w (expire_queue env.now n.pending_reads).0)
  unfolding check_read_index_timeout
  expired f w n h =
      let late = expire_rounds env.now n.rounds in
      let unsent = expire_queue env.now n.unsent_reads in
      let pending = expire_queue env.now n.pending_reads in
      let rounds_out = fail_reads read_timeout late.0 in
      let unsent_out = fail_reads read_timeout unsent.0 in
      let pending_out = fail_reads apply_timeout pending.0 in
      omega (
        arith,
        total_outputs-append f (n.outbox ++ rounds_out ++ unsent_out) pending_out,
        total_outputs-append f (n.outbox ++ rounds_out) unsent_out,
        total_outputs-append f n.outbox rounds_out,
        outputs-fail_reads f w read_timeout late.0 (λ q. h q true),
        outputs-fail_reads f w read_timeout unsent.0 (λ q. h q true),
        outputs-fail_reads f w apply_timeout pending.0 (λ q. h q false),
      )

  -- CheckReadIndexTimeout fails just the reads that are past their deadline, once each: of those that
  -- wait in a round, for a round and for the applied index, the ones within it still wait there, the
  -- failures rise by the others, and none is served. Rounds and queues were in the order of their times.
  pub check_read_index_timeout-Failed :
      (c : ℕ) (n : Node S)
      → InOrder (λ (r : Round). r.sent_at) 0 n.rounds
      → InOrder (λ (q : ReadRequest). q.created_at) 0 n.unsent_reads
      → InOrder (λ (q : ReadRequest). q.created_at) 0 n.pending_reads
      → (waiting c (requests_of (check_read_index_timeout env n).rounds)
          ≡ timely_rounds c env.now n.rounds)
        × (waiting c (check_read_index_timeout env n).unsent_reads
            ≡ timely c env.now n.unsent_reads)
        × (waiting c (check_read_index_timeout env n).pending_reads
            ≡ timely c env.now n.pending_reads)
        × (failed_reads c (check_read_index_timeout env n).outbox
              + held c (check_read_index_timeout env n)
            ≡ failed_reads c n.outbox + held c n)
        × (served_reads c (check_read_index_timeout env n).outbox ≡ served_reads c n.outbox)
  check_read_index_timeout-Failed c n rounds unsent pending = (
    unfold check_read_index_timeout in kept-expire_rounds c env.now 0 n.rounds rounds,
    unfold check_read_index_timeout in kept-expire_queue c env.now 0 n.unsent_reads unsent,
    unfold check_read_index_timeout in kept-expire_queue c env.now 0 n.pending_reads pending,
    unfold check_read_index_timeout in
        omega (
          arith,
          expired (fails c) (asks c) n (λ q late. refl),
          waiting-expire_rounds c env.now n.rounds,
          waiting-expire_queue c env.now n.unsent_reads,
          waiting-expire_queue c env.now n.pending_reads,
        ),
    omega (
      arith,
      expired (serves c) (λ q. 0) n (λ q late. refl),
      none_of (expire_rounds env.now n.rounds).0,
      none_of (expire_queue env.now n.unsent_reads).0,
      none_of (expire_queue env.now n.pending_reads).0,
    ),
  )

  -- AckReadIndexProbe, where the first round is unconfirmed and the RPC is the peer's probe of it: when
  -- the answer is in time and makes a quorum of distinct peers, the requests of the round leave it, those
  -- that the applied index has reached are served, once each, and the others wait for it; otherwise no
  -- request moves. Nothing else that waits moves, and no read is failed.
  pub ack_read_index_probe-Confirms :
      (c from rpc : ℕ) (n : Node S) (r : Round) (rs : List Round) (confirms : Bool)
      → n.rounds ≡ r ∷ rs
      → r.confirmed ≡ false
      → has_rpc from rpc r.probe_rpc_ids ≡ true
      → (ltb (env.now - r.sent_at) min_election_timeout_ms
          && leb (quorum_size n) (length (insert from r.acks)))
        ≡ confirms
      → (waiting c (requests_of (ack_read_index_probe env from rpc n).rounds)
            + (if confirms then waiting c r.requests else 0)
          ≡ waiting c (requests_of n.rounds))
        × (served_reads c (ack_read_index_probe env from rpc n).outbox
            ≡ served_reads c n.outbox
              + (if confirms
                  then total_reads (if_reached n.last_applied (asks c)) r.requests
                  else 0))
        × (waiting c (ack_read_index_probe env from rpc n).pending_reads
            ≡ waiting c n.pending_reads
              + (if confirms
                  then total_reads (if_beyond n.last_applied (asks c)) r.requests
                  else 0))
        × (failed_reads c (ack_read_index_probe env from rpc n).outbox ≡ failed_reads c n.outbox)
        × ((ack_read_index_probe env from rpc n).unsent_reads ≡ n.unsent_reads)
  unfolding ack_read_index_probe
  ack_read_index_probe-Confirms c from rpc n r rs confirms here fresh there met =
      let (rounds, given) = ack_rounds (quorum_size n) env.now from rpc n.rounds in
      let m : Node S = record n { rounds = rounds } in
      let (same, unsent) = rounds-process_confirmed given m in
      let serving = outputs-process_confirmed (serves c) given m in
      let failing = outputs-process_confirmed (fails c) given m in
      let kept = pending-process_confirmed (asks c) given m in
      let (left, moved) =
        taken_at (quorum_size n) env.now from rpc n.rounds r rs confirms here fresh there met in
      let weigh =
        λ (w : ReadRequest → ℕ). ap (total_reads w) moved ∙ total_reads-if w confirms r.requests in
      (
        ap (λ xs. waiting c (requests_of xs) + (if confirms then waiting c r.requests else 0)) same
            ∙ left c,
        omega (arith, serving, weigh (if_reached n.last_applied (as_served (serves c)))),
        omega (arith, kept, weigh (if_beyond n.last_applied (asks c))),
        omega (
          arith,
          failing,
          total_reads-zero (if_reached n.last_applied (as_served (fails c))) given
              (λ q. ground arith),
        ),
        unsent,
      )
