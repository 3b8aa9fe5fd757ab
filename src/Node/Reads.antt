-- ===== src/Node/Reads.antt =====
-- src/raft/raft_node.cc: linearizable reads (ReadIndex rounds, their probes, the read lease).
--
-- A read callback is an output and does not come back into the node, so `_completing_reads` is
-- false at each call and has no field here.
use raft_kv.Base.{
  ℕ, ◌+◌, ◌-◌, ◌/◌, Bool, true, false, not, ◌&&◌, ◌||◌, Option, none, some, List, [], ◌∷◌, ◌++◌,
  ltb, leb, ◌==◌, if◌then◌else◌, length, insert,
}
use raft_kv.Outcome.{Outcome, done, ◌>>=◌}
use raft_kv.Node.State.{
  Node, Env, Role, ReadRequest, Round, Output, read_served, read_failed, Reason, not_leader,
  no_leader, waiting_for_no_op, queue_full, read_timeout, apply_timeout, max_election_timeout_ms,
  min_election_timeout_ms, read_index_timeout_ms, max_pending_read_index,
}
use raft_kv.Node.Send.{has_probe, send_append_entries}

abbrev pub is_leader_role : Role → Bool
is_leader_role Role.leader = true
is_leader_role _ = false

abbrev pub is_leader : {S : Type 0} → Node S → Bool
is_leader n = n.running && is_leader_role n.role

abbrev pub quorum_size : {S : Type 0} → Node S → ℕ
quorum_size n = length n.peers / 2 + 1

abbrev pub requests_of : List Round → List ReadRequest
requests_of [] = []
requests_of (r ∷ rs) = r.requests ++ requests_of rs

-- The callbacks that one reason fails, in the order of the requests.
abbrev pub fail_reads : Reason → List ReadRequest → List Output
fail_reads why [] = []
fail_reads why (q ∷ qs) = read_failed q.callback why ∷ fail_reads why qs

unfoldable pub drop_confirmed : List Round → List Round
drop_confirmed [] = []
drop_confirmed (r ∷ rs) = if r.confirmed then drop_confirmed rs else r ∷ rs

-- The requests of the rounds that have expired from the front, and the rounds that stay.
unfoldable pub expire_rounds : ℕ → List Round → List ReadRequest × List Round
expire_rounds now [] = ([], [])
expire_rounds now (r ∷ rs) =
    let (gone, kept) = expire_rounds now rs in
    if ltb (now - r.sent_at) min_election_timeout_ms
    then ([], r ∷ rs)
    else (r.requests ++ gone, kept)

unfoldable pub expire_queue : ℕ → List ReadRequest → List ReadRequest × List ReadRequest
expire_queue now [] = ([], [])
expire_queue now (q ∷ qs) =
    let (gone, kept) = expire_queue now qs in
    if leb (now - q.created_at) read_index_timeout_ms then ([], q ∷ qs) else (q ∷ gone, kept)

-- The requests at the front that the applied index has reached, and the queue that stays.
unfoldable pub ready_reads : ℕ → List ReadRequest → List ReadRequest × List ReadRequest
ready_reads applied [] = ([], [])
ready_reads applied (q ∷ qs) =
    let (ready, kept) = ready_reads applied qs in
    if leb q.read_index applied then (q ∷ ready, kept) else ([], q ∷ qs)

abbrev pub serve_reads : List ReadRequest → List Output
serve_reads [] = []
serve_reads (q ∷ qs) = read_served q.callback q.read_index ∷ serve_reads qs

abbrev pub has_rpc : ℕ → ℕ → List (ℕ × ℕ) → Bool
has_rpc p rpc [] = false
has_rpc p rpc ((q, r) ∷ probes) = if q == p then r == rpc else has_rpc p rpc probes

-- A round takes the acknowledgement: what it becomes, and the requests that it confirms.
unfoldable pub ack_round : ℕ → ℕ → ℕ → Round → Round × List ReadRequest
ack_round quorum now from r =
    let acks = insert from r.acks in
    if leb min_election_timeout_ms (now - r.sent_at)
    then (r, [])
    else if leb quorum (length acks)
    then (record r { acks = acks; requests = []; confirmed = true }, r.requests)
    else (record r { acks = acks }, [])

-- Only the first unconfirmed round whose probe of the peer is this RPC takes it.
unfoldable pub ack_rounds : ℕ → ℕ → ℕ → ℕ → List Round → List Round × List ReadRequest
ack_rounds quorum now from rpc [] = ([], [])
ack_rounds quorum now from rpc (r ∷ rs) =
    let (rs', served) = ack_rounds quorum now from rpc rs in
    let (r', mine) = ack_round quorum now from r in
    if r.confirmed || not (has_rpc from rpc r.probe_rpc_ids)
    then (r ∷ rs', served)
    else (r' ∷ rs, mine)

-- The peers whose entry in a map of times is younger than the minimum election timeout.
unfoldable pub count_fresh : ℕ → (ℕ → Option ℕ) → List ℕ → ℕ
count_fresh now at [] = 0
count_fresh now at (p ∷ ps) =
    elim (at p) [ none ↦ 0 | some t ↦ if ltb (now - t) min_election_timeout_ms then 1 else 0 ]
    + count_fresh now at ps

-- The peers other than the node itself.
unfoldable pub others : ℕ → List ℕ → List ℕ
others self [] = []
others self (p ∷ ps) = if p == self then others self ps else p ∷ others self ps

module _ {S : Type 0} where
  unfoldable pub pending_read_index_count : Node S → ℕ
  pending_read_index_count n =
      length n.pending_reads + length n.unsent_reads + length (requests_of n.rounds)

  -- A request that the applied index has reached is served; another waits in `pending_reads`.
  unfoldable pub process_confirmed : List ReadRequest → Node S → Node S
  process_confirmed [] n = n
  process_confirmed (q ∷ qs) n = process_confirmed qs (
      if leb q.read_index n.last_applied
      then record n { outbox = n.outbox ++ read_served q.callback q.read_index ∷ [] }
      else record n { pending_reads = n.pending_reads ++ q ∷ [] })

  unfoldable pub clear_read_index_queues : Reason → Node S → Node S
  clear_read_index_queues why n = record n {
    rounds = [];
    unsent_reads = [];
    pending_reads = [];
    outbox =
        n.outbox
        ++ fail_reads why (requests_of n.rounds)
        ++ fail_reads why n.unsent_reads
        ++ fail_reads why n.pending_reads;
  }

-- The round at the front waits for a probe of the peer.
abbrev pub front_needs_probe : ℕ → List Round → Bool
front_needs_probe p [] = false
front_needs_probe p (r ∷ rs) = not r.confirmed && not (has_probe p r.probe_rpc_ids)

module _ {S : Type 0} (env : Env S) where
  -- The unsent requests become a round. A node that is its own quorum confirms it at once; no
  -- request is left after that, so the loop of the source makes one turn.
  unfoldable pub try_start_read_round : Node S → Node S
  try_start_read_round n = elim n.unsent_reads [
    | [] ↦ n
    | q ∷ qs ↦ elim n.rounds [
      | r ∷ rs ↦ n
      | [] ↦
          let started = record n { next_round_id = n.next_round_id + 1; unsent_reads = [] } in
          if quorum_size n == 1 then process_confirmed (q ∷ qs) started else record started {
            rounds =
                record {
                  round_id = n.next_round_id + 1;
                  acks = n.node_id ∷ [];
                  requests = q ∷ qs;
                  probe_rpc_ids = [];
                  sent_at = env.now;
                  confirmed = false;
                }
                ∷ [];
          }
    ]
  ]

  unfoldable pub send_probes : List ℕ → Node S → Outcome (Node S)
  send_probes [] n = done n
  send_probes (p ∷ ps) n =
      (if p == n.node_id || not (front_needs_probe p n.rounds)
        then done n
        else send_append_entries env p n)
      >>= send_probes ps

  unfoldable pub maybe_send_read_probes : Node S → Outcome (Node S)
  maybe_send_read_probes n = send_probes n.peers n

  unfoldable pub finish_read_index_rounds : Node S → Outcome (Node S)
  finish_read_index_rounds n =
      maybe_send_read_probes (try_start_read_round (record n { rounds = drop_confirmed n.rounds }))

  unfoldable pub ack_read_index_probe : ℕ → ℕ → Node S → Node S
  ack_read_index_probe from rpc n =
      let (rs, served) = ack_rounds (quorum_size n) env.now from rpc n.rounds in
      process_confirmed served (record n { rounds = rs })

  unfoldable pub process_pending_reads : Node S → Outcome (Node S)
  process_pending_reads n =
      let (ready, kept) = ready_reads n.last_applied n.pending_reads in
      finish_read_index_rounds
        (record n { pending_reads = kept; outbox = n.outbox ++ serve_reads ready })

  unfoldable pub check_read_index_timeout : Node S → Node S
  check_read_index_timeout n =
      let (reads, rs) = expire_rounds env.now n.rounds in
      let (unsent, unsent') = expire_queue env.now n.unsent_reads in
      let (waiting, waiting') = expire_queue env.now n.pending_reads in
      record n {
        rounds = rs;
        unsent_reads = unsent';
        pending_reads = waiting';
        outbox =
            n.outbox
            ++ fail_reads read_timeout reads
            ++ fail_reads read_timeout unsent
            ++ fail_reads apply_timeout waiting;
      }

  unfoldable pub read_lease_valid : Node S → Bool
  read_lease_valid n =
      n.lease_reads
      && is_leader n
      && n.can_serve_read
      && leb max_election_timeout_ms (env.now - n.leader_since)
      && (leb (quorum_size n) 1
          || leb (quorum_size n)
              (1 + count_fresh env.now n.lease_confirmed (others n.node_id n.peers)))

  unfoldable pub reject_read : ℕ → Reason → Node S → Outcome (Node S)
  reject_read callback why n =
      done (record n { outbox = n.outbox ++ read_failed callback why ∷ [] })

  unfoldable pub request_read_index : ℕ → Node S → Outcome (Node S)
  request_read_index callback n =
      let q : ReadRequest = record {
        read_index = n.commit_index;
        callback = callback;
        created_at = env.now;
      } in
      if not (is_leader n)
      then reject_read callback (elim n.leader_id [ none ↦ no_leader | some l ↦ not_leader ]) n
      else if not n.can_serve_read
      then reject_read callback waiting_for_no_op n
      else if leb max_pending_read_index (pending_read_index_count n)
      then reject_read callback queue_full n
      else if read_lease_valid n
      then (if ltb n.last_applied n.commit_index
          then done (record n { pending_reads = n.pending_reads ++ q ∷ [] })
          else process_pending_reads
              (record n { outbox = n.outbox ++ read_served callback n.commit_index ∷ [] }))
      else finish_read_index_rounds (record n { unsent_reads = n.unsent_reads ++ q ∷ [] })
