-- ===== src/Node/Waiting/Answering.antt =====
-- What becomes of the requests that are confirmed: those that the applied index has reached are served,
-- the others wait for it.
use raft_kv.Base.{
  ℕ, ◌+◌, ◌≤◌, ◌<◌, ◌≡◌, refl, List, [], ◌∷◌, ◌++◌, arith, inl, inr, Bool-cases, leb, ltb,
  if◌then◌else◌,
}
use raft_kv.Node.State.{Node, ReadRequest, Output, read_served, read_failed, Reason}
use raft_kv.Node.Reads.{fail_reads, process_confirmed, ready_reads, serve_reads}
use raft_kv.Node.Waiting.Counting.{
  total_reads, total_reads-append, total_outputs, total_outputs-append,
}

-- Values that do not fall, from `low` on.
abbrev pub InOrder {ℓ} : {A : Type ℓ} → (A → ℕ) → ℕ → List A → Type 0
InOrder value low [] = Unit
InOrder value low (x ∷ xs) = (low ≤ value x) × InOrder value (value x) xs

-- The weight of the requests that an applied index has reached, and of the others.
abbrev pub if_reached : ℕ → (ReadRequest → ℕ) → ReadRequest → ℕ
if_reached i w q = if leb q.read_index i then w q else 0

abbrev pub if_beyond : ℕ → (ReadRequest → ℕ) → ReadRequest → ℕ
if_beyond i w q = if leb q.read_index i then 0 else w q

-- Whether a request is reached, and whether an output serves one that is not.
abbrev pub reached : ℕ → ReadRequest → ℕ
reached i q = if leb q.read_index i then 1 else 0

abbrev pub early : ℕ → Output → ℕ
early i (read_served c j) = if ltb i j then 1 else 0
early i _ = 0

-- What an output that serves the request counts.
abbrev pub as_served : (Output → ℕ) → ReadRequest → ℕ
as_served f q = f (read_served q.callback q.read_index)

pub total_reads-zero :
    (w : ReadRequest → ℕ) (qs : List ReadRequest)
    → ((q : ReadRequest) → w q ≡ 0)
    → total_reads w qs ≡ 0
total_reads-zero w [] h = refl
total_reads-zero w (q ∷ qs) h = omega (arith, h q, total_reads-zero w qs h)

module _ {S : Type 0} where
  pub outputs-process_confirmed :
      (f : Output → ℕ) (qs : List ReadRequest) (n : Node S)
      → total_outputs f (process_confirmed qs n).outbox
        ≡ total_outputs f n.outbox + total_reads (if_reached n.last_applied (as_served f)) qs
  unfolding process_confirmed
  outputs-process_confirmed f [] n = omega arith
  outputs-process_confirmed f (q ∷ qs) n = elim (Bool-cases (leb q.read_index n.last_applied)) [
    | inl e ↦
        let m : Node S = record n {
          outbox = n.outbox ++ read_served q.callback q.read_index ∷ [];
        } in
        rw (e, process_confirmed)
          (omega (
            arith,
            outputs-process_confirmed f qs m,
            total_outputs-append f n.outbox (read_served q.callback q.read_index ∷ []),
          ))
    | inr e ↦
        let m : Node S = record n { pending_reads = n.pending_reads ++ q ∷ [] } in
        rw (e, process_confirmed) (omega (arith, outputs-process_confirmed f qs m))
  ]

  pub pending-process_confirmed :
      (w : ReadRequest → ℕ) (qs : List ReadRequest) (n : Node S)
      → total_reads w (process_confirmed qs n).pending_reads
        ≡ total_reads w n.pending_reads + total_reads (if_beyond n.last_applied w) qs
  unfolding process_confirmed
  pending-process_confirmed w [] n = omega arith
  pending-process_confirmed w (q ∷ qs) n = elim (Bool-cases (leb q.read_index n.last_applied)) [
    | inl e ↦
        let m : Node S = record n {
          outbox = n.outbox ++ read_served q.callback q.read_index ∷ [];
        } in
        rw (e, process_confirmed) (omega (arith, pending-process_confirmed w qs m))
    | inr e ↦
        let m : Node S = record n { pending_reads = n.pending_reads ++ q ∷ [] } in
        rw (e, process_confirmed)
          (omega (
            arith,
            pending-process_confirmed w qs m,
            total_reads-append w n.pending_reads (q ∷ []),
          ))
  ]

  pub rounds-process_confirmed :
      (qs : List ReadRequest) (n : Node S)
      → ((process_confirmed qs n).rounds ≡ n.rounds)
        × ((process_confirmed qs n).unsent_reads ≡ n.unsent_reads)
  unfolding process_confirmed
  rounds-process_confirmed [] n = (refl, refl)
  rounds-process_confirmed (q ∷ qs) n = elim (Bool-cases (leb q.read_index n.last_applied)) [
    | inl e ↦
        let m : Node S = record n {
          outbox = n.outbox ++ read_served q.callback q.read_index ∷ [];
        } in
        rw (e, process_confirmed) (rounds-process_confirmed qs m)
    | inr e ↦
        let m : Node S = record n { pending_reads = n.pending_reads ++ q ∷ [] } in
        rw (e, process_confirmed) (rounds-process_confirmed qs m)
  ]

-- The measures of a list of failures, and of a list of reads served.
pub outputs-fail_reads :
    (f : Output → ℕ) (w : ReadRequest → ℕ) (why : Reason) (qs : List ReadRequest)
    → ((q : ReadRequest) → f (read_failed q.callback why) ≡ w q)
    → total_outputs f (fail_reads why qs) ≡ total_reads w qs
outputs-fail_reads f w why [] h = refl
outputs-fail_reads f w why (q ∷ qs) h = omega (arith, h q, outputs-fail_reads f w why qs h)

pub outputs-serve_reads :
    (f : Output → ℕ) (qs : List ReadRequest)
    → total_outputs f (serve_reads qs) ≡ total_reads (as_served f) qs
outputs-serve_reads f [] = refl
outputs-serve_reads f (q ∷ qs) = omega (arith, outputs-serve_reads f qs)

-- In a queue in order of their indices, no reached request is kept, and none is served early.
beyond_all :
    (i low : ℕ) (qs : List ReadRequest)
    → i < low
    → InOrder (λ (q : ReadRequest). q.read_index) low qs
    → total_reads (reached i) qs ≡ 0
beyond_all i low [] h order = refl
beyond_all i low (q ∷ qs) h (le, order) =
    ground (arith, h, le, beyond_all i q.read_index qs (omega arith) order)

pub kept-ready_reads :
    (i low : ℕ) (qs : List ReadRequest)
    → InOrder (λ (q : ReadRequest). q.read_index) low qs
    → total_reads (reached i) (ready_reads i qs).1 ≡ 0
unfolding ready_reads
kept-ready_reads i low [] order = refl
kept-ready_reads i low (q ∷ qs) (le, order) = elim (Bool-cases (leb q.read_index i)) [
  | inl e ↦ rw (e, ready_reads) (kept-ready_reads i q.read_index qs order)
  | inr e ↦
      let above : i < q.read_index = ground (arith, e) in
      let rest = beyond_all i q.read_index qs above order in
      rw (e, ready_reads) (ground (arith, e, rest))
]

pub early-ready_reads :
    (i : ℕ) (qs : List ReadRequest) → total_reads (as_served (early i)) (ready_reads i qs).0 ≡ 0
unfolding ready_reads
early-ready_reads i [] = refl
early-ready_reads i (q ∷ qs) = ground (arith, early-ready_reads i qs)
