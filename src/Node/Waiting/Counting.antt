-- ===== src/Node/Waiting/Counting.antt =====
-- The reads of a callback, counted where they wait and where they are answered.
use raft_kv.Base.{
  ℕ, ◌+◌, ◌≡◌, refl, List, [], ◌∷◌, ◌++◌, arith, inl, inr, Bool-cases, leb, ◌==◌, if◌then◌else◌,
}
use raft_kv.Node.State.{Node, ReadRequest, Round, Output, read_served, read_failed}
use raft_kv.Node.Reads.{
  requests_of, serve_reads, expire_rounds, expire_queue, ready_reads, process_confirmed,
}

-- The sum of a weight over requests, and over outputs.
abbrev pub total_reads : (ReadRequest → ℕ) → List ReadRequest → ℕ
total_reads w [] = 0
total_reads w (q ∷ qs) = w q + total_reads w qs

abbrev pub total_outputs : (Output → ℕ) → List Output → ℕ
total_outputs f [] = 0
total_outputs f (o ∷ os) = f o + total_outputs f os

pub total_reads-append :
    (w : ReadRequest → ℕ) (xs ys : List ReadRequest)
    → total_reads w (xs ++ ys) ≡ total_reads w xs + total_reads w ys
total_reads-append w [] ys = omega arith
total_reads-append w (x ∷ xs) ys = omega (arith, total_reads-append w xs ys)

pub total_outputs-append :
    (f : Output → ℕ) (xs ys : List Output)
    → total_outputs f (xs ++ ys) ≡ total_outputs f xs + total_outputs f ys
total_outputs-append f [] ys = omega arith
total_outputs-append f (x ∷ xs) ys = omega (arith, total_outputs-append f xs ys)

-- How many requests of the list have the callback.
abbrev pub asks : ℕ → ReadRequest → ℕ
asks c q = if q.callback == c then 1 else 0

abbrev pub waiting : ℕ → List ReadRequest → ℕ
waiting c qs = total_reads (asks c) qs

-- Whether an output serves the callback, or fails it; how many outputs answer it.
abbrev pub serves : ℕ → Output → ℕ
serves c (read_served d i) = if d == c then 1 else 0
serves c _ = 0

abbrev pub fails : ℕ → Output → ℕ
fails c (read_failed d why) = if d == c then 1 else 0
fails c _ = 0

abbrev pub answers : ℕ → Output → ℕ
answers c (read_served d i) = if d == c then 1 else 0
answers c (read_failed d why) = if d == c then 1 else 0
answers c _ = 0

abbrev pub served_reads : ℕ → List Output → ℕ
served_reads c os = total_outputs (serves c) os

abbrev pub failed_reads : ℕ → List Output → ℕ
failed_reads c os = total_outputs (fails c) os

abbrev pub answered : ℕ → List Output → ℕ
answered c os = total_outputs (answers c) os

-- The reads of a callback, in the rounds, the queues, and the answers given.
abbrev pub reads_of : {S : Type 0} → ℕ → Node S → ℕ
reads_of c n =
    waiting c (requests_of n.rounds)
    + waiting c n.unsent_reads
    + waiting c n.pending_reads
    + answered c n.outbox

pub waiting-append :
    (c : ℕ) (xs ys : List ReadRequest) → waiting c (xs ++ ys) ≡ waiting c xs + waiting c ys
waiting-append c xs ys = total_reads-append (asks c) xs ys

pub answered-append :
    (c : ℕ) (xs ys : List Output) → answered c (xs ++ ys) ≡ answered c xs + answered c ys
answered-append c xs ys = total_outputs-append (answers c) xs ys

pub answered-serve_reads :
    (c : ℕ) (qs : List ReadRequest) → answered c (serve_reads qs) ≡ waiting c qs
answered-serve_reads c [] = refl
answered-serve_reads c (q ∷ qs) = omega (arith, answered-serve_reads c qs)

pub waiting-expire_rounds :
    (c now : ℕ) (rs : List Round)
    → waiting c (expire_rounds now rs).0 + waiting c (requests_of (expire_rounds now rs).1)
      ≡ waiting c (requests_of rs)
unfolding expire_rounds
waiting-expire_rounds c now [] = refl
waiting-expire_rounds c now (r ∷ rs) = ground (
  arith,
  waiting-expire_rounds c now rs,
  waiting-append c r.requests (requests_of rs),
  waiting-append c r.requests (expire_rounds now rs).0,
)

pub waiting-expire_queue :
    (c now : ℕ) (qs : List ReadRequest)
    → waiting c (expire_queue now qs).0 + waiting c (expire_queue now qs).1 ≡ waiting c qs
unfolding expire_queue
waiting-expire_queue c now [] = refl
waiting-expire_queue c now (q ∷ qs) = ground (arith, waiting-expire_queue c now qs)

pub waiting-ready_reads :
    (c k : ℕ) (qs : List ReadRequest)
    → waiting c (ready_reads k qs).0 + waiting c (ready_reads k qs).1 ≡ waiting c qs
unfolding ready_reads
waiting-ready_reads c k [] = refl
waiting-ready_reads c k (q ∷ qs) = ground (arith, waiting-ready_reads c k qs)

module _ {S : Type 0} where
  pub reads_of-process_confirmed :
      (c : ℕ) (qs : List ReadRequest) (n : Node S)
      → reads_of c (process_confirmed qs n) ≡ reads_of c n + waiting c qs
  unfolding process_confirmed
  reads_of-process_confirmed c [] n = omega arith
  reads_of-process_confirmed c (q ∷ qs) n = elim (Bool-cases (leb q.read_index n.last_applied)) [
    | inl e ↦
        let m : Node S = record n {
          outbox = n.outbox ++ read_served q.callback q.read_index ∷ [];
        } in
        rw (e, process_confirmed)
          (omega (
            arith,
            reads_of-process_confirmed c qs m,
            answered-append c n.outbox (read_served q.callback q.read_index ∷ []),
          ))
    | inr e ↦
        let m : Node S = record n { pending_reads = n.pending_reads ++ q ∷ [] } in
        rw (e, process_confirmed)
          (omega
            (arith, reads_of-process_confirmed c qs m, waiting-append c n.pending_reads (q ∷ [])))
  ]
