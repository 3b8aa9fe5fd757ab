-- ===== src/Node/Limits.antt =====
-- ProposeBatch and FinishApply: the bounds on pending proposals, and their bytes.
use raft_kv.Base.{
  minus_size, ℕ, suc, ◌+◌, ◌≤◌, ◌≡◌, refl, ap, false, some, List, [], ◌∷◌, ◌++◌, Bytes, arith, inl,
  inr, Bool-cases, Option-cases, length, length-append, ◌==◌,
}
use raft_kv.Outcome.{state}
use raft_kv.Log.{Log}
use raft_kv.Node.State.{Node, Env, Reason, Proposal, Pending, max_pending, max_pending_bytes}
use raft_kv.Node.Apply.{settle, take_pending, answer}
use raft_kv.Node.Propose.{
  admitted, admission, batch_bytes, make_pending, bytes_of, register, append_proposals,
  split_expired, has_expired, expire_uncommitted_proposals, fail_pending,
}

-- The count of pending bytes is that of the pending proposals, and both bounds hold.
pub record Accounted (ps : List Pending) (bytes : ℕ) : Type 0 where
  pub counted : bytes ≡ bytes_of ps
  pub few : length ps ≤ max_pending
  pub small : bytes ≤ max_pending_bytes

abbrev pub IsAccounted : {S : Type 0} → Node S → Type 0
IsAccounted n = Accounted n.pending n.pending_bytes

bytes_of-append : (ps qs : List Pending) → bytes_of (ps ++ qs) ≡ bytes_of ps + bytes_of qs
bytes_of-append [] qs = omega arith
bytes_of-append (p ∷ ps) qs = omega (arith, bytes_of-append ps qs)

-- The size loop returns the sum of the sizes.
batch_bytes-sum :
    (now index start sum : ℕ) (ps : List Proposal)
    → batch_bytes start ps ≡ some sum
    → sum ≡ start + bytes_of (make_pending now index ps)
unfolding batch_bytes make_pending
batch_bytes-sum now index start sum [] h = ground arith
batch_bytes-sum now index start sum (p ∷ ps) h =
    let rest : batch_bytes (start + length p.command) ps ≡ some sum = ground arith in
    omega (arith, batch_bytes-sum now (index + 1) (start + length p.command) sum ps rest)

length-make_pending :
    (now index : ℕ) (ps : List Proposal) → length (make_pending now index ps) ≡ length ps
unfolding make_pending
length-make_pending now index [] = refl
length-make_pending now index (p ∷ ps) = ap suc (length-make_pending now (index + 1) ps)

-- Taking a proposal out.
take_pending-Accounted :
    (i : ℕ) (ps rest : List Pending) (p : Pending)
    → take_pending i ps ≡ some (p, rest)
    → (bytes_of ps ≡ p.bytes + bytes_of rest) × (length ps ≡ suc (length rest))
unfolding take_pending
take_pending-Accounted i [] rest p h = cc
take_pending-Accounted i (q ∷ ps) rest p h = elim (Bool-cases (q.index == i)) [
  | inl hit ↦
      let same : (q ≡ p) × (ps ≡ rest) = grind (arith, hit) in rw (same.0, same.1) (refl, refl)
  | inr miss ↦ elim (Option-cases (take_pending i ps)) [
    | inl e ↦ absurd (grind (arith, e))
    | inr ((x, left), e) ↦
        let (sum, count) = take_pending-Accounted i ps left x e in
        let same : (x ≡ p) × (q ∷ left ≡ rest) = grind (arith, e) in
        (
          omega (arith, sum, ap (λ (y : Pending). y.bytes) same.0, ap bytes_of same.1),
          omega (arith, count, ap length same.1),
        )
  ]
]

-- Those that expire and those that stay make up all.
split_expired-bytes :
    (now commit : ℕ) (ps : List Pending)
    → (bytes_of (split_expired now commit ps).0 + bytes_of (split_expired now commit ps).1
        ≡ bytes_of ps)
      × (length (split_expired now commit ps).1 ≤ length ps)
unfolding split_expired
split_expired-bytes now commit [] = (refl, omega arith)
split_expired-bytes now commit (p ∷ ps) =
    let (sum, count) = split_expired-bytes now commit ps in
    elim (Bool-cases (has_expired now commit p)) [
      | inl e ↦ rw (e, split_expired) (omega (arith, sum), omega (arith, count))
      | inr e ↦ rw (e, split_expired) (omega (arith, sum), omega (arith, count))
    ]

module _ {S : Type 0} where
  -- A batch that is admitted fits both bounds, and starts behind the log.
  admission-bounds :
      (ps : List Proposal) (n : Node S) (now first : ℕ)
      → IsAccounted n
      → admission ps n ≡ admitted first
      → (length n.pending + length ps ≤ max_pending)
        × (n.pending_bytes + bytes_of (make_pending now first ps) ≤ max_pending_bytes)
  unfolding admission
  admission-bounds ps n now first a h = elim (Option-cases (batch_bytes 0 ps)) [
    | inl e ↦ absurd (grind (arith, e))
    | inr (sum, e) ↦
        let total = batch_bytes-sum now first 0 sum ps e in
        let few : length n.pending + length ps ≤ max_pending = grind (arith, e, a.few) in
        let small : n.pending_bytes + sum ≤ max_pending_bytes = grind (arith, e, a.small) in
        (few, omega (arith, small, total))
  ]

  settle-Accounted :
      (i : ℕ) (rs : List Bytes) (n : Node S) → IsAccounted n → IsAccounted (settle i rs n)
  unfolding settle
  settle-Accounted i [] n a = a
  settle-Accounted i (r ∷ rs) n a = elim (Option-cases (take_pending i n.pending)) [
    | inl e ↦ rw (e, settle) (settle-Accounted (i + 1) rs n a)
    | inr ((p, rest), e) ↦
        let (sum, count) = take_pending-Accounted i n.pending rest p e in
        rw (e, settle)
          (settle-Accounted (i + 1) rs
            (record n {
              pending = rest;
              pending_bytes = minus_size n.pending_bytes p.bytes;
              outbox = n.outbox ++ answer p.callback r;
            })
            (record {
              counted = omega (arith, a.counted, sum);
              few = omega (arith, a.few, count);
              small = omega (arith, a.small);
            }))
  ]

  fail_pending-Accounted : (why : Reason) (n : Node S) → IsAccounted (fail_pending why n)
  unfolding fail_pending
  fail_pending-Accounted why n = record { counted = refl; few = omega arith; small = omega arith }

module _ {S : Type 0} (env : Env S) where
  expire-Accounted : (n : Node S) → IsAccounted n → IsAccounted (expire_uncommitted_proposals env n)
  unfolding expire_uncommitted_proposals
  expire-Accounted n a =
      let (sum, count) = split_expired-bytes env.now n.commit_index n.pending in
      record {
        counted = omega (arith, a.counted, sum);
        few = omega (arith, a.few, count);
        small = omega (arith, a.small);
      }

  register-Accounted :
      (ps : List Proposal) (n : Node S) (l : Log) (first : ℕ)
      → IsAccounted n
      → admission ps n ≡ admitted first
      → IsAccounted (register env first ps (record n { log = l }))
  unfolding register
  register-Accounted ps n l first a h =
      let (few, small) = admission-bounds ps n env.now first a h in
      let waiting = make_pending env.now first ps in
      record {
        counted = omega (arith, a.counted, bytes_of-append n.pending waiting);
        few =
            omega
              (arith, few, length-append n.pending waiting, length-make_pending env.now first ps);
        small = small;
      }

  -- The admission of a batch, the results of applied entries, the expiry of proposals and the loss
  -- of all of them keep the bounds: at most 1024 proposals and 16 MiB are pending, and the byte
  -- count is the sum of their sizes.
  pub proposals-Accounted :
      (n : Node S)
      → IsAccounted n
      → ((ps : List Proposal) (first : ℕ)
          → admission ps n ≡ admitted first
          → IsAccounted (state (append_proposals env first ps n)))
        × ((i : ℕ) (results : List Bytes) → IsAccounted (settle i results n))
        × IsAccounted (expire_uncommitted_proposals env n)
        × ((why : Reason) → IsAccounted (fail_pending why n))
  unfolding append_proposals
  proposals-Accounted n a = (
    (λ ps first h. grind (
      arith,
      a,
      fail_pending-Accounted Reason.storage_failed (record n { storage_healthy = false }),
      λ (l : Log). register-Accounted ps n l first a h,
    )),
    (λ i results. settle-Accounted i results n a),
    expire-Accounted n a,
    λ why. fail_pending-Accounted why n,
  )
