-- ===== src/Machine/Retries.antt =====
-- Consequences for clients: how commands fall into batches does not show, and a request that is sent
-- again is not executed again.
use raft_kv.Base.{
  ℕ, ◌≤◌, ◌≡◌, refl, sym, ◌∙◌, ap, subst, Bool, true, false, List, [], ◌∷◌, ◌++◌, Bytes, arith, All,
  ltb, ◌==◌, same_bytes, same_bytes_refl, if◌then◌else◌, Bool-cases, inl, inr, not_lt→ltb, ==_refl,
  ==_iff,
}
use raft_kv.Outcome.{Result, ok, err}
use raft_kv.Commands.{Idempotent}
use raft_kv.Store.{Database, Store}
use raft_kv.Machine.{
  Command, noop_command, set_command, delete_command, idempotent_command, command_of, apply_batch,
}
use raft_kv.Machine.Spec.{Spec, request, execute, execute_result, execute_all, AllOfClient, Stands}
use raft_kv.Machine.Batches.{apply_batch-Executed}

execute_all-append :
    (xs ys : List Bytes) (t : Spec)
    → execute_all (xs ++ ys) t ≡ (
      (execute_all ys (execute_all xs t).0).0,
      (execute_all xs t).1 ++ (execute_all ys (execute_all xs t).0).1,
    )
unfolding execute_all
execute_all-append [] ys t = refl
execute_all-append (x ∷ xs) ys t =
    rw (execute_all-append xs ys (execute_result (command_of x) t).0) refl

AllOfClient-append : (xs ys : List Bytes) → AllOfClient xs → AllOfClient ys → AllOfClient (xs ++ ys)
AllOfClient-append [] ys h k = k
AllOfClient-append (x ∷ xs) ys h k = (h.0, AllOfClient-append xs ys h.1 k)

-- A batch and the same commands in two batches give the same replies and leave stores that stand for
-- the same state.
pub apply_batch-append :
    (D : Database) (n m k : ℕ) (xs ys : List Bytes) (s t u v : Store D)
    (all first second : List Bytes) (old : Spec)
    → Stands (D.contents s.db) old
    → AllOfClient xs
    → AllOfClient ys
    → apply_batch D n (xs ++ ys) s ≡ ok (t, all)
    → apply_batch D m xs s ≡ ok (u, first)
    → apply_batch D k ys u ≡ ok (v, second)
    → (all ≡ first ++ second)
      × ((w : Spec) × Stands (D.contents t.db) w × Stands (D.contents v.db) w)
apply_batch-append D n m k xs ys s t u v all first second old h hx hy e e1 e2 =
    let whole =
      apply_batch-Executed D n (xs ++ ys) s t all old h (AllOfClient-append xs ys hx hy) e in
    let one = apply_batch-Executed D m xs s u first old h hx e1 in
    let two = apply_batch-Executed D k ys u v second (execute_all xs old).0 one.stands hy e2 in
    let same = execute_all-append xs ys old in
    (
      whole.replied ∙ ap (λ (r : Spec × List Bytes). r.1) same ∙ sym (ap2 one.replied two.replied),
      (
        (execute_all ys (execute_all xs old).0).0,
        subst (λ (r : Spec × List Bytes). Stands (D.contents t.db) r.0) same whole.stands,
        two.stands,
      ),
    )
  where
    ap2 : {a b c d : List Bytes} → a ≡ b → c ≡ d → (a ++ c) ≡ (b ++ d)
    ap2 p q = cc (p, q)

-- The command is not a request of the client.
abbrev pub of_other : Bytes → Result Command → Bool
of_other client (ok (idempotent_command i)) = if same_bytes i.client_id client then false else true
of_other client _ = true

abbrev pub AllOfOthers : Bytes → List Bytes → Type 0
AllOfOthers client = All λ raw. of_other client (command_of raw) ≡ true

other_kept :
    (client : Bytes) (c : Result Command) (t : Spec)
    → of_other client c ≡ true
    → (execute_result c t).0.sessions client ≡ t.sessions client
unfolding execute
other_kept client (err e) t h = refl
other_kept client (ok noop_command) t h = refl
other_kept client (ok (set_command key value)) t h = refl
other_kept client (ok (delete_command key)) t h = refl
other_kept client (ok (idempotent_command i)) t h =
    let apart : same_bytes i.client_id client ≡ false = ground (arith, h) in
    elim (Bool-cases (ltb i.request_id (t.sessions i.client_id).request_id)) [
      | inl a ↦ rw a refl
      | inr a ↦ elim (Bool-cases (i.request_id == (t.sessions i.client_id).request_id)) [
        | inl b ↦ rw (a, b) refl
        | inr b ↦ rw (a, b, apart) refl
      ]
    ]

others_kept :
    (client : Bytes) (raws : List Bytes) (t : Spec)
    → AllOfOthers client raws
    → (execute_all raws t).0.sessions client ≡ t.sessions client
unfolding execute_all
others_kept client [] t h = refl
others_kept client (raw ∷ raws) t h =
    others_kept client raws (execute_result (command_of raw) t).0 h.1
    ∙ other_kept client (command_of raw) t h.0

-- A request that is not older than the last one is the last one then, with the reply that it got.
request_kept :
    (i : Idempotent) (t : Spec)
    → (t.sessions i.client_id).request_id ≤ i.request_id
    → (request i t).0.sessions i.client_id
      ≡ record { request_id = i.request_id; reply = (request i t).1 }
request_kept i t h =
    let last = t.sessions i.client_id in
    let fresh : ltb i.request_id last.request_id ≡ false = not_lt→ltb _ _ (omega arith) in
    elim (Bool-cases (i.request_id == last.request_id)) [
      | inl b ↦
          let same : i.request_id ≡ last.request_id = (==_iff i.request_id last.request_id).0 b in
          rw (fresh, b) (rw same refl)
      | inr b ↦ rw (fresh, b, same_bytes_refl i.client_id) refl
    ]

-- The last request of a client gets the reply that is kept, and changes nothing.
request_again :
    (i : Idempotent) (t : Spec) (reply : Bytes)
    → t.sessions i.client_id ≡ record { request_id = i.request_id; reply = reply }
    → request i t ≡ (t, reply)
request_again i t reply e =
    let not_older : ltb i.request_id i.request_id ≡ false = not_lt→ltb _ _ (omega arith) in
    rw (e, ==_refl i.request_id) (rw not_older refl)

-- A batch of one request.
one_request :
    (D : Database) (n : ℕ) (raw : Bytes) (i : Idempotent) (s t : Store D) (replies : List Bytes)
    (old : Spec)
    → Stands (D.contents s.db) old
    → AllOfClient (raw ∷ [])
    → command_of raw ≡ ok (idempotent_command i)
    → apply_batch D n (raw ∷ []) s ≡ ok (t, replies)
    → Stands (D.contents t.db) (request i old).0 × (replies ≡ (request i old).1 ∷ [])
unfolding execute_all execute
one_request D n raw i s t replies old h mine decoded e =
    let done = apply_batch-Executed D n (raw ∷ []) s t replies old h mine e in
    (rw decoded at done.stands, rw decoded at done.replied)

-- A retried request: a client's request that is not older than its last one was applied, then any
-- commands of others, then the same bytes again. The retry gets the reply of the first time, and the
-- store stands for the same state before it and after it.
pub apply_batch_retry :
    (D : Database) (n m k : ℕ) (raw : Bytes) (others : List Bytes) (i : Idempotent)
    (s t u v : Store D) (first between again : List Bytes) (old : Spec)
    → Stands (D.contents s.db) old
    → AllOfClient (raw ∷ [])
    → AllOfClient others
    → command_of raw ≡ ok (idempotent_command i)
    → (old.sessions i.client_id).request_id ≤ i.request_id
    → AllOfOthers i.client_id others
    → apply_batch D n (raw ∷ []) s ≡ ok (t, first)
    → apply_batch D m others t ≡ ok (u, between)
    → apply_batch D k (raw ∷ []) u ≡ ok (v, again)
    → (again ≡ first) × ((w : Spec) × Stands (D.contents u.db) w × Stands (D.contents v.db) w)
apply_batch_retry D n m k raw others i s t u v first between again old h mine theirs decoded newer
      apart e1 e2 e3 =
    let (done, replied) = one_request D n raw i s t first old h mine decoded e1 in
    let two = apply_batch-Executed D m others t u between (request i old).0 done theirs e2 in
    let w = (execute_all others (request i old).0).0 in
    let (left, answered) = one_request D k raw i u v again w two.stands mine decoded e3 in
    let kept = others_kept i.client_id others (request i old).0 apart ∙ request_kept i old newer in
    let same = request_again i w (request i old).1 kept in
    (
      cc (answered, replied, same),
      (w, two.stands, subst (λ (r : Spec × Bytes). Stands (D.contents v.db) r.0) same left),
    )
