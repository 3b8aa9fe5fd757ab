-- ===== src/Machine/Returns.antt =====
-- ApplyBatch returns where the database answers and the commands decode.
use raft_kv.Base.{
  ℕ, ◌+◌, ◌≤◌, ◌≡◌, refl, Bool, true, false, Option, List, [], ◌∷◌, ◌++◌, Bytes, length, arith, All,
  ltb, ◌==◌, same_bytes, Bool-cases, Option-cases, inl, inr, ◌⊎◌, int64_max,
}
use raft_kv.Outcome.{Result, ok, err, and_then}
use raft_kv.BigEndian.{write_u64}
use raft_kv.Commands.{Op, set, del, Idempotent}
use raft_kv.Store.{
  Database, Store, Change, put, Kind, put_kind, delete_kind, noop_kind, Mutation, Batch,
  empty_batch, is_some, find_present, add_kind, add_session, add_mutations, check_order,
  write_batch, apply_mutations, applied_key,
}
use raft_kv.Machine.{
  Command, noop_command, set_command, delete_command, idempotent_command, command_of, Locals,
  no_locals, SessionRecord, Planned, session_for, plan_new, plan_op, plan_request, plan, plan_all,
  next_index, remember, found_reply, apply_batch, fill_replies, client_session_key,
}
use raft_kv.Machine.Spec.{Spec, Stands}
use raft_kv.Machine.Sessions.{decode_session_lem}

abbrev pub Returns {ℓ} : {A : Type ℓ} → Result A → Type ℓ
Returns {A = A} r = (a : A) × (r ≡ ok a)

and_then-Returns {ℓ κ} :
    {A : Type ℓ} {B : Type κ} (r : Result A) (f : A → Result B)
    → Returns r
    → ((a : A) → r ≡ ok a → Returns (f a))
    → Returns (and_then r f)
and_then-Returns (ok a) f h k = k a refl
and_then-Returns (err e) f (a, h) k = cc (h)

then_Returns {ℓ κ} :
    {A : Type ℓ} {B : Type κ} (r : Result A) (f : A → Result B) (a : A)
    → r ≡ ok a
    → Returns (f a)
    → Returns (and_then r f)
then_Returns r f a e h = rw e h

-- The mutations of a plan: in order behind an index, and with the session of a client, if any.
abbrev pub IsSessionOrNone : Mutation → Type 0
IsSessionOrNone m =
    (length m.session_key == 0) ≡ true ⊎ same_bytes m.session_key applied_key ≡ false

abbrev pub InOrder : ℕ → List Mutation → Type 0
InOrder last [] = Unit
InOrder last (m ∷ ms) = (m.index ≡ last + 1) × IsSessionOrNone m × InOrder (last + 1) ms

-- A plan that returns, with the index that it was made for.
abbrev PlansAt : ℕ → Result Planned → Type 0
PlansAt index r =
    (p : Planned) × (r ≡ ok p) × (p.mutation.index ≡ index) × IsSessionOrNone p.mutation

session_not_applied : (client : Bytes) → same_bytes (client_session_key client) applied_key ≡ false
unfolding client_session_key same_bytes
session_not_applied client = refl

next_index_lem :
    (D : Database) (s : D.State) (index last : ℕ) (first : Bool)
    → ((first ≡ true) × (index ≡ last + 1)) ⊎ ((first ≡ false) × (index ≡ last))
    → last + 1 ≤ int64_max
    → next_index D s index first ≡ ok (last + 1)
next_index_lem D s index last first (inl (e, f)) fits = rw (e, f) refl
next_index_lem D s index last first (inr (e, f)) fits = rw (e, f) (ground arith)

module _ (D : Database) (s : D.State) (reads : (k : Bytes) → Returns (D.get s k)) where
  find_present-Returns :
      (k : Bytes) (present : Bytes → Option Bool) → Returns (find_present D s k present)
  unfolding find_present
  find_present-Returns k present = elim (Option-cases (present k)) [
    | inr (b, e) ↦ rw (e, find_present) (b, refl)
    | inl e ↦
        rw (e, find_present) (and_then-Returns (D.get s k) _ (reads k) λ v h. (is_some v, refl))
  ]

  session_for-Returns :
      (client : Bytes) (memory : Bytes → Option SessionRecord) (old : Spec)
      → Stands (D.contents s) old
      → Returns (session_for D s client memory)
  unfolding session_for
  session_for-Returns client memory old h = elim (Option-cases (memory client)) [
    | inr (r, e) ↦ rw (e, session_for) (r, refl)
    | inl e ↦
        rw (e, session_for)
          (and_then-Returns (D.get s (client_session_key client)) _
            (reads (client_session_key client))
            λ v got.
              let held = D.get_law s (client_session_key client) v got in
              let there = decode_session_lem _ _ (h.sessions client) in
              (old.sessions client, rw held there))
  ]

  plan_op-PlansAt :
      (index : ℕ) (op : Op) (i : Idempotent) (l : Locals) → PlansAt index (plan_op D s index op i l)
  unfolding plan_op plan_new
  plan_op-PlansAt index set i l = (_, refl, refl, inr (session_not_applied i.client_id))
  plan_op-PlansAt index del i l =
      let (found, e) = find_present-Returns i.key l.present in
      (
        plan_new index delete_kind i (found_reply found) false l,
        rw (e, plan_op) refl,
        refl,
        inr (session_not_applied i.client_id),
      )

  plan_request-PlansAt :
      (index : ℕ) (i : Idempotent) (l : Locals) (r : SessionRecord)
      → PlansAt index (plan_request D s index i l r)
  unfolding plan_request
  plan_request-PlansAt index i l r = elim (Bool-cases (ltb i.request_id r.request_id)) [
    | inl a ↦ rw a (_, refl, refl, inl refl)
    | inr a ↦ elim (Bool-cases (i.request_id == r.request_id)) [
      | inl b ↦ rw (a, b) (_, refl, refl, inl refl)
      | inr b ↦ rw (a, b) (plan_op-PlansAt index i.op i (remember i.client_id r l))
    ]
  ]

  plan-PlansAt :
      (index : ℕ) (command : Command) (l : Locals) (old : Spec)
      → Stands (D.contents s) old
      → PlansAt index (plan D s index command l)
  unfolding plan
  plan-PlansAt index noop_command l old h = (_, refl, refl, inl refl)
  plan-PlansAt index (set_command key value) l old h = (_, refl, refl, inl refl)
  plan-PlansAt index (delete_command key) l old h = (_, refl, refl, inl refl)
  plan-PlansAt index (idempotent_command i) l old h =
      let (r, e) = session_for-Returns i.client_id l.sessions old h in
      rw e (plan_request-PlansAt index i l r)

  -- The plan of a batch that begins behind `last`.
  abbrev PlansAll : ℕ → ℕ → Result (List Mutation × List Bytes) → Type 0
  PlansAll last count r =
      (m : List Mutation × List Bytes) × (r ≡ ok m) × (length m.0 ≡ count) × InOrder last m.0

  plan_all_of :
      (raw : Bytes) (raws : List Bytes) (index here : ℕ) (first : Bool) (l : Locals) (c : Command)
      (p : Planned) (m : List Mutation × List Bytes)
      → next_index D s index first ≡ ok here
      → command_of raw ≡ ok c
      → plan D s here c l ≡ ok p
      → plan_all D s here false raws p.locals ≡ ok m
      → plan_all D s index first (raw ∷ raws) l ≡ ok (p.mutation ∷ m.0, p.reply ∷ m.1)
  unfolding plan_all
  plan_all_of raw raws index here first l c p m e f g k = rw (e, plan_all) (rw f (rw g (rw k refl)))

  plan_all-PlansAll :
      (raws : List Bytes) (index last : ℕ) (first : Bool) (l : Locals) (old : Spec)
      → Stands (D.contents s) old
      → All (λ raw. Returns (command_of raw)) raws
      → last + length raws ≤ int64_max
      → ((first ≡ true) × (index ≡ last + 1)) ⊎ ((first ≡ false) × (index ≡ last))
      → PlansAll last (length raws) (plan_all D s index first raws l)
  plan_all-PlansAll [] index last first l old h good fits at =
      unfold plan_all in (([], []), refl, refl, tt)
  plan_all-PlansAll (raw ∷ raws) index last first l old h (decodes, good) fits at =
      let (c, decoded) = decodes in
      let here : next_index D s index first ≡ ok (last + 1) =
        next_index_lem D s index last first at (omega arith) in
      let (p, planned, place, session) = plan-PlansAt (last + 1) c l old h in
      let (m, rest, size, order) =
        plan_all-PlansAll raws (last + 1) (last + 1) false p.locals old h good (omega arith)
          (inr (refl, refl)) in
      (
        (p.mutation ∷ m.0, p.reply ∷ m.1),
        plan_all_of raw raws index (last + 1) first l c p m here decoded planned rest,
        omega (arith, size),
        (place, session, order),
      )

  add_session-Returns : (m : Mutation) (b : Batch) → IsSessionOrNone m → Returns (add_session m b)
  unfolding add_session
  add_session-Returns m b (inl e) = rw (e, add_session) (b, refl)
  add_session-Returns m b (inr e) = elim (Bool-cases (length m.session_key == 0)) [
    | inl f ↦ rw (f, add_session) (b, refl)
    | inr f ↦ rw (f, add_session) (rw e (_, refl))
  ]

  add_kind-Returns : (kind : Kind) (m : Mutation) (b : Batch) → Returns (add_kind D s kind m b)
  unfolding add_kind
  add_kind-Returns put_kind m b = (_, refl)
  add_kind-Returns delete_kind m b =
      let (found, e) = find_present-Returns m.key b.present in
      and_then-Returns (find_present D s m.key b.present) _ (found, e) λ f _. (_, refl)
  add_kind-Returns noop_kind m b = (_, refl)

  add_mutations-Returns :
      (ms : List Mutation) (last : ℕ) (b : Batch)
      → InOrder last ms
      → Returns (add_mutations D s ms b)
  unfolding add_mutations
  add_mutations-Returns [] last b h = (b, refl)
  add_mutations-Returns (m ∷ ms) last b (place, session, h) =
      and_then-Returns (add_kind D s m.kind m b) _ (add_kind-Returns m.kind m b) λ c _.
        and_then-Returns (add_session m c) _ (add_session-Returns m c session)
          λ d _. add_mutations-Returns ms (last + 1) d h

check_order-Returns :
    (ms : List Mutation) (last : ℕ)
    → InOrder last ms
    → last + length ms ≤ int64_max
    → Returns (check_order last ms)
unfolding check_order
check_order-Returns [] last h fits = (last, refl)
check_order-Returns (m ∷ ms) last (place, session, h) fits =
    let (r, e) = check_order-Returns ms (last + 1) h (omega arith) in (r, ground (arith, place, e))

module _ (D : Database) (s : Store D) (reads : (k : Bytes) → Returns (D.get s.db k))
    (writes : (cs : List Change) → Returns (D.write s.db cs)) where
  apply_mutations-Returns :
      (ms : List Mutation)
      → InOrder s.last_applied ms
      → s.last_applied + length ms ≤ int64_max
      → Returns (apply_mutations D ms s)
  unfolding apply_mutations write_batch
  apply_mutations-Returns [] h fits = (_, refl)
  apply_mutations-Returns (m ∷ ms) h fits =
      and_then-Returns (check_order s.last_applied (m ∷ ms)) _
        (check_order-Returns (m ∷ ms) s.last_applied h fits)
        λ last _.
          and_then-Returns (add_mutations D s.db (m ∷ ms) empty_batch) _
            (add_mutations-Returns D s.db reads (m ∷ ms) s.last_applied empty_batch h)
            λ b _.
              and_then-Returns (D.write s.db (b.changes ++ put applied_key (write_u64 last) ∷ [])) _
                (writes (b.changes ++ put applied_key (write_u64 last) ∷ [])) λ db _. (_, refl)

  -- Where the database answers reads and takes writes, and the store stands for a state of the
  -- specification, so that the session records it holds can be decoded, a batch of commands that decode,
  -- begun at the index behind the last applied one and within the range of indices, is applied.
  pub apply_batch-Returns :
      (raws : List Bytes) (old : Spec)
      → Stands (D.contents s.db) old
      → All (λ raw. Returns (command_of raw)) raws
      → s.last_applied + length raws ≤ int64_max
      → Returns (apply_batch D (s.last_applied + 1) raws s)
  unfolding apply_batch
  apply_batch-Returns raws old h good fits =
      let (m, planned, size, order) =
        plan_all-PlansAll D s.db reads raws (s.last_applied + 1) s.last_applied true no_locals old h
          good fits (inl (refl, refl)) in
      then_Returns _ (λ x. and_then (apply_mutations D x.0 s) λ y. ok (y.0, fill_replies x.1 y.1)) m
        planned
        (and_then-Returns (apply_mutations D m.0 s) _
          (apply_mutations-Returns m.0 order (omega (arith, size))) λ y _. (_, refl))
