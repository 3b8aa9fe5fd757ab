-- ===== src/Machine/Plans.antt =====
-- The round of ApplyBatch's loop against the state machine of the specification, by command.
use raft_kv.Base.{
  ℕ, ◌≤◌, ◌≡◌, refl, sym, ◌∙◌, ap, subst, Bool, true, false, Option, none, some, [], Bytes, ltb,
  ◌==◌, length, arith, Bool-cases, inl, inr, uint64_max, ==_iff,
}
use raft_kv.Outcome.{ok, and_then-eq-ok}
use raft_kv.Commands.{Op, set, del, Idempotent}
use raft_kv.Store.{
  Contents, change, put, delete, Database, Kind, put_kind, delete_kind, noop_kind, is_some,
  update_bytes, find_present,
}
use raft_kv.Store.Batches.{put_in, mutate, mutate_kind, find_present_lem}
use raft_kv.Machine.{
  SessionRecord, client_session_key, encode_session, Command, noop_command, set_command,
  delete_command, idempotent_command, ok_reply, stale_reply, found_reply, Locals, Planned,
  mutation_of, remember, plan_new, session_for, plan_op, plan_request, plan,
}
use raft_kv.Machine.Spec.{
  Spec, set_session, operate, op_reply, request, execute, is_client_key, of_client, IsStored,
  no_record, record_of, Stands,
}
use raft_kv.Machine.Sessions.{session_for_lem}
use raft_kv.Machine.Refines.{
  write_at, Goes, remember-Goes, write_at-Goes, set_session-Goes, Does, filled,
}

-- A mutation without a session.
mutate_plain :
    (index : ℕ) (kind : Kind) (key value : Bytes) (now : Contents)
    → mutate (mutation_of index kind key value) now
      ≡ mutate_kind kind (mutation_of index kind key value) now
unfolding mutate
mutate_plain index kind key value now = refl

module _ (index : ℕ) (old t : Spec) (now : Contents) (l : Locals) (h : Goes old now l t) where
  noop-Does :
      Does old now
        (record { mutation = mutation_of index noop_kind [] []; reply = ok_reply; locals = l })
        (t, ok_reply)
  noop-Does = record { goes = rw (mutate_plain index noop_kind [] [] now) h; replied = refl }

  set-Does :
      (key value : Bytes)
      → is_client_key key ≡ true
      → Does old now
          (record {
            mutation = mutation_of index put_kind key value;
            reply = ok_reply;
            locals = record l { present = update_bytes l.present key true };
          })
          (record t { keys = change (put key value) t.keys }, ok_reply)
  set-Does key value mine = record {
    goes =
        rw (mutate_plain index put_kind key value now)
          (write_at-Goes old t now l key (some value) mine h);
    replied = refl;
  }

  delete-Does :
      (key : Bytes)
      → is_client_key key ≡ true
      → Does old now
          (record {
            mutation = mutation_of index delete_kind key [];
            reply = [];
            locals = record l { present = update_bytes l.present key false };
          })
          (record t { keys = change (delete key) t.keys }, found_reply (is_some (t.keys key)))
  delete-Does key mine = record {
    goes =
        rw (mutate_plain index delete_kind key [] now) (write_at-Goes old t now l key none mine h);
    replied = ap (λ v. found_reply (is_some v)) (h.stands.keys key mine);
  }

-- A reply that is not empty stays.
filled_given : (p : Planned) (now : Contents) → 1 ≤ length p.reply → filled p now ≡ p.reply
filled_given p now h = ground (arith, h)

length-op_reply : (op : Op) (i : Idempotent) (m : Contents) → 1 ≤ length (op_reply op i m)
length-op_reply set i m = omega arith
length-op_reply del i m = long (is_some (m i.key))
  where
    long : (b : Bool) → 1 ≤ length (found_reply b)
    long true = omega arith
    long false = omega arith

mutate_session :
    (index : ℕ) (kind : Kind) (i : Idempotent) (reply : Bytes) (b : Bool) (l : Locals)
    (now : Contents)
    → mutate (plan_new index kind i reply b l).mutation now
      ≡ put_in
          (client_session_key i.client_id)
          (encode_session (record { request_id = i.request_id; reply = reply }))
          (mutate_kind kind (mutation_of index kind i.key i.value) now)
unfolding mutate plan_new client_session_key
mutate_session index put_kind i reply b l now = ground arith
mutate_session index delete_kind i reply b l now = ground arith
mutate_session index noop_kind i reply b l now = ground arith

abbrev kind_of : Op → Kind
kind_of set = put_kind
kind_of del = delete_kind

abbrev written : Op → Idempotent → Option Bytes
written set i = some i.value
written del i = none

-- A request that is new to its client, and what the specification makes of it.
abbrev fresh : Op → Idempotent → Spec → Spec × Bytes
fresh op i t =
    let reply = op_reply op i t.keys in
    (
      record {
        keys = operate op i t.keys;
        sessions =
            set_session i.client_id (record { request_id = i.request_id; reply = reply })
              t.sessions;
      },
      reply,
    )

module _ (index : ℕ) (old t : Spec) (now : Contents) (l : Locals) (h : Goes old now l t)
    (i : Idempotent) (mine : is_client_key i.key ≡ true) (low : 1 ≤ i.request_id)
    (high : i.request_id ≤ uint64_max) where
  -- The session is written over what the operation leaves.
  new-Goes :
      (op : Op)
      → let r : SessionRecord = record {
        request_id = i.request_id;
        reply = op_reply op i t.keys;
      } in
        Goes old
          (put_in
            (client_session_key i.client_id)
            (encode_session r)
            (write_at i.key (written op i) now))
          (remember i.client_id r
            (record l { present = update_bytes l.present i.key (is_some (written op i)) }))
          (record {
            keys = write_at i.key (written op i) t.keys;
            sessions = set_session i.client_id r t.sessions;
          })
  new-Goes op =
      set_session-Goes old (record t { keys = write_at i.key (written op i) t.keys })
        (write_at i.key (written op i) now)
        (record l { present = update_bytes l.present i.key (is_some (written op i)) }) i.client_id
        (record { request_id = i.request_id; reply = op_reply op i t.keys }) low high
        (length-op_reply op i t.keys) (write_at-Goes old t now l i.key (written op i) mine h)

  new-Does :
      (op : Op)
      → Does old now
          (plan_new index (kind_of op) i (op_reply op i t.keys) (is_some (written op i)) l)
          (fresh op i t)
  unfolding plan_new
  new-Does set = record {
    goes = rw (mutate_session index put_kind i ok_reply true l now) (new-Goes set);
    replied = refl;
  }
  new-Does del =
      let reply = found_reply (is_some (t.keys i.key)) in
      record {
        goes = rw (mutate_session index delete_kind i reply false l now) (new-Goes del);
        replied =
            filled_given (plan_new index delete_kind i reply false l) now
              (length-op_reply del i t.keys);
      }

-- A reply that is kept is not empty.
reply_kept :
    (o : Option Bytes) (r : SessionRecord) (n : ℕ)
    → IsStored o r
    → 1 ≤ n
    → n ≡ r.request_id
    → 1 ≤ length r.reply
reply_kept _ _ n no_record low e = absurd (omega arith)
reply_kept _ _ n (record_of r a b long) low e = long

module _ (D : Database) (s : D.State) (index : ℕ) (old t : Spec) (now : Contents) (l : Locals)
    (begun : Stands (D.contents s) old) (h : Goes old now l t) where
  op-Does :
      (op : Op) (i : Idempotent) (p : Planned)
      → is_client_key i.key ≡ true
      → 1 ≤ i.request_id
      → i.request_id ≤ uint64_max
      → plan_op D s index op i l ≡ ok p
      → Does old now p (fresh op i t)
  unfolding plan_op
  op-Does set i p mine low high e =
      let same : plan_new index put_kind i ok_reply true l ≡ p = cc (e) in
      subst (λ x. Does old now x (fresh set i t)) same
        (new-Does index old t now l h i mine low high set)
  op-Does del i p mine low high e =
      let (found, looked, made) = and_then-eq-ok (find_present D s i.key l.present) _ e in
      let there =
        find_present_lem D s i.key l.present old.keys t.keys found h.present
          (sym (begun.keys i.key mine)) looked in
      let same : plan_new index delete_kind i (found_reply (is_some (t.keys i.key))) false l ≡ p =
        ap (λ b. plan_new index delete_kind i (found_reply b) false l) (sym there) ∙ cc (made) in
      subst (λ x. Does old now x (fresh del i t)) same
        (new-Does index old t now l h i mine low high del)

module _ (D : Database) (s : D.State) (index : ℕ) (old t : Spec) (now : Contents) (l : Locals)
    (begun : Stands (D.contents s) old) (h : Goes old now l t) (i : Idempotent)
    (mine : is_client_key i.key ≡ true) (low : 1 ≤ i.request_id)
    (high : i.request_id ≤ uint64_max) where
  -- A request that changes nothing and gets a reply that is known.
  still : Bytes → Planned
  still reply = record {
    mutation = mutation_of index noop_kind [] [];
    reply = reply;
    locals = remember i.client_id (t.sessions i.client_id) l;
  }

  still-Does : (reply : Bytes) → 1 ≤ length reply → Does old now (still reply) (t, reply)
  unfolding still
  still-Does reply long = record {
    goes =
        rw (mutate_plain index noop_kind [] [] now)
          (remember-Goes old t now l i.client_id (t.sessions i.client_id) refl h);
    replied = filled_given (still reply) now long;
  }

  request-Does :
      (p : Planned)
      → plan_request D s index i l (t.sessions i.client_id) ≡ ok p
      → Does old now p (request i t)
  unfolding plan_request still
  request-Does p e =
      let last = t.sessions i.client_id in
      let kept = remember-Goes old t now l i.client_id last refl h in
      elim (Bool-cases (ltb i.request_id last.request_id)) [
        | inl a ↦
            let same : still stale_reply ≡ p = ground (arith, a, e) in
            rw a (
              subst (λ x. Does old now x (t, stale_reply)) same
                (still-Does stale_reply (omega arith)))
        | inr a ↦ elim (Bool-cases (i.request_id == last.request_id)) [
          | inl b ↦
              let same : still last.reply ≡ p = ground (arith, a, b, e) in
              let long =
                reply_kept _ last i.request_id (h.stands.sessions i.client_id) low
                  ((==_iff i.request_id last.request_id).0 b) in
              rw (a, b)
                (subst (λ x. Does old now x (t, last.reply)) same (still-Does last.reply long))
          | inr b ↦
              let made : plan_op D s index i.op i (remember i.client_id last l) ≡ ok p =
                rw (a, b, plan_request) at e in
              rw (a, b)
                (op-Does D s index old t now (remember i.client_id last l) begun kept i.op i p mine
                  low high made)
        ]
      ]

  idempotent-Does :
      (p : Planned) → plan D s index (idempotent_command i) l ≡ ok p → Does old now p (request i t)
  unfolding plan
  idempotent-Does p e =
      let (r, got, rest) = and_then-eq-ok (session_for D s i.client_id l.sessions) _ e in
      let same =
        session_for_lem D s i.client_id l.sessions r (t.sessions i.client_id)
          (old.sessions i.client_id) got (h.recalled.known i.client_id)
          (h.recalled.unknown i.client_id) (begun.sessions i.client_id) in
      request-Does p (subst (λ x. plan_request D s index i l x ≡ ok p) same rest)

-- The ids that a decoded request has.
abbrev pub IdFits : Command → Type 0
IdFits (idempotent_command i) = (1 ≤ i.request_id) × (i.request_id ≤ uint64_max)
IdFits _ = Unit

-- A round of the loop does what the specification does for its command.
pub plan-Does :
    (D : Database) (s : D.State) (index : ℕ) (old t : Spec) (now : Contents) (l : Locals)
    (command : Command) (p : Planned)
    → Stands (D.contents s) old
    → Goes old now l t
    → of_client command ≡ true
    → IdFits command
    → plan D s index command l ≡ ok p
    → Does old now p (execute command t)
unfolding plan execute
plan-Does D s index old t now l noop_command p begun h mine fits e =
    subst (λ x. Does old now x (t, ok_reply)) (cc (e)) (noop-Does index old t now l h)
plan-Does D s index old t now l (set_command key value) p begun h mine fits e =
    subst (λ x. Does old now x (execute (set_command key value) t)) (cc (e))
      (set-Does index old t now l h key value mine)
plan-Does D s index old t now l (delete_command key) p begun h mine fits e =
    subst (λ x. Does old now x (execute (delete_command key) t)) (cc (e))
      (delete-Does index old t now l h key mine)
plan-Does D s index old t now l (idempotent_command i) p begun h mine fits e =
    idempotent-Does D s index old t now l begun h i mine fits.0 fits.1 p e
