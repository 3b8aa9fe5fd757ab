-- ===== src/Machine/Sessions.antt =====
-- The keys and the records of client sessions.
use raft_kv.Base.{
  ◌≤◌, ◌≡◌, refl, sym, List, true, false, Option, none, some, [], ◌∷◌, Bytes, same_bytes,
  take-length, drop-length, length-append, arith, inl, inr, ◌⊎◌, Option-cases, uint64_max,
}
use raft_kv.Outcome.{ok, and_then, and_then-eq-ok}
use raft_kv.BigEndian.{write_u64, length-write_u64, read_u64-write_u64}
use raft_kv.Commands.{
  IdempotentCommand, arg, Idempotent, valid, invalid, parse_request_id, parse_inner,
  parse_idempotent_command,
}
use raft_kv.Commands.Ids.{parse_request_id_iff}
use raft_kv.Store.{Database, applied_key}
use raft_kv.Resp.{try_parse_one}
use raft_kv.Resp.Commands.{Parsed-cases}
use raft_kv.Machine.{
  SessionRecord, client_session_key, encode_session, decode_session, session_for,
  idempotent_command, command_of_args, command_of,
}
use raft_kv.Machine.Spec.{is_client_key, IsStored, no_record, record_of}

pub same_session_key :
    (a b : Bytes) → same_bytes (client_session_key a) (client_session_key b) ≡ same_bytes a b
unfolding client_session_key same_bytes
same_session_key a b = refl

module _ (k client : Bytes) (h : is_client_key k ≡ true) where
  pub key_not_session : same_bytes k (client_session_key client) ≡ false
  unfolding client_session_key same_bytes is_client_key
  key_not_session = not_equal k h
    where
      not_equal :
          (j : Bytes) → is_client_key j ≡ true → same_bytes j (client_session_key client) ≡ false
      not_equal [] e = refl
      not_equal (b ∷ bytes) e = ground (arith, e)

  pub session_not_key : same_bytes (client_session_key client) k ≡ false
  unfolding client_session_key same_bytes is_client_key
  session_not_key = not_equal k h
    where
      not_equal :
          (j : Bytes) → is_client_key j ≡ true → same_bytes (client_session_key client) j ≡ false
      not_equal [] e = refl
      not_equal (b ∷ bytes) e = ground (arith, e)

pub applied_not_session :
    (client : Bytes) → same_bytes applied_key (client_session_key client) ≡ false
unfolding client_session_key same_bytes
applied_not_session client = refl

pub applied_not_key : (k : Bytes) → is_client_key k ≡ true → same_bytes applied_key k ≡ false
unfolding same_bytes is_client_key
applied_not_key [] h = refl
applied_not_key (b ∷ bytes) h = ground (arith, h)

-- A stored session is read as it was.
pub decode_session_lem :
    (o : Option Bytes) (r : SessionRecord) → IsStored o r → decode_session o ≡ ok r
unfolding decode_session encode_session
decode_session_lem _ _ no_record = refl
decode_session_lem _ _ (record_of r low high long) =
    let id = read_u64-write_u64 r.request_id high in
    let eight = length-write_u64 r.request_id in
    let size = length-append (write_u64 r.request_id) r.reply in
    let front = take-length (write_u64 r.request_id) r.reply 8 (sym eight) in
    let back = drop-length (write_u64 r.request_id) r.reply 8 (sym eight) in
    ground (arith, id, eight, size, front, back)

-- A request that is decoded has an id from 1 to 2^64 - 1.
idempotent_id :
    (args : List Bytes) (i : Idempotent)
    → parse_idempotent_command args ≡ valid i
    → (1 ≤ i.request_id) × (i.request_id ≤ uint64_max)
unfolding parse_idempotent_command parse_inner
idempotent_id args i h = elim (Option-cases (parse_request_id (arg args 2))) [
  | inl e ↦ ground (arith, e, h)
  | inr (n, e) ↦
      let (low, high, same) = (parse_request_id_iff (arg args 2) n).0 e in
      ground (arith, e, h, low, high)
]

IdempotentCommand-cases :
    (c : IdempotentCommand) → ((i : Idempotent) × (c ≡ valid i)) ⊎ ((m : Bytes) × (c ≡ invalid m))
IdempotentCommand-cases (valid i) = inl (i, refl)
IdempotentCommand-cases (invalid m) = inr (m, refl)

args_bounds :
    (args : List Bytes) (i : Idempotent)
    → command_of_args args ≡ ok (idempotent_command i)
    → (1 ≤ i.request_id) × (i.request_id ≤ uint64_max)
unfolding command_of_args
args_bounds args i h = elim (IdempotentCommand-cases (parse_idempotent_command args)) [
  | inl (j, e) ↦ ground (arith, e, h, idempotent_id args j e)
  | inr (m, e) ↦ ground (arith, e, h)
]

pub request_id_bounds :
    (raw : Bytes) (i : Idempotent)
    → command_of raw ≡ ok (idempotent_command i)
    → (1 ≤ i.request_id) × (i.request_id ≤ uint64_max)
unfolding command_of
request_id_bounds raw i h = elim (Parsed-cases (try_parse_one raw)) [
  | inl e ↦ ground (arith, e, h)
  | inr (inl (args, n, e)) ↦ ground (arith, e, h, args_bounds args i)
  | inr (inr (m, e)) ↦ ground (arith, e, h)
]

-- The record of a client is its last one in the batch, or else the stored one.
pub session_for_lem :
    (D : Database) (s : D.State) (client : Bytes) (sessions : Bytes → Option SessionRecord)
    (r last old : SessionRecord)
    → session_for D s client sessions ≡ ok r
    → ((known : SessionRecord) → sessions client ≡ some known → known ≡ last)
    → (sessions client ≡ none → last ≡ old)
    → IsStored (D.contents s (client_session_key client)) old
    → r ≡ last
unfolding session_for
session_for_lem D s client sessions r last old h known unknown stored =
    elim (Option-cases (sessions client)) [
      | inr (k, e) ↦ let same : k ≡ r = ground (arith, e, h) in cc (same, known k e)
      | inl e ↦
          let read : and_then (D.get s (client_session_key client)) decode_session ≡ ok r =
            rw (e, session_for) at h in
          let (v, got, decoded) = and_then-eq-ok (D.get s (client_session_key client)) _ read in
          let held = D.get_law s (client_session_key client) v got in
          let there = decode_session_lem (D.contents s (client_session_key client)) old stored in
          cc (held, there, decoded, unknown e)
    ]
