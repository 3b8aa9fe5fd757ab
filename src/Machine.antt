-- ===== src/Machine.antt =====
-- src/raft/kv_state_machine.cc: Apply and ApplyBatch, from committed commands to the mutations of the
-- store and the replies of clients.
pub mod Spec
pub mod Sessions
pub mod Refines
pub mod Plans
pub mod Batches
pub mod Retries
pub mod Returns
mod Examples
use raft_kv.Base.{
  ℕ, ◌+◌, ◌≡◌, Bool, true, false, not, ◌&&◌, Option, none, some, List, [], ◌∷◌, ◌++◌, Bytes, codes,
  same_bytes, ltb, ◌==◌, if◌then◌else◌, length, take, drop, int64_max,
}
use raft_kv.Outcome.{
  Result, ok, err, and_then, corrupt_session, index_overflow, invalid_command, unsupported_command,
}
use raft_kv.BigEndian.{write_u64, read_u64}
use raft_kv.Commands.{
  arg, upper_command, Op, set, del, Idempotent, valid, invalid, parse_idempotent_command,
}
use raft_kv.Resp.{complete, try_parse_one}
use raft_kv.Store.{
  Database, Kind, put_kind, delete_kind, noop_kind, Mutation, is_some, update_bytes, find_present,
  Store, apply_mutations,
}

pub record SessionRecord : Type 0 where
  pub request_id : ℕ
  pub reply : Bytes

-- A new `SessionRecord`.
abbrev pub no_session : SessionRecord
no_session = record { request_id = 0; reply = [] }

unfoldable pub client_session_key : Bytes → Bytes
client_session_key client_id = (0 ∷ codes "raftkv:client:") ++ client_id

unfoldable pub encode_session : SessionRecord → Bytes
encode_session r = write_u64 r.request_id ++ r.reply

-- The record of a client in the store.
unfoldable pub decode_session : Option Bytes → Result SessionRecord
decode_session none = ok no_session
decode_session (some raw) =
    if ltb (length raw) 8
    then err corrupt_session
    else ok (record { request_id = read_u64 0 (take 8 raw); reply = drop 8 raw })

-- A committed command, decoded.
pub data Command : Type 0 where
  noop_command : Command
  set_command : Bytes → Bytes → Command
  delete_command : Bytes → Command
  idempotent_command : Idempotent → Command

unfoldable pub command_of_args : List Bytes → Result Command
command_of_args args =
    let op = upper_command (arg args 0) in
    let idempotent : Result Command = elim (parse_idempotent_command args) [
      | valid i ↦ ok (idempotent_command i)
      | invalid message ↦ err unsupported_command
    ] in
    if same_bytes op (codes "SET") && length args == 3
    then ok (set_command (arg args 1) (arg args 2))
    else if same_bytes op (codes "DEL") && length args == 2
    then ok (delete_command (arg args 1))
    else if same_bytes op (codes "IDEMP")
    then idempotent
    else err unsupported_command

unfoldable pub command_of : Bytes → Result Command
command_of raw =
    let parsed : Result Command = elim (try_parse_one raw) [
      | complete args consumed ↦
          if consumed == length raw then command_of_args args else err invalid_command
      | _ ↦ err invalid_command
    ] in
    if length raw == 0 then ok noop_command else parsed

abbrev pub ok_reply : Bytes
ok_reply = codes "+OK\r\n"

abbrev pub stale_reply : Bytes
stale_reply = codes "-ERR stale request\r\n"

abbrev pub found_reply : Bool → Bytes
found_reply true = codes ":1\r\n"
found_reply false = codes ":0\r\n"

-- The maps `present` and `sessions`.
pub record Locals : Type 0 where
  pub present : Bytes → Option Bool
  pub sessions : Bytes → Option SessionRecord

abbrev pub no_locals : Locals
no_locals = record { present = λ k. none; sessions = λ c. none }

-- What a command adds: its mutation, and its reply, empty where the store decides it.
pub record Planned : Type 0 where
  pub mutation : Mutation
  pub reply : Bytes
  pub locals : Locals

abbrev pub mutation_of : ℕ → Kind → Bytes → Bytes → Mutation
mutation_of index kind key value = record {
  index = index;
  kind = kind;
  key = key;
  value = value;
  session_key = [];
  session_value = [];
}

abbrev pub remember : Bytes → SessionRecord → Locals → Locals
remember client r l = record l { sessions = update_bytes l.sessions client r }

-- A request that is new to the session: its mutation also writes the session.
unfoldable pub plan_new : ℕ → Kind → Idempotent → Bytes → Bool → Locals → Planned
plan_new index kind i reply there l =
    let r : SessionRecord = record { request_id = i.request_id; reply = reply } in
    record {
      mutation = record (mutation_of index kind i.key i.value) {
        session_key = client_session_key i.client_id;
        session_value = encode_session r;
      };
      reply = reply;
      locals = record (remember i.client_id r l) { present = update_bytes l.present i.key there };
    }

module _ (D : Database) (s : D.State) where
  unfoldable pub session_for : Bytes → (Bytes → Option SessionRecord) → Result SessionRecord
  session_for client sessions = elim (sessions client) [
    | some r ↦ ok r
    | none ↦ and_then (D.get s (client_session_key client)) decode_session
  ]

  unfoldable pub plan_op : ℕ → Op → Idempotent → Locals → Result Planned
  plan_op index set i l = ok (plan_new index put_kind i ok_reply true l)
  plan_op index del i l =
      and_then (find_present D s i.key l.present)
        λ found. ok (plan_new index delete_kind i (found_reply found) false l)

  unfoldable pub plan_request : ℕ → Idempotent → Locals → SessionRecord → Result Planned
  plan_request index i l r =
      let kept = remember i.client_id r l in
      let still = mutation_of index noop_kind [] [] in
      if ltb i.request_id r.request_id
      then ok (record { mutation = still; reply = stale_reply; locals = kept })
      else if i.request_id == r.request_id
      then ok (record { mutation = still; reply = r.reply; locals = kept })
      else plan_op index i.op i kept

  -- A round of the loop of `ApplyBatch`, for a decoded command.
  unfoldable pub plan : ℕ → Command → Locals → Result Planned
  plan index noop_command l =
      ok (record { mutation = mutation_of index noop_kind [] []; reply = ok_reply; locals = l })
  plan index (set_command key value) l = ok (record {
    mutation = mutation_of index put_kind key value;
    reply = ok_reply;
    locals = record l { present = update_bytes l.present key true };
  })
  plan index (delete_command key) l = ok (record {
    mutation = mutation_of index delete_kind key [];
    reply = [];
    locals = record l { present = update_bytes l.present key false };
  })
  plan index (idempotent_command i) l =
      and_then (session_for i.client_id l.sessions) λ r. plan_request index i l r

  -- The index of the next mutation.
  abbrev pub next_index : ℕ → Bool → Result ℕ
  next_index index first =
      if first then ok index else if index == int64_max then err index_overflow else ok (index + 1)

  unfoldable pub plan_all : ℕ → Bool → List Bytes → Locals → Result (List Mutation × List Bytes)
  plan_all index first [] l = ok ([], [])
  plan_all index first (raw ∷ raws) l = and_then (next_index index first) λ here.
      and_then (command_of raw) λ command. and_then (plan here command l) λ p.
        and_then (plan_all here false raws p.locals)
          λ (ms, replies). ok (p.mutation ∷ ms, p.reply ∷ replies)

-- The replies that the store decides.
unfoldable pub fill_replies : List Bytes → List Bool → List Bytes
fill_replies [] existed = []
fill_replies (r ∷ rs) [] = r ∷ rs
fill_replies (r ∷ rs) (e ∷ existed) =
    (if length r == 0 then found_reply e else r) ∷ fill_replies rs existed

unfoldable pub apply_batch :
    (D : Database) → ℕ → List Bytes → Store D → Result (Store D × List Bytes)
apply_batch D first_index commands s =
    and_then (plan_all D s.db first_index true commands no_locals) λ (ms, replies).
      and_then (apply_mutations D ms s) λ (t, existed). ok (t, fill_replies replies existed)
