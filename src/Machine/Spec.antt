-- ===== src/Machine/Spec.antt =====
-- The state machine as its clients see it: keys and one session for each client, changed by one command
-- after the other.
use raft_kv.Base.{
  ◌≤◌, ◌<◌, ◌^◌, ◌≡◌, Bool, true, not, Option, none, some, List, [], ◌∷◌, Bytes, same_bytes, ltb,
  ◌==◌, if◌then◌else◌, length, All,
}
use raft_kv.Outcome.{Result, ok, err}
use raft_kv.Commands.{Op, set, del, Idempotent}
use raft_kv.Store.{Contents, change, put, delete, is_some}
use raft_kv.Machine.{
  SessionRecord, no_session, client_session_key, encode_session, Command, noop_command, set_command,
  delete_command, idempotent_command, command_of, ok_reply, stale_reply, found_reply,
}

pub record Spec : Type 0 where
  pub keys : Contents
  pub sessions : Bytes → SessionRecord

abbrev pub set_session : Bytes → SessionRecord → (Bytes → SessionRecord) → Bytes → SessionRecord
set_session client r f c = if same_bytes client c then r else f c

abbrev pub operate : Op → Idempotent → Contents → Contents
operate set i m = change (put i.key i.value) m
operate del i m = change (delete i.key) m

abbrev pub op_reply : Op → Idempotent → Contents → Bytes
op_reply set i m = ok_reply
op_reply del i m = found_reply (is_some (m i.key))

-- A request that is new to its client is executed and its reply is kept; the last request gets the
-- reply that is kept; an older one is refused.
abbrev pub request : Idempotent → Spec → Spec × Bytes
request i s =
    let last = s.sessions i.client_id in
    let reply = op_reply i.op i s.keys in
    if ltb i.request_id last.request_id
    then (s, stale_reply)
    else if i.request_id == last.request_id
    then (s, last.reply)
    else (
      record {
        keys = operate i.op i s.keys;
        sessions =
            set_session i.client_id (record { request_id = i.request_id; reply = reply })
              s.sessions;
      },
      reply,
    )

unfoldable pub execute : Command → Spec → Spec × Bytes
execute noop_command s = (s, ok_reply)
execute (set_command key value) s = (record s { keys = change (put key value) s.keys }, ok_reply)
execute (delete_command key) s =
    (record s { keys = change (delete key) s.keys }, found_reply (is_some (s.keys key)))
execute (idempotent_command i) s = request i s

-- The state that bytes of a committed command lead to, and the reply.
abbrev pub execute_result : Result Command → Spec → Spec × Bytes
execute_result (ok command) s = execute command s
execute_result (err e) s = (s, [])

unfoldable pub execute_all : List Bytes → Spec → Spec × List Bytes
execute_all [] s = (s, [])
execute_all (raw ∷ raws) s =
    let (t, reply) = execute_result (command_of raw) s in
    let (u, replies) = execute_all raws t in (u, reply ∷ replies)

-- A key that is none of the state machine's own, which begin with a zero byte.
unfoldable pub is_client_key : Bytes → Bool
is_client_key [] = true
is_client_key (b ∷ bytes) = not (b == 0)

abbrev pub of_client : Command → Bool
of_client noop_command = true
of_client (set_command key value) = is_client_key key
of_client (delete_command key) = is_client_key key
of_client (idempotent_command i) = is_client_key i.key

-- A committed command whose key is a client's.
abbrev pub IsOfClient : Result Command → Type 0
IsOfClient (ok command) = of_client command ≡ true
IsOfClient (err e) = Unit

abbrev pub AllOfClient : List Bytes → Type 0
AllOfClient = All λ raw. IsOfClient (command_of raw)

-- A session as it is stored: not at all, or with a request id from 1 on and a reply.
pub data IsStored : Option Bytes → SessionRecord → Type 0 where
  no_record : IsStored none no_session
  record_of :
      (r : SessionRecord)
      → 1 ≤ r.request_id
      → r.request_id < 2 ^ 64
      → 1 ≤ length r.reply
      → IsStored (some (encode_session r)) r

-- The contents of the store that stand for a state of the specification.
pub record Stands (c : Contents) (s : Spec) : Type 0 where
  pub keys : (k : Bytes) → is_client_key k ≡ true → c k ≡ s.keys k
  pub sessions : (client : Bytes) → IsStored (c (client_session_key client)) (s.sessions client)
