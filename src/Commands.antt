-- ===== src/Commands.antt =====
-- src/common/command_type.h: which commands a client may send, and what a linearizable GET does.
pub mod Ids
use raft_kv.Base.{
  ℕ, ◌+◌, ◌-◌, ◌*◌, ◌/◌, ◌%◌, ◌^◌, Bool, true, false, not, ◌&&◌, ◌||◌, Option, none, some, List, [],
  ◌∷◌, ◌++◌, Bytes, codes, same_bytes, ltb, leb, ◌==◌, if◌then◌else◌, length, get_elem?, uint64_max,
}

-- `args[i]`; the callers have tested the size.
abbrev pub arg : List Bytes → ℕ → Bytes
arg args i = elim (get_elem? args i) [ none ↦ [] | some a ↦ a ]

-- `CommandClass`, where the error has its message.
pub data CommandClass : Type 0 where
  read write : CommandClass
  error : Bytes → CommandClass

abbrev pub is_digit : ℕ → Bool
is_digit c = leb b'0' c && leb c b'9'

-- The loop of `ParseRequestId`.
unfoldable pub request_id_loop : Bytes → ℕ → Option ℕ
request_id_loop [] value = some value
request_id_loop (c ∷ cs) value =
    let digit = c - b'0' in
    let rest = request_id_loop cs ((value * 10 + digit) % 2 ^ 64) in
    if not (is_digit c) then none else if ltb ((uint64_max - digit) / 10) value then none else rest

unfoldable pub parse_request_id : Bytes → Option ℕ
parse_request_id [] = none
parse_request_id (c ∷ cs) =
    if ltb 20 (length (c ∷ cs)) || c == b'0' then none else request_id_loop (c ∷ cs) 0

-- `std::toupper` in the C locale.
abbrev pub to_upper : ℕ → ℕ
to_upper c = if leb b'a' c && leb c b'z' then c - 32 else c

unfoldable pub upper_command : Bytes → Bytes
upper_command [] = []
upper_command (c ∷ cs) = to_upper c ∷ upper_command cs

pub data Op : Type 0 where
  set del : Op

-- `IdempotentCommand`: either valid, with the fields that are set then, or not, with the message.
pub record Idempotent : Type 0 where
  pub client_id : Bytes
  pub request_id : ℕ
  pub op : Op
  pub key : Bytes
  pub value : Bytes

pub data IdempotentCommand : Type 0 where
  valid : Idempotent → IdempotentCommand
  invalid : Bytes → IdempotentCommand

abbrev pub wrong_arguments : Bytes → Bytes
wrong_arguments op = codes "ERR wrong number of arguments for '" ++ op ++ codes "' command"

abbrev pub unknown_command : Bytes → Bytes
unknown_command op = codes "ERR unknown command '" ++ op ++ codes "'"

-- The tail of `ParseIdempotentCommand`, from the inner operation on.
unfoldable pub parse_inner : List Bytes → ℕ → IdempotentCommand
parse_inner args request_id =
    let inner = upper_command (arg args 3) in
    let is_set = same_bytes inner (codes "SET") in
    let is_del = same_bytes inner (codes "DEL") in
    if is_set && length args == 6
    then valid (record {
      client_id = arg args 1;
      request_id = request_id;
      op = set;
      key = arg args 4;
      value = arg args 5;
    })
    else if is_del && length args == 5
    then valid (record {
      client_id = arg args 1;
      request_id = request_id;
      op = del;
      key = arg args 4;
      value = [];
    })
    else if is_set || is_del
    then invalid (wrong_arguments inner)
    else invalid (unknown_command (arg args 3))

unfoldable pub parse_idempotent_command : List Bytes → IdempotentCommand
parse_idempotent_command args =
    if length args == 0 || not (same_bytes (upper_command (arg args 0)) (codes "IDEMP"))
    then invalid (codes "ERR unknown command")
    else if not (length args == 5) && not (length args == 6)
    then invalid (wrong_arguments (codes "IDEMP"))
    else if length (arg args 1) == 0 || ltb 128 (length (arg args 1))
    then invalid (codes "ERR invalid client id")
    else elim (parse_request_id (arg args 2)) [
      | none ↦ invalid (codes "ERR invalid request id")
      | some request_id ↦ parse_inner args request_id
    ]

unfoldable pub write_key_index : List Bytes → ℕ
write_key_index args =
    if not (length args == 0) && same_bytes (arg args 0) (codes "IDEMP") then 4 else 1

abbrev pub class_of : IdempotentCommand → CommandClass
class_of (valid i) = write
class_of (invalid message) = error message

unfoldable pub classify_command : List Bytes → CommandClass
classify_command [] = error (codes "ERR empty command")
classify_command (op ∷ rest) =
    let size = length (op ∷ rest) in
    let is_set = same_bytes op (codes "SET") in
    let is_del = same_bytes op (codes "DEL") in
    let is_ping = same_bytes op (codes "PING") in
    let is_select = same_bytes op (codes "SELECT") in
    let is_get = same_bytes op (codes "GET") in
    let is_info = same_bytes op (codes "INFO") in
    if is_set && size == 3
    then write
    else if is_del && size == 2
    then write
    else if same_bytes op (codes "IDEMP")
    then class_of (parse_idempotent_command (op ∷ rest))
    else if is_ping || is_select || is_get || is_info
    then (if (is_ping && not (size == 1))
          || (is_select && not (size == 2))
          || (is_get && not (size == 2))
          || (is_info && not (size == 1))
        then error (wrong_arguments op)
        else read)
    else if is_set || is_del
    then error (wrong_arguments op)
    else error (unknown_command op)

unfoldable pub is_read_index_redirect_error : Bytes → Bool
is_read_index_redirect_error reason =
    same_bytes reason (codes "not leader")
    || same_bytes reason (codes "no leader")
    || same_bytes reason (codes "leadership lost")
    || same_bytes reason (codes "server stopped")

pub data LinearizableGetAction : Type 0 where
  serve redirect fail : LinearizableGetAction

unfoldable pub decide_linearizable_get : Bool → Bool → Bytes → LinearizableGetAction
decide_linearizable_get success still_leader reason =
    if success && still_leader
    then serve
    else if not success && still_leader && not (is_read_index_redirect_error reason)
    then fail
    else redirect
