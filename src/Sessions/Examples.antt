-- ===== src/Sessions/Examples.antt =====
-- The client side at concrete commands: ids, the decoder, the buffer and the queue.
use raft_kv.Base.{
  ◌≤◌, ◌<◌, ◌≡◌, ◌↔◌, refl, sym, true, false, some, List, [], ◌∷◌, ◌++◌, Bytes, codes, length,
  arith, uint64_max,
}
use raft_kv.Decimal.{to_string, digits, value}
use raft_kv.Commands.{parse_request_id, classify_command, upper_command}
use raft_kv.Commands.Ids.{parse_request_id_iff}
use raft_kv.Resp.{
  need_more, complete, invalid, try_parse_one, number, find_crlf, line_number, all_digits,
  parse_bulks, read_bulk, read_body, serialize_command, bulk, bulks, max_arguments,
  max_command_bytes,
}
use raft_kv.Resp.Commands.{
  try_parse_one-append, try_parse_one_within, try_parse_one-serialize_command,
  try_parse_one_partial, retained,
}
use raft_kv.Sessions.{
  Drained, empty_buffer, empty_queue, drain_commands, next, drain_loop, drain_round, is_full,
  CommandBuffer, QueuedCommand, append, enqueue, accounted_bytes, consume, unread_bytes,
}
use raft_kv.Sessions.Buffer.{
  unread, answer_all, answer_all_bytes, Call, append_call, next_call, answer_all_refines, IsValid,
}
use raft_kv.Sessions.Queue.{empty_queue-IsAccounted}
use raft_kv.Sessions.Drain.{Decodes, Leaves, start_of, drain_commands-Leaves}
use raft_kv.Sessions.Refusal.{turned_away, drain_commands_refused}
use raft_kv.Sessions.Pipeline.{queue_all, IsSendable, wire, drain_commands-wire}

parse_request_id_iff_example :
    (parse_request_id (codes "42") ≡ some 42)
    ↔ ((1 ≤ 42) × (42 ≤ uint64_max) × (codes "42" ≡ to_string 42))
parse_request_id_iff_example = parse_request_id_iff (codes "42") 42

-- GET k
abbrev get_k : List Bytes
get_k = codes "GET" ∷ codes "k" ∷ []

abbrev get_frame : Bytes
get_frame = codes "*2\r\n$3\r\nGET\r\n$1\r\nk\r\n"

serialized : serialize_command get_k ≡ get_frame
unfolding serialize_command bulks bulk to_string digits
serialized = refl

decoded : try_parse_one get_frame ≡ complete get_k 20
unfolding try_parse_one number find_crlf line_number all_digits value parse_bulks read_bulk
    read_body
decoded = refl

-- Not a frame of a command.
abbrev junk : Bytes
junk = codes "hello"

junk_refused : try_parse_one junk ≡ invalid (codes "invalid array length")
unfolding try_parse_one number
junk_refused = refl

within_limit : length (serialize_command get_k) ≤ max_command_bytes
within_limit = rw serialized (omega arith)

try_parse_one-serialize_command_example :
    try_parse_one (serialize_command get_k ++ junk)
    ≡ complete get_k (length (serialize_command get_k))
try_parse_one-serialize_command_example =
    try_parse_one-serialize_command get_k junk (omega arith) (omega arith) within_limit

try_parse_one-append_example : try_parse_one (get_frame ++ junk) ≡ try_parse_one get_frame
try_parse_one-append_example = try_parse_one-append get_frame junk λ e. cc (decoded, e)

try_parse_one_within_example :
    (1 ≤ length get_k)
    × (length get_k ≤ max_arguments)
    × (retained get_k < 20)
    × (20 ≤ length get_frame)
    × (20 ≤ max_command_bytes)
try_parse_one_within_example = try_parse_one_within get_frame get_k 20 decoded

try_parse_one_partial_example : try_parse_one (codes "*2\r\n$3\r\nGE") ≡ need_more
try_parse_one_partial_example =
    try_parse_one_partial get_k (codes "*2\r\n$3\r\nGE") (codes "T\r\n$1\r\nk\r\n") (omega arith)
      (omega arith) within_limit (sym serialized) (omega arith)

-- A command in two pieces, with a call between them.
abbrev pieces : List Call
pieces =
    append_call (codes "*2\r\n$3\r\nGE")
    ∷ next_call
    ∷ append_call (codes "T\r\n$1\r\nk\r\n")
    ∷ next_call
    ∷ []

answer_all_refines_example :
    IsValid (answer_all pieces empty_buffer).0
    × (unread (answer_all pieces empty_buffer).0 ≡ (answer_all_bytes pieces []).0)
    × ((answer_all pieces empty_buffer).1 ≡ (answer_all_bytes pieces []).1)
answer_all_refines_example = answer_all_refines pieces

abbrev holding : Bytes → CommandBuffer
holding bytes = record { bytes = bytes; offset = 0 }

drain_commands-Leaves_example :
    Leaves 128
      (start_of (holding get_frame) empty_queue)
      (drain_commands (holding get_frame) empty_queue 128 true)
drain_commands-Leaves_example =
    drain_commands-Leaves (holding get_frame) empty_queue 128
      (record { within = omega arith; bounded = omega arith }) empty_queue-IsAccounted

drain_commands-wire_example :
    ((drain_commands (holding (wire (get_k ∷ get_k ∷ []))) empty_queue 128 true).queue.items
      ≡ queue_all (get_k ∷ get_k ∷ []))
    × (unread (drain_commands (holding (wire (get_k ∷ get_k ∷ []))) empty_queue 128 true).input
        ≡ [])
drain_commands-wire_example =
    let size : length (wire (get_k ∷ get_k ∷ [])) ≡ 40 = rw serialized refl in
    let ok : IsSendable get_k = (omega arith, omega arith, within_limit) in
    drain_commands-wire (get_k ∷ get_k ∷ []) (holding (wire (get_k ∷ get_k ∷ []))) empty_queue 128
      (record { within = omega arith; bounded = omega (arith, size) }) (ok, (ok, tt)) refl
      (omega arith) (omega (arith, size)) (omega arith)

-- A command, and bytes that no command begins with.
abbrev mixed : Bytes
mixed = get_frame ++ junk

abbrev after_junk : Drained
after_junk = drain_commands (holding mixed) empty_queue 128 true

error_reported : after_junk.out.invalid_error ≡ some (codes "invalid array length")
unfolding drain_commands drain_loop drain_round is_full next try_parse_one number find_crlf
    line_number all_digits value parse_bulks read_bulk read_body enqueue accounted_bytes
    classify_command upper_command consume unread_bytes append
error_reported = refl

more_arrives : append get_frame after_junk.input ≡ some (holding (junk ++ get_frame))
unfolding drain_commands drain_loop drain_round is_full next try_parse_one number find_crlf
    line_number all_digits value parse_bulks read_bulk read_body enqueue accounted_bytes
    classify_command upper_command consume unread_bytes append
more_arrives = refl

empty_queue_free : is_full empty_queue ≡ false
unfolding is_full
empty_queue_free = refl

drain_commands_refused_example :
    ((added : List QueuedCommand) × (after_junk.queue.items ≡ [] ++ added)
      × Decodes mixed added (unread after_junk.input))
    × (drain_commands (holding (junk ++ get_frame)) empty_queue 2 true
        ≡ turned_away (codes "invalid array length") (holding (junk ++ get_frame)) empty_queue)
drain_commands_refused_example =
    drain_commands_refused (holding mixed) empty_queue 128 after_junk (codes "invalid array length")
      get_frame (holding (junk ++ get_frame)) empty_queue 1
      (record { within = omega arith; bounded = omega arith }) empty_queue-IsAccounted refl
      error_reported more_arrives empty_queue_free
