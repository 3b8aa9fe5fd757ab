-- ===== src/Sessions.antt =====
-- src/common/command_buffer.h and src/common/session_queue.h: the unread bytes of a client
-- connection, and its commands that wait to be executed.
pub mod Buffer
pub mod Queue
pub mod Drain
pub mod Refusal
pub mod Pipeline
mod Examples
use raft_kv.Base.{
  ℕ, zero, suc, ◌+◌, ◌-◌, ◌*◌, Bool, true, false, not, ◌&&◌, ◌||◌, Option, none, some, List, [],
  ◌∷◌, ◌++◌, Bytes, codes, ltb, leb, ◌==◌, if◌then◌else◌, length, drop, minus_size,
}
use raft_kv.Commands.{CommandClass, read, write, error, upper_command, classify_command}
use raft_kv.Resp.{Parsed, need_more, complete, invalid, try_parse_one}

abbrev pub max_buffered_bytes : ℕ
max_buffered_bytes = 4 * 1024 * 1024

-- `CommandBuffer`. The capacity of the string is left out: it decides which of two ways empties it.
pub record CommandBuffer : Type 0 where
  pub bytes : Bytes
  pub offset : ℕ

abbrev pub empty_buffer : CommandBuffer
empty_buffer = record { bytes = []; offset = 0 }

unfoldable pub unread_bytes : CommandBuffer → ℕ
unread_bytes b = minus_size (length b.bytes) b.offset

-- `Append`; `none` is a refusal, which leaves the buffer as it was.
unfoldable pub append : Bytes → CommandBuffer → Option CommandBuffer
append chunk b =
    let kept = if b.offset == 0 then b.bytes else drop b.offset b.bytes in
    if length chunk == 0
    then some b
    else if ltb (minus_size max_buffered_bytes (unread_bytes b)) (length chunk)
    then none
    else some (record { bytes = kept ++ chunk; offset = 0 })

-- `Next`, once a command of `consumed` bytes was decoded.
unfoldable pub consume : ℕ → CommandBuffer → CommandBuffer
consume consumed b =
    let moved = record b { offset = b.offset + consumed } in
    if moved.offset == length b.bytes
    then empty_buffer
    else if leb (64 * 1024) moved.offset && leb (unread_bytes moved) (64 * 1024)
    then record { bytes = drop moved.offset b.bytes; offset = 0 }
    else moved

abbrev pub after_parse : Parsed → CommandBuffer → CommandBuffer
after_parse (complete args consumed) b = consume consumed b
after_parse _ b = b

unfoldable pub next : CommandBuffer → CommandBuffer × Parsed
next b = let result = try_parse_one (drop b.offset b.bytes) in (after_parse result b, result)

abbrev pub max_commands : ℕ
max_commands = 1000

abbrev pub max_bytes : ℕ
max_bytes = 4 * 1024 * 1024

abbrev pub max_commands_per_turn : ℕ
max_commands_per_turn = 128

abbrev pub retained_bytes : List Bytes → ℕ
retained_bytes [] = 0
retained_bytes (a ∷ args) = length a + retained_bytes args

unfoldable pub accounted_bytes : ℕ → List Bytes → ℕ
accounted_bytes consumed args =
    let retained = retained_bytes args in if ltb retained consumed then consumed else retained

-- `QueuedCommand`; its class holds the message of an error, and the time it was queued is left out.
pub record QueuedCommand : Type 0 where
  pub class : CommandClass
  pub args : List Bytes
  pub bytes : ℕ

pub record SessionCommandQueue : Type 0 where
  pub items : List QueuedCommand
  pub queued_bytes : ℕ

abbrev pub empty_queue : SessionCommandQueue
empty_queue = record { items = []; queued_bytes = 0 }

unfoldable pub is_full : SessionCommandQueue → Bool
is_full q = leb max_commands (length q.items) || leb max_bytes q.queued_bytes

abbrev pub upper_verb : List Bytes → List Bytes
upper_verb [] = []
upper_verb (verb ∷ args) = upper_command verb ∷ args

abbrev pub queued : List Bytes → ℕ → QueuedCommand
queued args consumed = record {
  class = classify_command (upper_verb args);
  args = upper_verb args;
  bytes = accounted_bytes consumed (upper_verb args);
}

-- `Enqueue`; `none` is a refusal.
unfoldable pub enqueue : List Bytes → ℕ → SessionCommandQueue → Option SessionCommandQueue
enqueue args consumed q =
    let cmd = queued args consumed in
    if is_full q
    then none
    else some (record { items = q.items ++ cmd ∷ []; queued_bytes = q.queued_bytes + cmd.bytes })

-- `PopFront`, on a queue that is not empty.
unfoldable pub pop_front : SessionCommandQueue → Option (QueuedCommand × SessionCommandQueue)
pop_front q = elim q.items [
  | [] ↦ none
  | cmd ∷ items ↦
      some (cmd, record { items = items; queued_bytes = minus_size q.queued_bytes cmd.bytes })
]

unfoldable pub should_reply_invalid_frame : Bool → Bool → Bool → Bool
should_reply_invalid_frame executing waiting queue_empty =
    not executing && not waiting && queue_empty

unfoldable pub can_deliver_client_reply : Bool → Bool → Bool
can_deliver_client_reply connected closing = connected && not closing

pub record DrainOutcome : Type 0 where
  pub stop_read : Bool
  pub invalid_error : Option Bytes
  pub enqueued : ℕ
  pub consumed_bytes : ℕ

abbrev pub new_outcome : DrainOutcome
new_outcome = record { stop_read = false; invalid_error = none; enqueued = 0; consumed_bytes = 0 }

-- What `DrainCommands` works on.
pub record Drained : Type 0 where
  pub input : CommandBuffer
  pub queue : SessionCommandQueue
  pub out : DrainOutcome

abbrev pub stopped : Drained → Drained
stopped d = record d { out = record d.out { stop_read = true } }

-- A round of the loop, and whether another follows it.
unfoldable pub drain_round : Drained → Bool × Drained
drain_round d =
    let (input, parsed) = next d.input in
    let popped = record d { input = input } in
    let admitted : Bool × Drained = elim parsed [
      | need_more ↦ (false, popped)
      | invalid message ↦ (
        false,
        record popped { out = record d.out { stop_read = true; invalid_error = some message } },
      )
      | complete args consumed ↦ elim (enqueue args consumed d.queue) [
        | none ↦ (false, stopped popped)
        | some queue ↦ (
          true,
          record popped {
            queue = queue;
            out = record d.out {
              enqueued = d.out.enqueued + 1;
              consumed_bytes = d.out.consumed_bytes + consumed;
            };
          },
        )
      ]
    ] in
    if is_full d.queue then (false, stopped d) else admitted

unfoldable pub drain_loop : ℕ → Drained → Drained
drain_loop zero d = d
drain_loop (suc turns) d =
    let (go_on, after) = drain_round d in
    elim go_on [ true ↦ drain_loop turns after | false ↦ after ]

unfoldable pub drain_commands : CommandBuffer → SessionCommandQueue → ℕ → Bool → Drained
drain_commands input queue max_per_turn keep_reading =
    let start : Drained = record { input = input; queue = queue; out = new_outcome } in
    if keep_reading then drain_loop max_per_turn start else start
