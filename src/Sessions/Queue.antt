-- ===== src/Sessions/Queue.antt =====
-- SessionQueueLimits and SessionCommandQueue: what is counted of the queued commands.
use raft_kv.Base.{
  ℕ, ◌+◌, ◌≤◌, ◌<◌, ◌≡◌, refl, ap, false, some, List, [], ◌∷◌, ◌++◌, Bytes, length, minus_size,
  arith, length-append,
}
use raft_kv.Commands.{upper_command}
use raft_kv.Resp.{max_command_bytes}
use raft_kv.Sessions.{
  QueuedCommand, SessionCommandQueue, empty_queue, is_full, enqueue, pop_front, queued, upper_verb,
  accounted_bytes, retained_bytes, max_commands, max_bytes,
}

abbrev pub total : List QueuedCommand → ℕ
total [] = 0
total (cmd ∷ items) = cmd.bytes + total items

-- The byte count is the sum over the queue, and the queue is within its limits: a command is admitted
-- while less than 4 MiB are queued, so one command of at most 1 MiB may go beyond.
pub record IsAccounted (q : SessionCommandQueue) : Type 0 where
  pub counted : q.queued_bytes ≡ total q.items
  pub few : length q.items ≤ max_commands
  pub bounded : q.queued_bytes < max_bytes + max_command_bytes

pub empty_queue-IsAccounted : IsAccounted empty_queue
empty_queue-IsAccounted = record { counted = refl; few = omega arith; bounded = omega arith }

length-upper_command : (text : Bytes) → length (upper_command text) ≡ length text
unfolding upper_command
length-upper_command [] = refl
length-upper_command (c ∷ cs) = omega (arith, length-upper_command cs)

retained-upper_verb : (args : List Bytes) → retained_bytes (upper_verb args) ≡ retained_bytes args
retained-upper_verb [] = refl
retained-upper_verb (verb ∷ args) = omega (arith, length-upper_command verb)

-- A frame contains its arguments, so a decoded command is charged with the bytes of its frame.
pub queued_bytes_lem :
    (args : List Bytes) (consumed : ℕ)
    → retained_bytes args < consumed
    → (queued args consumed).bytes ≡ consumed
unfolding accounted_bytes
queued_bytes_lem args consumed h = ground (arith, h, retained-upper_verb args)

total-append : (xs ys : List QueuedCommand) → total (xs ++ ys) ≡ total xs + total ys
total-append [] ys = omega arith
total-append (x ∷ xs) ys = omega (arith, total-append xs ys)

-- The queue with one command more.
abbrev pub longer : List Bytes → ℕ → SessionCommandQueue → SessionCommandQueue
longer args consumed q = record {
  items = q.items ++ queued args consumed ∷ [];
  queued_bytes = q.queued_bytes + (queued args consumed).bytes;
}

pub is_full_not :
    (q : SessionCommandQueue)
    → is_full q ≡ false
    → (length q.items < max_commands) × (q.queued_bytes < max_bytes)
unfolding is_full
is_full_not q h = ground arith

-- A queue that is not full admits any command.
pub enqueue_admits :
    (args : List Bytes) (consumed : ℕ) (q : SessionCommandQueue)
    → is_full q ≡ false
    → enqueue args consumed q ≡ some (longer args consumed q)
unfolding enqueue
enqueue_admits args consumed q h = rw h refl

pub longer-IsAccounted :
    (args : List Bytes) (consumed : ℕ) (q : SessionCommandQueue)
    → retained_bytes args < consumed
    → consumed ≤ max_command_bytes
    → IsAccounted q
    → is_full q ≡ false
    → IsAccounted (longer args consumed q)
longer-IsAccounted args consumed q small large h free =
    let counted = h.counted in
    let sum = total-append q.items (queued args consumed ∷ []) in
    let more = length-append q.items (queued args consumed ∷ []) in
    let cost = queued_bytes_lem args consumed small in
    let (low, light) = is_full_not q free in
    record {
      counted = omega (arith, counted, sum);
      few = omega (arith, more, low);
      bounded = omega (arith, cost, light);
    }

-- The queue without its first command.
abbrev pub shorter : QueuedCommand → List QueuedCommand → SessionCommandQueue → SessionCommandQueue
shorter cmd items q = record { items = items; queued_bytes = minus_size q.queued_bytes cmd.bytes }

-- Taking the first command out keeps the count, and the subtraction does not wrap.
pub pop_front_first :
    (q : SessionCommandQueue) (cmd : QueuedCommand) (items : List QueuedCommand)
    → IsAccounted q
    → q.items ≡ cmd ∷ items
    → (pop_front q ≡ some (cmd, shorter cmd items q)) × IsAccounted (shorter cmd items q)
unfolding pop_front
pop_front_first q cmd items h e =
    let counted = h.counted in
    let few = h.few in
    let bounded = h.bounded in
    let sum = ap total e in
    let size = ap length e in
    (
      rw e refl,
      record {
        counted = omega (arith, counted, bounded, sum);
        few = omega (arith, few, size);
        bounded = omega (arith, bounded, counted, sum);
      },
    )
