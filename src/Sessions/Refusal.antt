-- ===== src/Sessions/Refusal.antt =====
-- DrainCommands on bytes that the decoder refuses.
use raft_kv.Base.{ℕ, suc, ◌≡◌, ◌∙◌, ap, subst, true, false, some, List, ◌++◌, Bytes}
use raft_kv.Resp.{invalid, try_parse_one}
use raft_kv.Resp.Commands.{try_parse_one-append}
use raft_kv.Sessions.{
  CommandBuffer, SessionCommandQueue, QueuedCommand, append, is_full, Drained, drain_commands,
}
use raft_kv.Sessions.Buffer.{unread, append_whole}
use raft_kv.Sessions.Buffer as Buffer
use raft_kv.Sessions.Queue.{IsAccounted}
use raft_kv.Sessions.Drain.{
  Decodes, Ended, waits, full, spent, refused, Leaves, start_of, loop_ends, round_refused,
  drain_commands-Leaves,
}

refused_reason :
    (limit : ℕ) (e : Drained) (message : Bytes)
    → Ended limit e
    → e.out.invalid_error ≡ some message
    → try_parse_one (unread e.input) ≡ invalid message
refused_reason limit e message (waits s n w) b = cc (n, b)
refused_reason limit e message (full s n w) b = cc (n, b)
refused_reason limit e message (spent s n w) b = cc (n, b)
refused_reason limit e message (refused m s n w) b =
    let same : m ≡ message = cc (n, b) in cc (w, same)

-- The end of a turn that meets refused bytes.
abbrev pub turned_away : Bytes → CommandBuffer → SessionCommandQueue → Drained
turned_away message input queue = record {
  input = input;
  queue = queue;
  out = record { stop_read = true; invalid_error = some message; enqueued = 0; consumed_bytes = 0 };
}

refused_turn :
    (b : CommandBuffer) (q : SessionCommandQueue) (turns : ℕ) (message : Bytes)
    → is_full q ≡ false
    → try_parse_one (unread b) ≡ invalid message
    → drain_commands b q (suc turns) true ≡ turned_away message b q
unfolding drain_commands
refused_turn b q turns message free e =
    loop_ends turns (start_of b q) (turned_away message b q)
      (round_refused (start_of b q) free message e)

-- When a turn reports an error, it has queued the commands in front of the refused bytes and nothing
-- else, and the error is final: whatever bytes arrive behind, within the buffer's limit, and whatever
-- the queue holds by then, as long as it is not full, a later turn of one round or more stops reading,
-- reports the same error, queues nothing and takes no byte. The buffer was valid, and the queue within
-- its limits.
pub drain_commands_refused :
    (input : CommandBuffer) (queue : SessionCommandQueue) (max_per_turn : ℕ) (e : Drained)
    (message : Bytes) (chunk : Bytes) (b : CommandBuffer) (later : SessionCommandQueue) (turns : ℕ)
    → Buffer.IsValid input
    → IsAccounted queue
    → drain_commands input queue max_per_turn true ≡ e
    → e.out.invalid_error ≡ some message
    → append chunk e.input ≡ some b
    → is_full later ≡ false
    → ((added : List QueuedCommand) × (e.queue.items ≡ queue.items ++ added)
        × Decodes (unread input) added (unread e.input))
      × (drain_commands b later (suc turns) true ≡ turned_away message b later)
drain_commands_refused input queue max_per_turn e message chunk b later turns h k same bad more
      free =
    let (sound, drains, ended) =
      subst (Leaves max_per_turn (start_of input queue)) same
        (drain_commands-Leaves input queue max_per_turn h k) in
    let again = refused_reason _ e message ended bad in
    let grown = append_whole chunk e.input b sound.input more in
    let still : try_parse_one (unread e.input ++ chunk) ≡ invalid message =
      try_parse_one-append (unread e.input) chunk (λ m. cc (m, again)) ∙ again in
    (
      (drains.added, drains.items, drains.decoded),
      refused_turn b later turns message free (ap try_parse_one grown ∙ still),
    )
