-- ===== src/Sessions/Pipeline.antt =====
-- DrainCommands on commands that a client sends back to back.
use mathlib.Core.List.{append_assoc, append-nil}
use raft_kv.Base.{
  ℕ, zero, suc, ◌+◌, ◌-◌, ◌≤◌, ◌<◌, ◌≡◌, refl, sym, ◌∙◌, ap, subst, true, false, List, [], ◌∷◌,
  ◌++◌, Bytes, length, drop, All, arith, length-append, drop-length, map, inl, inr, Bool-cases,
}
use raft_kv.Resp.{
  number, need_more, complete, try_parse_one, max_command_bytes, max_arguments, serialize_command,
}
use raft_kv.Resp.Commands.{try_parse_one-serialize_command, try_parse_one_within}
use raft_kv.Sessions.{
  CommandBuffer, stopped, SessionCommandQueue, QueuedCommand, is_full, queued, Drained, drain_loop,
  drain_commands, max_commands, max_bytes, consume,
}
use raft_kv.Sessions.Buffer.{unread, consume_unread}
use raft_kv.Sessions.Buffer as Buffer
use raft_kv.Sessions.Queue.{queued_bytes_lem}
use raft_kv.Sessions.Drain.{
  admitted, round_admits, round_full, round_waits, loop_ends, loop_goes_on, start_of,
  retained-retained_bytes,
}

-- A command that the decoder takes.
abbrev pub IsSendable : List Bytes → Type 0
IsSendable args =
    (1 ≤ length args)
    × (length args ≤ max_arguments)
    × (length (serialize_command args) ≤ max_command_bytes)

-- Commands back to back.
abbrev pub wire : List (List Bytes) → Bytes
wire [] = []
wire (args ∷ cmds) = serialize_command args ++ wire cmds

-- The commands as they are queued.
abbrev pub queue_all : List (List Bytes) → List QueuedCommand
queue_all = map λ args. queued args (length (serialize_command args))

is_free :
    (q : SessionCommandQueue)
    → length q.items < max_commands
    → q.queued_bytes < max_bytes
    → is_full q ≡ false
unfolding is_full
is_free q few light = ground arith

-- The loop queues them all, in order, with the rest of its turns left.
pub drain_loop-wire :
    (cmds : List (List Bytes)) (turns : ℕ) (d : Drained)
    → Buffer.IsValid d.input
    → All IsSendable cmds
    → unread d.input ≡ wire cmds
    → length d.queue.items + length cmds ≤ max_commands
    → d.queue.queued_bytes + length (wire cmds) ≤ max_bytes
    → length cmds ≤ turns
    → (e : Drained) × (drain_loop turns d ≡ drain_loop (turns - length cmds) e)
      × (e.queue.items ≡ d.queue.items ++ queue_all cmds)
      × (unread e.input ≡ [])
      × Buffer.IsValid e.input
drain_loop-wire [] turns d h ok same room light enough =
    let e : turns - 0 ≡ turns = omega arith in
    (d, rw e refl, sym (append-nil d.queue.items), same, h)
drain_loop-wire (args ∷ cmds) zero d h ok same room light enough = absurd (omega arith)
drain_loop-wire (args ∷ cmds) (suc turns) d h ok same room light enough =
    let ((low, high, fits), oks) = ok in
    let n = length (serialize_command args) in
    let parsed : try_parse_one (unread d.input) ≡ complete args n =
      rw same (try_parse_one-serialize_command args (wire cmds) low high fits) in
    let (some_args, few, small, there, large) =
      try_parse_one_within (unread d.input) args n parsed in
    let sum = length-append (serialize_command args) (wire cmds) in
    let free = is_free d.queue (omega arith) (omega (arith, sum)) in
    let step = loop_goes_on turns d (admitted args n d) (round_admits d free args n parsed) in
    let (valid, rest) = consume_unread d.input n h there in
    let behind = drop-length (serialize_command args) (wire cmds) n refl in
    let left : unread (consume n d.input) ≡ wire cmds = rest ∙ (ap (drop n) same ∙ behind) in
    let cost = queued_bytes_lem args n (omega (arith, small, retained-retained_bytes args)) in
    let more = length-append d.queue.items (queued args n ∷ []) in
    let (e, run, items, empty, valid') =
      drain_loop-wire cmds turns (admitted args n d) valid oks left (omega (arith, more))
        (omega (arith, cost, sum)) (omega arith) in
    let turns_left : suc turns - length (args ∷ cmds) ≡ turns - length cmds = omega arith in
    (
      e,
      rw turns_left (step ∙ run),
      items ∙ append_assoc d.queue.items (queued args n ∷ []) (queue_all cmds),
      empty,
      valid',
    )

-- What two states have in common, but for the outcome.
abbrev SameContents : Drained → Drained → Type 0
SameContents d e = (d.queue ≡ e.queue) × (d.input ≡ e.input)

nothing_there : try_parse_one [] ≡ need_more
unfolding try_parse_one number
nothing_there = refl

-- Without a byte the loop does nothing.
drain_loop_idle :
    (turns : ℕ) (d : Drained) → unread d.input ≡ [] → SameContents (drain_loop turns d) d
drain_loop_idle zero d e = unfold drain_loop in (refl, refl)
drain_loop_idle (suc turns) d e = elim (Bool-cases (is_full d.queue)) [
  | inl f ↦
      subst (λ x. SameContents x d) (sym (loop_ends turns d (stopped d) (round_full d f)))
        (refl, refl)
  | inr f ↦
      let waits = round_waits d f (ap try_parse_one e ∙ nothing_there) in
      subst (λ x. SameContents x d) (sym (loop_ends turns d d waits)) (refl, refl)
]

-- Commands of 1 to 1024 arguments and at most 1 MiB each, as they are printed, that arrive back to back
-- in a valid buffer are queued once each and in order, and no byte is left, where the turn is long
-- enough and the queue has room for their number and their bytes.
pub drain_commands-wire :
    (cmds : List (List Bytes)) (input : CommandBuffer) (queue : SessionCommandQueue) (turns : ℕ)
    → Buffer.IsValid input
    → All IsSendable cmds
    → unread input ≡ wire cmds
    → length queue.items + length cmds ≤ max_commands
    → queue.queued_bytes + length (wire cmds) ≤ max_bytes
    → length cmds ≤ turns
    → ((drain_commands input queue turns true).queue.items ≡ queue.items ++ queue_all cmds)
      × (unread (drain_commands input queue turns true).input ≡ [])
unfolding drain_commands
drain_commands-wire cmds input queue turns h ok same room light enough =
    let (e, run, items, empty, valid) =
      drain_loop-wire cmds turns (start_of input queue) h ok same room light enough in
    let (queue_kept, input_kept) = drain_loop_idle (turns - length cmds) e empty in
    rw run
      (ap (λ (q : SessionCommandQueue). q.items) queue_kept ∙ items, ap unread input_kept ∙ empty)
