-- ===== src/Sessions/Drain.antt =====
-- DrainCommands: from unread bytes to queued commands.
use mathlib.Core.List.{append_assoc, append-nil}
use raft_kv.Base.{
  ℕ, zero, suc, ◌+◌, ◌≡◌, inl, inr, refl, sym, ◌∙◌, ap, subst, true, false, Option, none, some,
  List, [], ◌∷◌, ◌++◌, Bytes, length, arith, length-append, length-drop, Bool-cases, drop,
}
use raft_kv.Resp.{Parsed, need_more, complete, invalid, try_parse_one}
use raft_kv.Resp.Commands.{Parsed-cases, try_parse_one_within, retained}
use raft_kv.Sessions.{
  CommandBuffer, SessionCommandQueue, QueuedCommand, is_full, queued, next, after_parse, consume,
  retained_bytes, Drained, stopped, drain_round, drain_loop, new_outcome, drain_commands,
}
use raft_kv.Sessions.Buffer.{unread, consume_unread}
use raft_kv.Sessions.Buffer as Buffer
use raft_kv.Sessions.Queue.{IsAccounted, longer, longer-IsAccounted, enqueue_admits}

-- A valid buffer and a queue that is accounted for.
pub record IsSound (d : Drained) : Type 0 where
  pub input : Buffer.IsValid d.input
  pub queue : IsAccounted d.queue

-- Commands that the decoder finds at the front of the bytes, one behind the other, as they are queued,
-- and the bytes behind them.
abbrev pub Decodes : Bytes → List QueuedCommand → Bytes → Type 0
Decodes bs [] rest = bs ≡ rest
Decodes bs (x ∷ xs) rest =
    ((args : List Bytes) × (n : ℕ) × (try_parse_one bs ≡ complete args n)
      × (x ≡ queued args n)
      × Decodes (drop n bs) xs rest)

Decodes-append :
    (xs ys : List QueuedCommand) (bs cs rest : Bytes)
    → Decodes bs xs cs
    → Decodes cs ys rest
    → Decodes bs (xs ++ ys) rest
Decodes-append [] ys bs cs rest h k = subst (λ b. Decodes b ys rest) (sym h) k
Decodes-append (x ∷ xs) ys bs cs rest (args, n, parsed, same, h) k =
    (args, n, parsed, same, Decodes-append xs ys (drop n bs) cs rest h k)

-- What a run of rounds adds: the commands at the front of the input, at the end of the queue, counted
-- one by one, and their bytes, counted too.
pub record Drains (d e : Drained) : Type 0 where
  pub added : List QueuedCommand
  pub items : e.queue.items ≡ d.queue.items ++ added
  pub decoded : Decodes (unread d.input) added (unread e.input)
  pub commands : e.out.enqueued ≡ d.out.enqueued + length added
  pub conserved :
      e.out.consumed_bytes + length (unread e.input)
      ≡ d.out.consumed_bytes + length (unread d.input)

-- Why the loop is over, once it has queued up to `limit` commands.
pub data Ended (limit : ℕ) (d : Drained) : Type 0 where
  waits :
      d.out.stop_read ≡ false
      → d.out.invalid_error ≡ none
      → try_parse_one (unread d.input) ≡ need_more
      → Ended limit d
  full :
      d.out.stop_read ≡ true → d.out.invalid_error ≡ none → is_full d.queue ≡ true → Ended limit d
  spent :
      d.out.stop_read ≡ false → d.out.invalid_error ≡ none → d.out.enqueued ≡ limit → Ended limit d
  refused :
      (message : Bytes)
      → d.out.stop_read ≡ true
      → d.out.invalid_error ≡ some message
      → try_parse_one (unread d.input) ≡ invalid message
      → Ended limit d

-- The state after a decoded command was queued.
abbrev pub admitted : List Bytes → ℕ → Drained → Drained
admitted args n d = record {
  input = consume n d.input;
  queue = longer args n d.queue;
  out = record d.out { enqueued = d.out.enqueued + 1; consumed_bytes = d.out.consumed_bytes + n };
}

pub next_of :
    (b : CommandBuffer) (p : Parsed) → try_parse_one (unread b) ≡ p → next b ≡ (after_parse p b, p)
unfolding next
next_of b p e = rw e refl

module _ (d : Drained) where
  pub round_full : is_full d.queue ≡ true → drain_round d ≡ (false, stopped d)
  unfolding drain_round
  round_full e = rw e refl

  module _ (free : is_full d.queue ≡ false) where
    pub round_waits : try_parse_one (unread d.input) ≡ need_more → drain_round d ≡ (false, d)
    unfolding drain_round
    round_waits e = rw (free, next_of d.input _ e, next_of d.input _ e) refl

    pub round_refused :
        (m : Bytes)
        → try_parse_one (unread d.input) ≡ invalid m
        → drain_round d
          ≡ (false, record d { out = record d.out { stop_read = true; invalid_error = some m } })
    unfolding drain_round
    round_refused m e = rw (free, next_of d.input _ e, next_of d.input _ e) refl

    pub round_admits :
        (args : List Bytes) (n : ℕ)
        → try_parse_one (unread d.input) ≡ complete args n
        → drain_round d ≡ (true, admitted args n d)
    unfolding drain_round
    round_admits args n e =
        rw (free, next_of d.input _ e, enqueue_admits args n d.queue free, next_of d.input _ e) refl

pub retained-retained_bytes : (args : List Bytes) → retained args ≡ retained_bytes args
retained-retained_bytes [] = refl
retained-retained_bytes (a ∷ args) = omega (arith, retained-retained_bytes args)

drained_none : (d : Drained) → Drains d d
drained_none d = record {
  added = [];
  items = sym (append-nil d.queue.items);
  decoded = refl;
  commands = omega arith;
  conserved = refl;
}

then-Drains : (d e f : Drained) → Drains d e → Drains e f → Drains d f
then-Drains d e f h k =
    let sum = length-append h.added k.added in
    let first = h.commands in
    let second = k.commands in
    record {
      added = h.added ++ k.added;
      items =
          k.items ∙ ap (λ xs. xs ++ k.added) h.items ∙ append_assoc d.queue.items h.added k.added;
      decoded =
          Decodes-append h.added k.added (unread d.input) (unread e.input) (unread f.input)
            h.decoded k.decoded;
      commands = omega (arith, sum, first, second);
      conserved = k.conserved ∙ h.conserved;
    }

-- A decoded command leaves a sound state, and its bytes and its place are counted.
admitted-IsSound :
    (d : Drained) (args : List Bytes) (n : ℕ)
    → IsSound d
    → is_full d.queue ≡ false
    → try_parse_one (unread d.input) ≡ complete args n
    → IsSound (admitted args n d) × Drains d (admitted args n d)
admitted-IsSound d args n h free e =
    let (some_args, few, small, there, large) = try_parse_one_within (unread d.input) args n e in
    let cost = retained-retained_bytes args in
    let (valid, rest) = consume_unread d.input n h.input there in
    let left = length-drop n (unread d.input) in
    (
      record {
        input = valid;
        queue = longer-IsAccounted args n d.queue (omega (arith, small, cost)) large h.queue free;
      },
      record {
        added = queued args n ∷ [];
        items = refl;
        decoded = (args, n, e, refl, sym rest);
        commands = refl;
        conserved = omega (arith, ap length rest, left, there);
      },
    )

module _ (turns : ℕ) (d e : Drained) where
  pub loop_ends : drain_round d ≡ (false, e) → drain_loop (suc turns) d ≡ e
  unfolding drain_loop
  loop_ends h = rw (h, h, drain_loop) refl

  pub loop_goes_on : drain_round d ≡ (true, e) → drain_loop (suc turns) d ≡ drain_loop turns e
  unfolding drain_loop
  loop_goes_on h = rw (h, h, drain_loop) refl

-- What a run of at most that many rounds leaves.
abbrev pub Leaves : ℕ → Drained → Drained → Type 0
Leaves turns d e = IsSound e × Drains d e × Ended (d.out.enqueued + turns) e

-- A round that changes the outcome only.
abbrev pub noted : Option Bytes → Drained → Drained
noted m d = record d { out = record d.out { stop_read = true; invalid_error = m } }

noted_none : (d : Drained) (m : Option Bytes) → Drains d (noted m d)
noted_none d m = record {
  added = [];
  items = sym (append-nil d.queue.items);
  decoded = refl;
  commands = omega arith;
  conserved = refl;
}

-- After any number of rounds the buffer and the queue are sound, what was queued is counted, and the
-- loop ended for one of its reasons or had all its turns.
pub drain_loop-Leaves :
    (turns : ℕ) (d : Drained)
    → IsSound d
    → d.out.stop_read ≡ false
    → d.out.invalid_error ≡ none
    → Leaves turns d (drain_loop turns d)
drain_loop-Leaves zero d h reads clean =
    unfold drain_loop in (h, drained_none d, spent reads clean (omega arith))
drain_loop-Leaves (suc turns) d h reads clean = elim (Bool-cases (is_full d.queue)) [
  | inl e ↦
      let last = stopped d in
      let kept : IsSound last = record { input = h.input; queue = h.queue } in
      subst (Leaves (suc turns) d) (sym (loop_ends turns d last (round_full d e)))
        (kept, noted_none d d.out.invalid_error, full refl clean e)
  | inr e ↦ elim (Parsed-cases (try_parse_one (unread d.input))) [
    | inl k ↦
        subst (Leaves (suc turns) d) (sym (loop_ends turns d d (round_waits d e k)))
          (h, drained_none d, waits reads clean k)
    | inr (inl (args, n, k)) ↦
        let (sound, one) = admitted-IsSound d args n h e k in
        let (sound', more, ends) = drain_loop-Leaves turns (admitted args n d) sound reads clean in
        subst (Leaves (suc turns) d)
          (sym (loop_goes_on turns d (admitted args n d) (round_admits d e args n k)))
          (
            sound',
            then-Drains d (admitted args n d) (drain_loop turns (admitted args n d)) one more,
            subst (λ limit. Ended limit (drain_loop turns (admitted args n d))) (omega arith) ends,
          )
    | inr (inr (m, k)) ↦
        let last = noted (some m) d in
        let kept : IsSound last = record { input = h.input; queue = h.queue } in
        subst (Leaves (suc turns) d) (sym (loop_ends turns d last (round_refused d e m k)))
          (kept, noted_none d (some m), refused m refl refl k)
  ]
]

abbrev pub start_of : CommandBuffer → SessionCommandQueue → Drained
start_of input queue = record { input = input; queue = queue; out = new_outcome }

module _ (input : CommandBuffer) (queue : SessionCommandQueue) (max_per_turn : ℕ) where
  -- A turn on a valid buffer and a queue within its limits leaves them so. The commands that it queues are
  -- those that the decoder finds at the front of the input, one behind the other; each is counted and
  -- stands behind the others, each byte is either counted as consumed or still unread; and the turn ends
  -- because the bytes are no whole command, the queue is full, the turn is spent, or the bytes are
  -- refused.
  pub drain_commands-Leaves :
      Buffer.IsValid input
      → IsAccounted queue
      → Leaves max_per_turn (start_of input queue) (drain_commands input queue max_per_turn true)
  unfolding drain_commands
  drain_commands-Leaves h k =
      drain_loop-Leaves max_per_turn (start_of input queue) (record { input = h; queue = k }) refl
        refl
