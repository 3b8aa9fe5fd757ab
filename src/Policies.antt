-- ===== src/Policies.antt =====
-- src/common/batch_flush_policy.h and src/common/peer_retry_policy.h: when the server flushes its
-- queue of writes, and when it connects to a peer again. A plan carries a token, and a timer that
-- fires must consume its token.
pub mod Tokens
pub mod Examples
use raft_kv.Base.{
  ℕ, zero, suc, ◌+◌, ◌-◌, ◌*◌, ◌%◌, ◌^◌, min, Bool, true, false, not, ◌&&◌, ◌||◌, Option, none,
  some, ltb, leb, ◌==◌, if◌then◌else◌, uint64_max,
}

-- `Action`.
pub data Action : Type 0 where
  idle delayed immediate : Action

-- `Plan` of BatchFlushPolicy.
pub record FlushPlan : Type 0 where
  pub action : Action
  pub token : ℕ

pub record BatchFlush : Type 0 where
  pub pending : Action
  pub generation : ℕ

-- `kMaxEntries` and `kMaxBytes`.
abbrev pub flush_entries : ℕ
flush_entries = 128

abbrev pub flush_bytes : ℕ
flush_bytes = 1024 * 1024

abbrev pub no_plan : FlushPlan
no_plan = record { action = idle; token = 0 }

abbrev pub is_immediate : Action → Bool
is_immediate immediate = true
is_immediate _ = false

abbrev pub is_delayed : Action → Bool
is_delayed delayed = true
is_delayed _ = false

-- A plan with the next token; `none` is an exception.
unfoldable pub plan_flush : Action → BatchFlush → Option (BatchFlush × FlushPlan)
plan_flush a p =
    if p.generation == uint64_max
    then none
    else some (
      record { pending = a; generation = p.generation + 1 },
      record { action = a; token = p.generation + 1 },
    )

unfoldable pub request_flush : ℕ → ℕ → Bool → BatchFlush → Option (BatchFlush × FlushPlan)
request_flush entries bytes elapsed p =
    let now = leb flush_entries entries || leb flush_bytes bytes || elapsed in
    if entries == 0 || is_immediate p.pending
    then some (p, no_plan)
    else if is_delayed p.pending && not now
    then some (p, no_plan)
    else plan_flush (if now then immediate else delayed) p

unfoldable pub consume_flush : ℕ → BatchFlush → BatchFlush × Bool
consume_flush token p = elim p.pending [
  | idle ↦ (p, false)
  | _ ↦ if not (token == p.generation) then (p, false) else (record p { pending = idle }, true)
]

-- `Plan` of PeerRetryPolicy, and the policy; times are milliseconds.
pub record RetryPlan : Type 0 where
  pub token : ℕ
  pub delay_ms : ℕ

pub record PeerRetry : Type 0 where
  pub connected_at : ℕ
  pub generation : ℕ
  pub next_delay_ms : ℕ
  pub connected : Bool
  pub pending : Bool

-- `++generation_`, in 64 bits.
abbrev pub next_generation : PeerRetry → ℕ
next_generation p = (p.generation + 1) % 2 ^ 64

unfoldable pub note_connected : ℕ → PeerRetry → PeerRetry
note_connected now p = record p {
  connected = true;
  connected_at = now;
  pending = false;
  generation = next_generation p;
}

-- A connection that lasted ten seconds starts the delays afresh.
abbrev pub delay_after : ℕ → PeerRetry → ℕ
delay_after now p = if leb 10000 (now - p.connected_at) then 500 else p.next_delay_ms

unfoldable pub note_disconnected : ℕ → PeerRetry → PeerRetry × RetryPlan
note_disconnected now p = if not p.connected then (p, record { token = 0; delay_ms = 0 }) else (
  record p {
    connected = false;
    next_delay_ms = min 2000 (delay_after now p * 2);
    pending = true;
    generation = next_generation p;
  },
  record { token = next_generation p; delay_ms = delay_after now p },
)

unfoldable pub consume_retry : ℕ → PeerRetry → PeerRetry × Bool
consume_retry token p =
    if not p.pending || not (token == p.generation)
    then (p, false)
    else (record p { pending = false }, true)
