-- ===== src/Transport.antt =====
-- src/raft/peer_manager.cc: which peer a connection speaks for, and the frames that arrive on it.
-- Sockets, timers and sending are muduo's.
pub mod Speakers
pub mod Streams
pub mod Examples
use raft_kv.Base.{
  ℕ, zero, suc, Bool, true, false, not, ◌&&◌, ◌||◌, Option, none, some, List, [], ◌∷◌, Bytes, ltb,
  ◌==◌, if◌then◌else◌, elem, length, drop, update,
}
use raft_kv.Codec.{Frame, Decoded, incomplete, malformed, complete, try_decode}

-- The part of a PeerManager that registration reads and writes; connections are known by number.
pub record Manager : Type 0 where
  pub self_id : ℕ
  pub all_peers : List ℕ
  pub connection_peers : ℕ → Option ℕ
  pub connections : ℕ → Option ℕ

-- A connection bound to this peer, or an incoming one that is not bound yet: only smaller ids open
-- those.
abbrev pub may_speak : Option ℕ → ℕ → ℕ → Bool
may_speak (some bound) peer self = bound == peer
may_speak none peer self = not (ltb self peer)

-- `none` is false.
unfoldable pub register_peer_connection : ℕ → ℕ → Manager → Option Manager
register_peer_connection peer conn m =
    if not (elem peer m.all_peers && not (peer == m.self_id))
    then none
    else if not (may_speak (m.connection_peers conn) peer m.self_id)
    then none
    else some (record m {
      connection_peers = update m.connection_peers conn (some peer);
      connections = update m.connections peer (some conn);
    })

-- What a call leaves: the manager, what stays in the buffer, the messages given to the handler,
-- and whether the connection was closed by force.
pub record Parsed : Type 0 where
  pub manager : Manager
  pub unread : Bytes
  pub delivered : List Frame
  pub closed : Bool

abbrev pub stopped : Manager → Bytes → Bool → Parsed
stopped m bytes closed = record { manager = m; unread = bytes; delivered = []; closed = closed }

abbrev pub deliver : Frame → Parsed → Parsed
deliver f p = record p { delivered = f ∷ p.delivered }

-- Each turn consumes bytes, so the turns are at most the bytes.
unfoldable pub parse_loop : ℕ → ℕ → Bytes → Manager → Parsed
parse_loop zero conn bytes m = stopped m bytes false
parse_loop (suc fuel) conn bytes m =
    if ltb (length bytes) 4 then stopped m bytes false else elim (try_decode bytes) [
      | incomplete ↦ stopped m bytes false
      | malformed ↦ stopped m bytes true
      | complete f consumed ↦ elim (register_peer_connection f.sender_id conn m) [
        | none ↦ stopped m bytes true
        | some m' ↦ deliver f (parse_loop fuel conn (drop consumed bytes) m')
      ]
    ]

unfoldable pub parse_and_dispatch : ℕ → Bytes → Manager → Parsed
parse_and_dispatch conn bytes m = parse_loop (length bytes) conn bytes m
