-- ===== src/Transport/Examples.antt =====
-- A connection with two frames.
use raft_kv.Base.{ℕ, ◌≡◌, refl, false, none, some, List, [], ◌∷◌, ◌++◌, All, arith}
use raft_kv.Codec.{MsgType, Frame, encode, try_decode, complete, write_before}
use raft_kv.Codec.Frames.{frame_bytes, try_decode-encode}
use raft_kv.Transport.{Manager, parse_and_dispatch}
use raft_kv.Transport.Speakers.{Speaks, parse_and_dispatch-Speaks}
use raft_kv.Transport.Streams.{stream, parse_and_dispatch-stream}

abbrev two_peers : Manager
two_peers = record {
  self_id = 1;
  all_peers = 1 ∷ 2 ∷ [];
  connection_peers = λ c. some 2;
  connections = λ p. none;
}

abbrev frames : List Frame
frames =
    record { msg_type = MsgType.append_entries; sender_id = 2; payload = 5 ∷ 6 ∷ [] }
    ∷ record { msg_type = MsgType.request_vote; sender_id = 2; payload = [] }
    ∷ []

try_decode-encode_example :
    try_decode (frame_bytes MsgType.append_entries 2 (5 ∷ []) ++ 7 ∷ [])
    ≡ complete (record { msg_type = MsgType.append_entries; sender_id = 2; payload = 5 ∷ [] }) 10
unfolding encode write_before
try_decode-encode_example =
    try_decode-encode MsgType.append_entries 2 (5 ∷ []) (7 ∷ [])
      (frame_bytes MsgType.append_entries 2 (5 ∷ [])) (omega arith) refl

parse_and_dispatch-Speaks_example :
    All
      (Speaks (parse_and_dispatch 9 (stream frames) two_peers).manager 9)
      (parse_and_dispatch 9 (stream frames) two_peers).delivered
    × ((q : ℕ)
        → two_peers.connection_peers 9 ≡ some q
        → (parse_and_dispatch 9 (stream frames) two_peers).manager.connection_peers 9 ≡ some q)
parse_and_dispatch-Speaks_example = parse_and_dispatch-Speaks 9 (stream frames) two_peers

parse_and_dispatch-stream_example :
    ((parse_and_dispatch 9 (stream frames) two_peers).delivered ≡ frames)
    × ((parse_and_dispatch 9 (stream frames) two_peers).unread ≡ [])
    × ((parse_and_dispatch 9 (stream frames) two_peers).closed ≡ false)
parse_and_dispatch-stream_example =
    parse_and_dispatch-stream 2 9 frames two_peers (omega arith) refl refl
      ((refl, omega arith), ((refl, omega arith), tt))
