-- ===== src/Transport/Streams.antt =====
-- ParseAndDispatch on a buffer of whole frames.
use raft_kv.Base.{
  ℕ, zero, suc, ◌+◌, ◌-◌, ◌≤◌, ◌≡◌, refl, sym, ap, true, false, not, ◌&&◌, some, List, [], ◌∷◌,
  ◌++◌, Bytes, arith, subst, ltb, ◌==◌, ==_refl, All, elem, length, length-append, drop, int32_max,
  update,
}
use raft_kv.Codec.{Frame, max_frame_size, write_before, complete, try_decode, encode}
use raft_kv.Codec.Frames.{frame_bytes, try_decode-encode}
use raft_kv.Transport.{
  Manager, register_peer_connection, Parsed, deliver, parse_loop, parse_and_dispatch,
}

-- A message of the peer that fits a frame.
abbrev pub Sendable : ℕ → Frame → Type 0
Sendable peer f = (f.sender_id ≡ peer) × (length f.payload ≤ max_frame_size - 5)

abbrev pub bytes_of_frame : Frame → Bytes
bytes_of_frame f = frame_bytes f.msg_type f.sender_id f.payload

abbrev pub stream : List Frame → Bytes
stream [] = []
stream (f ∷ fs) = bytes_of_frame f ++ stream fs

drop-append : (xs ys : Bytes) → drop (length xs) (xs ++ ys) ≡ ys
drop-append [] ys = refl
drop-append (x ∷ xs) ys = drop-append xs ys

decode_first :
    (f : Frame) (rest : Bytes)
    → f.sender_id ≤ int32_max
    → length f.payload ≤ max_frame_size - 5
    → try_decode (bytes_of_frame f ++ rest) ≡ complete f (length (bytes_of_frame f))
unfolding encode
decode_first f rest small fits =
    try_decode-encode f.msg_type f.sender_id f.payload rest (bytes_of_frame f) small (ground arith)

frame_length : (f : Frame) → length (bytes_of_frame f) ≡ 9 + length f.payload
unfolding write_before
frame_length f = omega arith

-- A connection is bound to a configured peer.
record Bound (peer conn : ℕ) (m : Manager) : Type 0 where
  bound : m.connection_peers conn ≡ some peer
  known : (elem peer m.all_peers && not (peer == m.self_id)) ≡ true

register-Bound :
    (peer conn : ℕ) (m : Manager)
    → Bound peer conn m
    → (m' : Manager) × (register_peer_connection peer conn m ≡ some m') × Bound peer conn m'
unfolding register_peer_connection
register-Bound peer conn m b =
    let me = ==_refl peer in
    let it = ==_refl conn in
    let m' : Manager = record m {
      connection_peers = update m.connection_peers conn (some peer);
      connections = update m.connections peer (some conn);
    } in
    (m', rw (b.known, b.bound, me) refl, record { bound = rw it refl; known = b.known })

-- All of the stream is delivered.
record Whole (fs : List Frame) (p : Parsed) : Type 0 where
  delivered : p.delivered ≡ fs
  unread : p.unread ≡ []
  closed : p.closed ≡ false

parse_loop-Whole :
    (fuel peer conn : ℕ) (fs : List Frame) (m : Manager)
    → length fs ≤ fuel
    → peer ≤ int32_max
    → Bound peer conn m
    → All (Sendable peer) fs
    → Whole fs (parse_loop fuel conn (stream fs) m)
unfolding parse_loop
parse_loop-Whole zero peer conn [] m enough small b all = record {
  delivered = refl;
  unread = refl;
  closed = refl;
}
parse_loop-Whole zero peer conn (f ∷ fs) m enough small b all = absurd (omega arith)
parse_loop-Whole (suc fuel) peer conn [] m enough small b all = record {
  delivered = refl;
  unread = refl;
  closed = refl;
}
parse_loop-Whole (suc fuel) peer conn (f ∷ fs) m enough small b ((from, fits), all) =
    let first = decode_first f (stream fs) (rw from small) fits in
    let more : ltb (length (bytes_of_frame f ++ stream fs)) 4 ≡ false =
      ground (arith, frame_length f, length-append (bytes_of_frame f) (stream fs)) in
    let (m', good, b') = register-Bound peer conn m b in
    let same : register_peer_connection f.sender_id conn m ≡ some m' = rw from good in
    let rest = parse_loop-Whole fuel peer conn fs m' (omega arith) small b' all in
    let left = drop-append (bytes_of_frame f) (stream fs) in
    let turn : parse_loop (suc fuel) conn (stream (f ∷ fs)) m
        ≡ deliver f (parse_loop fuel conn (stream fs) m') =
      rw (more, first, same, left, parse_loop) refl in
    subst (Whole (f ∷ fs)) (sym turn) (record {
      delivered = ap (λ gs. f ∷ gs) rest.delivered;
      unread = rest.unread;
      closed = rest.closed;
    })

length-stream : (fs : List Frame) → length fs ≤ length (stream fs)
length-stream [] = omega arith
length-stream (f ∷ fs) =
    omega (arith, length-stream fs, frame_length f, length-append (bytes_of_frame f) (stream fs))

-- A buffer that holds the frames of a peer, back to back, on a connection that is bound to it: each
-- message is delivered once and in order, no byte is left, and the connection stays open.
pub parse_and_dispatch-stream :
    (peer conn : ℕ) (fs : List Frame) (m : Manager)
    → peer ≤ int32_max
    → m.connection_peers conn ≡ some peer
    → (elem peer m.all_peers && not (peer == m.self_id)) ≡ true
    → All (Sendable peer) fs
    → ((parse_and_dispatch conn (stream fs) m).delivered ≡ fs)
      × ((parse_and_dispatch conn (stream fs) m).unread ≡ [])
      × ((parse_and_dispatch conn (stream fs) m).closed ≡ false)
unfolding parse_and_dispatch
parse_and_dispatch-stream peer conn fs m small bound known all =
    let whole =
      parse_loop-Whole (length (stream fs)) peer conn fs m (length-stream fs) small
        (record { bound = bound; known = known }) all in
    (whole.delivered, whole.unread, whole.closed)
