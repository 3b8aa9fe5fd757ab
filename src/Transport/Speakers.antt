-- ===== src/Transport/Speakers.antt =====
-- The peer that a connection speaks for.
use raft_kv.Base.{
  ℕ, zero, suc, ◌≡◌, refl, sym, ap, ◌∙◌, Bool, true, false, not, ◌&&◌, some, Bytes, arith, inl, inr,
  Bool-cases, Option-cases, ltb, ◌==◌, All, subst, elem, length, drop, ◌⊎◌, ==_refl,
}
use raft_kv.Codec.{Frame, Decoded, incomplete, malformed, complete, try_decode}
use raft_kv.Transport.{
  Manager, register_peer_connection, Parsed, stopped, deliver, parse_loop, parse_and_dispatch,
}

-- A registered connection was free or bound to the peer, and it is bound to it from then on.
register-bound :
    (peer conn : ℕ) (m m' : Manager)
    → register_peer_connection peer conn m ≡ some m'
    → (m'.connection_peers conn ≡ some peer)
      × ((p : ℕ) → m.connection_peers conn ≡ some p → p ≡ peer)
      × ((elem peer m.all_peers && not (peer == m.self_id)) ≡ true)
      × (m'.all_peers ≡ m.all_peers)
      × (m'.self_id ≡ m.self_id)
unfolding register_peer_connection
register-bound peer conn m m' h =
    let self = ==_refl conn in
    (grind (arith, self), (λ p e. grind (arith, e)), ground arith, ground arith, ground arith)

-- The connection is bound to the sender of the message, which is a peer other than the node.
abbrev pub Speaks : Manager → ℕ → Frame → Type 0
Speaks m conn f =
    (m.connection_peers conn ≡ some f.sender_id)
    × ((elem f.sender_id m.all_peers && not (f.sender_id == m.self_id)) ≡ true)

Decoded-cases :
    (d : Decoded)
    → ((d ≡ incomplete) ⊎ (d ≡ malformed)) ⊎ ((f : Frame) × (n : ℕ) × (d ≡ complete f n))
Decoded-cases incomplete = inl (inl refl)
Decoded-cases malformed = inl (inr refl)
Decoded-cases (complete f n) = inr (f, n, refl)

-- A turn of the loop: it stops, or it delivers a message and goes on.
parse_loop-cases :
    (fuel conn : ℕ) (bytes : Bytes) (m : Manager)
    → ((c : Bool) × (parse_loop (suc fuel) conn bytes m ≡ stopped m bytes c))
      ⊎ ((f : Frame) × (n : ℕ) × (m' : Manager) × (register_peer_connection f.sender_id conn m
            ≡ some m')
          × (parse_loop (suc fuel) conn bytes m
              ≡ deliver f (parse_loop fuel conn (drop n bytes) m')))
unfolding parse_loop
parse_loop-cases fuel conn bytes m = elim (Bool-cases (ltb (length bytes) 4)) [
  | inl few ↦ inl (false, rw (few, parse_loop) refl)
  | inr more ↦ elim (Decoded-cases (try_decode bytes)) [
    | inl (inl e) ↦ inl (false, rw (more, e, parse_loop) refl)
    | inl (inr e) ↦ inl (true, rw (more, e, parse_loop) refl)
    | inr (f, n, e) ↦ elim (Option-cases (register_peer_connection f.sender_id conn m)) [
      | inl bad ↦ inl (true, rw (more, e, bad, parse_loop) refl)
      | inr (m', good) ↦ inr (f, n, m', good, rw (more, e, good, parse_loop) refl)
    ]
  ]
]

-- What a run of the loop guarantees of the manager that it leaves.
record Faithful (conn : ℕ) (m : Manager) (p : Parsed) : Type 0 where
  speaks : All (Speaks p.manager conn) p.delivered
  kept : (q : ℕ) → m.connection_peers conn ≡ some q → p.manager.connection_peers conn ≡ some q
  peers : p.manager.all_peers ≡ m.all_peers
  self : p.manager.self_id ≡ m.self_id

stopped-Faithful :
    (conn : ℕ) (m : Manager) (bytes : Bytes) (c : Bool) → Faithful conn m (stopped m bytes c)
stopped-Faithful conn m bytes c = record { speaks = tt; kept = λ q e. e; peers = refl; self = refl }

deliver-Faithful :
    (conn : ℕ) (m m' : Manager) (f : Frame) (p : Parsed)
    → register_peer_connection f.sender_id conn m ≡ some m'
    → Faithful conn m' p
    → Faithful conn m (deliver f p)
deliver-Faithful conn m m' f p h rest =
    let (bound, before, known, peers, self) = register-bound f.sender_id conn m m' h in
    let now = rest.kept f.sender_id bound in
    let all = rest.peers ∙ peers in
    let me = rest.self ∙ self in
    record {
      speaks = ((now, rw (all, me) known), rest.speaks);
      kept = λ q e. let same : q ≡ f.sender_id = before q e in now ∙ ap some (sym same);
      peers = all;
      self = me;
    }

parse_loop-Faithful :
    (fuel conn : ℕ) (bytes : Bytes) (m : Manager) → Faithful conn m (parse_loop fuel conn bytes m)
unfolding parse_loop
parse_loop-Faithful zero conn bytes m = stopped-Faithful conn m bytes false
parse_loop-Faithful (suc fuel) conn bytes m = elim (parse_loop-cases fuel conn bytes m) [
  | inl (c, e) ↦ subst (Faithful conn m) (sym e) (stopped-Faithful conn m bytes c)
  | inr (f, n, m', good, e) ↦ subst (Faithful conn m) (sym e) (
      deliver-Faithful conn m m' f (parse_loop fuel conn (drop n bytes) m') good
        (parse_loop-Faithful fuel conn (drop n bytes) m'))
]

-- A connection speaks for one peer: every message that is delivered from a buffer has as its sender
-- a configured peer other than the node, which is the peer that the connection is bound to in the
-- end; and a connection that was bound stays bound to the same peer.
pub parse_and_dispatch-Speaks :
    (conn : ℕ) (bytes : Bytes) (m : Manager)
    → All
        (Speaks (parse_and_dispatch conn bytes m).manager conn)
        (parse_and_dispatch conn bytes m).delivered
      × ((q : ℕ)
          → m.connection_peers conn ≡ some q
          → (parse_and_dispatch conn bytes m).manager.connection_peers conn ≡ some q)
unfolding parse_and_dispatch
parse_and_dispatch-Speaks conn bytes m =
    let f = parse_loop-Faithful (length bytes) conn bytes m in (f.speaks, f.kept)
