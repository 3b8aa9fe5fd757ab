-- ===== src/Node/Progress/Responses.antt =====
-- The responses of peers to a leader.
use raft_kv.Base.{ℕ, ◌≡◌, refl, ◌∙◌, Bool, true, false, arith, pos_part, ltb}
use raft_kv.Outcome.{◌>>=◌, state}
use raft_kv.Message.{AppendEntriesResponse, InstallSnapshotResponse}
use raft_kv.Node.State.{Node, Env, Inflight}
use raft_kv.Node.Send.{send_append_entries}
use raft_kv.Node.Reads.{finish_read_index_rounds, check_read_index_timeout, ack_read_index_probe}
use raft_kv.Node.Apply.{advance_commit_index}
use raft_kv.Node.Roles.{note_peer_contact}
use raft_kv.Node.Append.{
  handle_append_entries_response, take_progress, back_up, take_response, note_response,
  record_match, rewind, broadcast_if, send_rest,
}
use raft_kv.Node.Snapshots.{
  handle_install_snapshot_response, take_chunk_response, send_next_chunk, snapshot_installed,
  seek_chunk, record_installed,
}
use raft_kv.Node.Core.{
  core-send_append_entries, core-finish_rounds, core-timeout, core-ack_probe,
  core-send_snapshot_chunk,
}
use raft_kv.Node.Progress.Relation.{
  progress, Advances-refl, Advances-trans, Advances-of_eq, progress-core, Grows, Grows-bind,
}
use raft_kv.Node.Progress.Committing.{advance_commit_index-Grows, progress-broadcast}
use raft_kv.Node.Progress.Elections.{become_follower-Grows}

module _ {S : Type 0} (env : Env S) where
  pub progress-send :
      (p : ℕ) (n : Node S) → progress (state (send_append_entries env p n)) ≡ progress n
  progress-send p n = progress-core _ n (core-send_append_entries env p n)

  progress-finish_rounds :
      (n : Node S) → progress (state (finish_read_index_rounds env n)) ≡ progress n
  progress-finish_rounds n = progress-core _ n (core-finish_rounds env n)

  progress-record_match :
      (from : ℕ) (f : Inflight) (n : Node S) → progress (record_match env from f n) ≡ progress n
  unfolding record_match progress
  progress-record_match from f n = refl

  progress-broadcast_if :
      (b : Bool) (n : Node S) → progress (state (broadcast_if env b n)) ≡ progress n
  unfolding broadcast_if
  progress-broadcast_if true n = progress-broadcast env n
  progress-broadcast_if false n = refl

  progress-send_rest :
      (from : ℕ) (n : Node S) → progress (state (send_rest env from n)) ≡ progress n
  unfolding send_rest
  progress-send_rest from n = ground (arith, progress-send from n)

  take_progress-Grows :
      (from : ℕ) (f : Inflight) (n : Node S) → Grows n (state (take_progress env from f n))
  unfolding take_progress
  take_progress-Grows from f n =
      let m = record_match env from f n in
      Grows-bind n
        (advance_commit_index env m
          >>= finish_read_index_rounds env
          >>= (λ k. broadcast_if env (ltb n.commit_index k.commit_index) k))
        (send_rest env from)
        (Grows-bind n (advance_commit_index env m >>= finish_read_index_rounds env)
          (λ k. broadcast_if env (ltb n.commit_index k.commit_index) k)
          (Grows-bind n (advance_commit_index env m) (finish_read_index_rounds env)
            (Advances-trans (Advances-of_eq (progress-record_match from f n))
              (advance_commit_index-Grows env m))
            (λ k. Advances-of_eq (progress-finish_rounds k)))
          (λ k. Advances-of_eq (progress-broadcast_if (ltb n.commit_index k.commit_index) k)))
        (λ k. Advances-of_eq (progress-send_rest from k))

  progress-rewind : (from hint : ℕ) (n : Node S) → progress (rewind env from hint n) ≡ progress n
  unfolding rewind progress
  progress-rewind from hint n = refl

  back_up-Grows : (from hint : ℕ) (n : Node S) → Grows n (state (back_up env from hint n))
  unfolding back_up
  back_up-Grows from hint n =
      let m = rewind env from hint n in
      Grows-bind n (finish_read_index_rounds env m) (send_append_entries env from)
        (Advances-of_eq (progress-finish_rounds m ∙ progress-rewind from hint n))
        (λ k. Advances-of_eq (progress-send from k))

  take_response-Grows :
      (from : ℕ) (r : AppendEntriesResponse) (n : Node S)
      → Grows n (state (take_response env from r n))
  unfolding take_response
  take_response-Grows from r n = ground (
    arith,
    Advances-of_eq (progress-finish_rounds n),
    take_progress-Grows from (n.inflight from) n,
    back_up-Grows from (pos_part r.last_log_index) n,
  )

  progress-contact : (p : ℕ) (n : Node S) → progress (note_peer_contact env p n) ≡ progress n
  unfolding note_peer_contact progress
  progress-contact p n = refl

  progress-note_response :
      (from : ℕ) (r : AppendEntriesResponse) (n : Node S)
      → progress (note_response env from r n) ≡ progress n
  unfolding note_response
  progress-note_response from r n =
      let c = note_peer_contact env from n in
      let m = check_read_index_timeout env c in
      let same : progress m ≡ progress n =
        progress-core m c (core-timeout env c) ∙ progress-contact from n in
      grind (
        arith,
        same,
        λ (rpc : ℕ).
            progress-core (ack_read_index_probe env from rpc m) m (core-ack_probe env from rpc m)
            ∙ same,
      )

  pub handle_append_entries_response-Grows :
      (from : ℕ) (r : AppendEntriesResponse) (n : Node S)
      → Grows n (state (handle_append_entries_response env from r n))
  unfolding handle_append_entries_response
  handle_append_entries_response-Grows from r n = grind (
    arith,
    Advances-refl (progress n),
    become_follower-Grows env (pos_part r.term) n,
    Advances-trans (Advances-of_eq (progress-note_response from r n))
        (take_response-Grows from r (note_response env from r n)),
  )

  progress-seek :
      (from offset : ℕ) (n : Node S) → progress (seek_chunk env from offset n) ≡ progress n
  unfolding seek_chunk progress
  progress-seek from offset n = refl

  progress-send_next_chunk :
      (from offset : ℕ) (n : Node S)
      → progress (state (send_next_chunk env from offset n)) ≡ progress n
  unfolding send_next_chunk
  progress-send_next_chunk from offset n =
      let m = seek_chunk env from offset n in
      progress-core _ m (core-send_snapshot_chunk env from m) ∙ progress-seek from offset n

  progress-installed : (from : ℕ) (n : Node S) → progress (record_installed env from n) ≡ progress n
  unfolding record_installed progress
  progress-installed from n = refl

  progress-snapshot_installed :
      (from : ℕ) (n : Node S) → progress (state (snapshot_installed env from n)) ≡ progress n
  unfolding snapshot_installed
  progress-snapshot_installed from n =
      progress-send_rest from (record_installed env from n) ∙ progress-installed from n

  progress-take_chunk_response :
      (from : ℕ) (r : InstallSnapshotResponse) (n : Node S)
      → progress (state (take_chunk_response env from r n)) ≡ progress n
  unfolding take_chunk_response
  progress-take_chunk_response from r n =
      grind
        (arith, progress-snapshot_installed from n, λ (o : ℕ). progress-send_next_chunk from o n)

  pub handle_install_snapshot_response-Grows :
      (from : ℕ) (r : InstallSnapshotResponse) (n : Node S)
      → Grows n (state (handle_install_snapshot_response env from r n))
  unfolding handle_install_snapshot_response
  handle_install_snapshot_response-Grows from r n =
      let m = note_peer_contact env from n in
      grind (
        arith,
        Advances-refl (progress n),
        become_follower-Grows env (pos_part r.term) n,
        Advances-of_eq (progress-take_chunk_response from r m ∙ progress-contact from n),
      )
