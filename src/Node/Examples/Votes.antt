-- ===== src/Node/Examples/Votes.antt =====
-- Requests for a vote.
use raft_kv.Base.{ℕ, ◌≡◌, refl, true, false, some, List, [], ◌∷◌, Bytes}
use raft_kv.Outcome.{state}
use raft_kv.Node.State.{Node}
use raft_kv.Node.Send.{emit}
use raft_kv.Node.Votes.{
  handle_request_vote, accepts_vote_request, is_remote_peer, answer_vote_request, is_sticky,
  cast_vote, grants_vote, is_log_up_to_date, reply_vote,
}
use raft_kv.Log.{save_hard_state}
use raft_kv.Node.Roles.{become_follower, persist_term, step_down, reset_election_timer}
use raft_kv.Node.Propose.{fail_pending}
use raft_kv.Node.Ticks.{tick, campaign_if, lead_if}
use raft_kv.Node.Reads.{clear_read_index_queues}
use raft_kv.Node.Events.{ticked, step, run}
use raft_kv.Node.Voting.Grants.{handle_request_vote-grant}
use raft_kv.Node.Voting.Promises.{Unmoved, handle_request_vote-Unmoved, one_vote}
use raft_kv.Node.Examples.{world, node3, vote_call}

handle_request_vote-Unmoved_example :
    Unmoved node3 (handle_request_vote world 2 (vote_call 4 true) node3)
handle_request_vote-Unmoved_example =
    handle_request_vote-Unmoved world 2 (vote_call 4 true) node3 refl

-- The node after it has voted for 2 in term 5.
abbrev voted : Node (List Bytes)
voted = state (handle_request_vote world 2 (vote_call 5 false) node3)

handle_request_vote-grant_example :
    (voted.voted_for ≡ some 2)
    × (voted.log.hard ≡ record { term = voted.current_term; voted_for = some 2 })
    × (voted.current_term ≡ 5)
    × (is_log_up_to_date node3.log 3 3 ≡ true)
    × (is_sticky world 2 node3 ≡ false)
unfolding handle_request_vote accepts_vote_request is_remote_peer answer_vote_request is_sticky
    become_follower persist_term save_hard_state step_down clear_read_index_queues fail_pending
    reset_election_timer cast_vote grants_vote is_log_up_to_date reply_vote emit
handle_request_vote-grant_example =
    handle_request_vote-grant world 2 (vote_call 5 false) node3 voted refl refl refl

-- The node votes for 2 again after a tick.
abbrev later : Node (List Bytes)
later = state (run ((world, ticked) ∷ []) voted)

abbrev voted_again : Node (List Bytes)
voted_again = state (handle_request_vote world 2 (vote_call 5 false) (record later { outbox = [] }))

one_vote_example : ◌≡◌ {A = ℕ} 2 2
unfolding handle_request_vote accepts_vote_request is_remote_peer answer_vote_request is_sticky
    become_follower persist_term save_hard_state step_down clear_read_index_queues fail_pending
    reset_election_timer cast_vote grants_vote is_log_up_to_date reply_vote emit run step tick
    campaign_if lead_if
one_vote_example =
    one_vote world world 2 2 (vote_call 5 false) (vote_call 5 false) node3 voted later voted_again
      ((world, ticked) ∷ []) (refl, refl) refl (refl, refl) refl
