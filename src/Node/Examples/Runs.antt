-- ===== src/Node/Examples/Runs.antt =====
-- Histories, and the handlers that carry entries.
use raft_kv.Base.{arith}
use raft_kv.Outcome.{state}
use raft_kv.Node.Events.{run}
use raft_kv.Node.Ballot.Keeps.{ballot}
use raft_kv.Node.Ballot.Steps.{BallotStep}
use raft_kv.Node.Ballot.Histories.{run-Moves}
use raft_kv.Node.Progress.Relation.{progress, Advances}
use raft_kv.Node.Progress.Histories.{run-Grows}
use raft_kv.Node.Examples.{node3, history}

run-Moves_example : BallotStep (ballot node3) (ballot (state (run history node3)))
run-Moves_example = run-Moves history node3

run-Grows_example : Advances (progress node3) (progress (state (run history node3)))
unfolding progress
run-Grows_example =
    run-Grows history node3 (λ lt le. absurd (omega arith), λ m e. (tt, λ m e. (tt, λ m e. tt)))
