-- ===== src/Tests/Nodes.antt =====
-- Timers, the builder and the loops on a concrete node.
use zeroraft.Base.{ℕ, ◌≤◌, ◌≡◌, refl, [], none, some, arith, ok, panic, after, Option}
use zeroraft.Memory.{MemoryState, memory}
use zeroraft.Node.{World, follower}
use zeroraft.Rpc.{ClientRequest, request_vote}
use zeroraft.Timeout.{Timeout, range, get_remaining}
use zeroraft.Role.Rpc.{on_rpc}
use zeroraft.Role.Rpc.Term.{on_rpc-term_le}
use zeroraft.Role.Follower
use zeroraft.Role.Follower.{Following, in_client_request, follower_round, Event}
use zeroraft.Role.Follower.Late.{follower_round-late}
use zeroraft.Role.Candidate.Loop
use zeroraft.Role.Candidate.Loop.{Campaign, candidate_round}
use zeroraft.Role.Leader.Loop as LeaderLoop
use zeroraft.Role.Leader.Loop.{Leadership, leader_round}
use zeroraft.Node.{candidate, leader}
use zeroraft.Base.{after, true, false}
use zeroraft.Run.{Running, following, NodeEvent, to_follower, run_step, world_of}
use zeroraft.Run.Roles.{MayBecome}
use zeroraft.Run.Transitions.{IsConsistent, run_step-MayBecome}
use zeroraft.Tests.{world, here, ask_for, lowest}

abbrev W : Type 0
W = World (MemoryState ℕ) ℕ ℕ

abbrev timer : Timeout
timer = record { duration = range 150 300; started = 0; current_interval = 10 }

on_rpc-term_le_example :
    1
    ≤ (after (on_rpc memory (request_vote (ask_for 3 2) here) (world 1 1 follower []))).current_term
on_rpc-term_le_example =
    on_rpc-term_le memory (request_vote (ask_for 3 2) here) (world 1 1 follower [])

abbrev fresh : Following (MemoryState ℕ) ℕ ℕ
fresh = record { world = world 1 1 follower []; election_timeout = timer }

abbrev request : ClientRequest ℕ
request = record { request = 9; response_tx = here }

fresh-get_remaining : get_remaining 5 timer ≡ some 5
unfolding get_remaining
fresh-get_remaining = refl

follower_round-late_example :
    (f' : Following (MemoryState ℕ) ℕ ℕ) × (follower_round memory lowest 30
        (in_client_request request)
        fresh
      ≡ ok tt f')
    × (follower_round memory lowest 40 Follower.shutdown_signal f' ≡ panic f')
follower_round-late_example =
    follower_round-late memory lowest fresh request 30 40 Follower.shutdown_signal refl 5
      fresh-get_remaining (omega arith)

abbrev or_else : Option (Running (MemoryState ℕ) ℕ ℕ) → Running (MemoryState ℕ) ℕ ℕ
or_else none = following fresh
or_else (some r) = r

-- The follower's election timer ends.
abbrev elapsed : NodeEvent ℕ
elapsed = to_follower Follower.election_elapsed

abbrev standing : Running (MemoryState ℕ) ℕ ℕ
standing = or_else (run_step memory lowest elapsed (following fresh))

fresh-run_step : run_step memory lowest elapsed (following fresh) ≡ some standing
unfolding run_step Follower.follower_step
fresh-run_step = refl

run_step-MayBecome_example :
    IsConsistent memory lowest standing × MayBecome follower (world_of standing).current_state
run_step-MayBecome_example =
    run_step-MayBecome memory lowest elapsed (following fresh) standing refl fresh-run_step

-- A candidate and a leader that serve a client late.
abbrev busy_candidate : Campaign (MemoryState ℕ) ℕ ℕ
busy_candidate = record {
  election = record {
    world = world 1 3 candidate [];
    session = record { ack_peers = []; granted_votes = 1; results = []; listening = true };
  };
  election_timeout = timer;
  retry_timeout = timer;
}

abbrev busy_leader : Leadership (MemoryState ℕ) ℕ ℕ
busy_leader = record {
  lead = record {
    world = world 1 3 leader [];
    session = record { peers = []; write_locked = false };
  };
  heartbeat_timeout = timer;
  standby = none;
}

abbrev late_candidate : Campaign (MemoryState ℕ) ℕ ℕ
late_candidate =
    after (candidate_round memory lowest 30 (Loop.in_client_request request) busy_candidate)

abbrev late_leader : Leadership (MemoryState ℕ) ℕ ℕ
late_leader =
    after (leader_round memory lowest 30 (LeaderLoop.in_client_request request) busy_leader)
