-- ===== src/Tests/Leaders.antt =====
-- What a concrete leader makes of its peers.
use zeroraft.Base.{
  Option, ℕ, ◌+◌, ◌*◌, ◌≤◌, ◌<◌, ◌-◌, keys, ◌≡◌, refl, [], ◌∷◌, true, false, some, none, arith, ok,
  panic, blocked, length, lookup,
}
use zeroraft.Store.{LogEntry, HashMap}
use zeroraft.Memory.{MemoryState, memory, get_entry}
use zeroraft.Node.{World, leader}
use zeroraft.Rpc.{AppendEntriesResponse, AppendEntriesResponseReason}
use zeroraft.Role.Leader.Peers.{Progress, median, match_indices}
use zeroraft.Role.Leader.{
  Lead, on_standby_response, send_heartbeat_to_peers, on_heartbeat_response, commit_candidate,
  collect_responses, send_each,
}
use zeroraft.Role.Leader.Lock.{on_standby_response-deadlock}
use zeroraft.Role.Leader.Start.{start_leading-standby}
use zeroraft.Memory.{numbered}
use zeroraft.Memory.Laws.{numbered_laws}
use zeroraft.Role.Leader.Standby.First.{standby_round-panic}
use zeroraft.Role.Leader.Loop.{Leadership, Event, start_leading, leader_step, spawn_standby}
use zeroraft.Role.Leader.Standby.{spawned, standby_round}
use zeroraft.Timeout.{range}
use zeroraft.Role.Leader.Commit.{count_ge, commit_candidate-majority}
use zeroraft.Role.Leader.Countdown.{mismatches_panic}
use zeroraft.Tests.{entry, world, lowest}

abbrev W : Type 0
W = World (MemoryState ℕ) ℕ ℕ

abbrev boss : W
boss = world 1 2 leader (entry 1 10 ∷ entry 2 11 ∷ entry 2 12 ∷ [])

abbrev L : Type 0
L = Lead (MemoryState ℕ) ℕ ℕ

abbrev leading_with : HashMap Progress → L
leading_with peers = record {
  world = boss;
  session = record { peers = peers; write_locked = false };
}

abbrev taken : AppendEntriesResponse
taken = record {
  term = 2;
  success = true;
  id = 2;
  len = 1;
  reason = AppendEntriesResponseReason.ok;
}

abbrev mismatch : AppendEntriesResponse
mismatch = record {
  term = 2;
  success = false;
  id = 2;
  len = 0;
  reason = AppendEntriesResponseReason.log_mismatch;
}

abbrev new_peers : HashMap Progress
new_peers = (2, (1, none)) ∷ (3, (1, none)) ∷ []

on_standby_response-deadlock_example :
    (l' : L) × (on_standby_response memory taken (leading_with new_peers) ≡ blocked l')
    × (lookup 2 l'.peers ≡ some (1 + 1 + 1, some (1 + 1 - 1)))
    × (l'.world ≡ boss)
    × (send_heartbeat_to_peers memory l' ≡ blocked l')
    × ((q : AppendEntriesResponse) → on_heartbeat_response memory q l' ≡ blocked l')
on_standby_response-deadlock_example =
    on_standby_response-deadlock memory (leading_with new_peers) taken 1 none refl refl refl
      (omega arith) (omega arith)

abbrev or_else : Option (Leadership (MemoryState ℕ) ℕ ℕ) → Leadership (MemoryState ℕ) ℕ ℕ
or_else none = record {
  lead = leading_with [];
  heartbeat_timeout = record { duration = range 1 1; started = 0; current_interval = 1 };
  standby = none;
}
or_else (some c) = c

-- A leader that was just elected.
abbrev new_leader : Leadership (MemoryState ℕ) ℕ ℕ
new_leader = or_else (start_leading memory lowest boss)

boss-start_leading : start_leading memory lowest boss ≡ some new_leader
unfolding start_leading send_heartbeat_to_peers send_each
boss-start_leading = refl

start_leading-standby_example :
    let d' = spawn_standby memory lowest new_leader in
    (new_leader.standby ≡ none)
    × (0 ≤ 0 → d'.standby ≡ some [])
    × (0 < 0 → d'.standby ≡ some (spawned (keys new_leader.peers)))
    × (spawn_standby memory lowest d' ≡ d')
    × ((event : Event ℕ) (c₁ c₂ : Leadership (MemoryState ℕ) ℕ ℕ)
        → leader_step memory lowest event c₁ ≡ ok tt c₂
        → c₂.standby ≡ c₁.standby)
unfolding start_leading send_heartbeat_to_peers send_each
start_leading-standby_example =
    start_leading-standby memory lowest boss new_leader new_leader boss-start_leading refl refl

abbrev known_peers : HashMap Progress
known_peers = (2, (3, some 1)) ∷ (3, (3, some 2)) ∷ (4, (1, none)) ∷ []

boss-commit_candidate : commit_candidate memory known_peers boss ≡ some 2
unfolding commit_candidate get_entry median match_indices
boss-commit_candidate = refl

commit_candidate-majority_example :
    ((e : LogEntry ℕ) × (memory.get_entry 2 boss.state ≡ some e) × (e.term ≡ 2))
    × (length (match_indices known_peers) + 1 < 2 * (1 + count_ge 2 (match_indices known_peers)))
commit_candidate-majority_example =
    commit_candidate-majority memory known_peers boss 2 boss-commit_candidate

mismatches_panic_example :
    (l' : L) × (collect_responses
        (on_heartbeat_response memory)
        (mismatch ∷ mismatch ∷ [])
        (leading_with new_peers)
      ≡ panic l')
mismatches_panic_example =
    mismatches_panic memory (mismatch ∷ mismatch ∷ []) (leading_with new_peers) 2 1 none
      ((refl, refl), ((refl, refl), tt)) refl refl (omega arith)

standby_round-panic_example :
    standby_round numbered 2 false (leading_with new_peers) ≡ panic (leading_with new_peers)
standby_round-panic_example =
    standby_round-panic numbered_laws (leading_with new_peers) 2 none false refl refl (ground arith)
