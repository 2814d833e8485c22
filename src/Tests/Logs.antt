-- ===== src/Tests/Logs.antt =====
-- Logs and what requests do to them, on concrete nodes.
use zeroraft.Base.{
  after, true, false, ◌+◌, ℕ, ◌≡◌, ◌≢◌, refl, List, [], ◌∷◌, some, none, arith, Returns, ok, ap,
  ◌∙◌, take, length, get_elem?,
}
use zeroraft.Store.{LogEntry}
use zeroraft.Store.Laws.{IsState, entry_at}
use zeroraft.Memory.{MemoryState, memory, numbered}
use zeroraft.Memory.Laws.{
  memory-IsState, memory_view, memory_laws, numbered_laws, memory-IsReliable, numbered-IsReliable,
  memory_view_lem, numbered_view_lem,
}
use zeroraft.Node.{World, follower, leader}
use zeroraft.Rpc.{AppendEntriesRequest, AppendEntriesResponse, PeerRpc, rpc}
use zeroraft.Role.Common.{respond_to_append_entries}
use zeroraft.Role.Common.Append.{AppendAnswer, respond_to_append_entries_lem}
use zeroraft.Role.Leader.{Lead, heartbeat, compose_append_entries_request}
use zeroraft.Role.Leader.Heartbeat.{Cleared, heartbeat_clears_log, Mismatched, heartbeat_mismatch}
use zeroraft.Role.Leader.Replicate.{replicate_lem, replicate_skips}
use zeroraft.Role.Leader.Standby.{
  awaiting_response, awaiting_signal, over, resumed, response_arrived, millisecond_elapsed,
  notified, run_task,
}
use zeroraft.Role.Leader.Standby.Deposed.{stop_signal_missed}
use zeroraft.Tests.{entry, store, world}

abbrev W : Type 0
W = World (MemoryState ℕ) ℕ ℕ

abbrev long_log : List (LogEntry ℕ)
long_log = entry 1 10 ∷ entry 2 11 ∷ entry 2 12 ∷ []

abbrev short_log : List (LogEntry ℕ)
short_log = entry 1 10 ∷ entry 1 13 ∷ []

abbrev append : AppendEntriesRequest ℕ
append = record {
  term = 2;
  leader_id = 1;
  last_commit_index = 1;
  prev_log_index = 1;
  prev_log_term = 1;
  entries = entry 2 11 ∷ [];
}

abbrev boss : W
boss = world 1 2 leader long_log

abbrev behind : W
behind = world 2 1 follower short_log

memory-IsState_example :
    (laws : IsState 0 (memory {R = ℕ})) × ((s : MemoryState ℕ) → laws.view s ≡ memory_view s)
    × (¬ IsState 1 (memory {R = ℕ}))
    × ((i : ℕ) (s : MemoryState ℕ)
        → memory.get_entry i (after (memory.remove_entries_after i s)) ≡ none)
    × ((s : MemoryState ℕ) → memory.get_entry (memory.get_last_index s) s ≡ none)
memory-IsState_example = memory-IsState

respond_to_append_entries_lem_example :
    Returns
      (respond_to_append_entries numbered append (record { live = true }) behind)
      λ w'. (r : AppendEntriesResponse) × AppendAnswer 1 numbered_laws.view append behind w' r
respond_to_append_entries_lem_example =
    respond_to_append_entries_lem numbered_laws numbered-IsReliable append behind

heartbeat_clears_log_example :
    Returns
      (respond_to_append_entries numbered (heartbeat numbered boss) (record { live = true }) behind)
      (Cleared numbered_laws.view behind)
heartbeat_clears_log_example =
    heartbeat_clears_log numbered_laws numbered-IsReliable boss behind (omega arith)

first_entry : entry_at 0 (memory_laws.view (store short_log)).log 0 ≡ some (entry 1 10)
first_entry = rw (memory_view_lem (store short_log)) refl

heartbeat_mismatch_example :
    Returns
      (respond_to_append_entries memory (heartbeat memory boss) (record { live = true }) behind)
      (Mismatched memory_laws.view behind)
heartbeat_mismatch_example =
    heartbeat_mismatch memory_laws memory-IsReliable boss behind (entry 1 10) (omega arith)
      first_entry (omega arith)

-- A leader that takes peer 2 for one that lacks the entries from `next_index` on.
abbrev leading_from : ℕ → Lead (MemoryState ℕ) ℕ ℕ
leading_from next_index = record {
  world = boss;
  session = record { peers = (2, (next_index, none)) ∷ []; write_locked = false };
}

numbered_entry : entry_at 1 (numbered_laws.view (store long_log)).log 1 ≡ some (entry 1 10)
numbered_entry = rw (numbered_view_lem (store long_log)) refl

numbered_prefix :
    take 1 (numbered_laws.view (store short_log)).log
    ≡ take 1 (numbered_laws.view (store long_log)).log
numbered_prefix = rw (numbered_view_lem (store short_log), numbered_view_lem (store long_log)) refl

replicate_lem_example :
    (request : AppendEntriesRequest ℕ) × (compose_append_entries_request numbered 2 (leading_from 2)
      ≡ ok request (leading_from 2))
    × Returns
        (respond_to_append_entries numbered request (record { live = true }) behind)
        (λ w'. (numbered_laws.view w'.state).log ≡ (numbered_laws.view boss.state).log)
replicate_lem_example =
    replicate_lem numbered_laws numbered-IsReliable (leading_from 2) 2 0 none (entry 1 10) behind
      refl refl numbered_entry (omega arith) numbered_prefix

abbrev one_short : W
one_short = world 2 1 follower (entry 1 10 ∷ [])

memory_entry : get_elem? (memory_laws.view (store long_log)).log 1 ≡ some (entry 2 11)
memory_entry = rw (memory_view_lem (store long_log)) refl

memory_prefix : (memory_laws.view one_short.state).log ≡ take 1 (memory_laws.view boss.state).log
memory_prefix =
    ap (λ v. v.log) (memory_view_lem one_short.state) ∙ rw (memory_view_lem boss.state) refl

replicate_skips_example :
    (request : AppendEntriesRequest ℕ) × (compose_append_entries_request memory 2 (leading_from 2)
      ≡ ok request (leading_from 2))
    × Returns (respond_to_append_entries memory request (record { live = true }) one_short) (λ w'.
      length (memory_laws.view w'.state).log + 1 ≡ length (memory_laws.view boss.state).log)
replicate_skips_example =
    replicate_skips memory_laws memory-IsReliable (leading_from 2) 2 1 none (entry 2 11) one_short
      refl refl memory_entry (omega arith) memory_prefix

-- A node that led and is a follower now, in a later term, while a task of its leadership lives on.
abbrev deposed : Lead (MemoryState ℕ) ℕ ℕ
deposed = record {
  world = world 1 3 follower long_log;
  session = record { peers = (2, (2, none)) ∷ []; write_locked = false };
}

not_matching : none ≢ some (numbered_laws.view (store long_log)).commit
not_matching = ground arith

stop_signal_missed_example :
    (run_task numbered 2 (notified ∷ resumed ∷ []) awaiting_signal deposed ≡ ok over deposed)
    × ((l' : Lead (MemoryState ℕ) ℕ ℕ) × (request : AppendEntriesRequest ℕ) × (run_task numbered 2
            (notified ∷ response_arrived true ∷ millisecond_elapsed ∷ resumed ∷ [])
            awaiting_response
            deposed
          ≡ ok awaiting_response l')
        × (l'.sent ≡ rpc 2 (PeerRpc.append_entries request (record { live = true })) ∷ [])
        × (request.term ≡ 3)
        × (request.leader_id ≡ 1)
        × Returns
            (respond_to_append_entries numbered request (record { live = true }) behind)
            (λ w'. (numbered_laws.view w'.state).log ≡ (numbered_laws.view (store long_log)).log))
stop_signal_missed_example =
    stop_signal_missed numbered_laws numbered-IsReliable deposed 2 0 none (entry 1 10) behind
      (resumed ∷ []) refl refl not_matching refl numbered_entry (omega arith) numbered_prefix
