-- ===== src/Tests/Wires.antt =====
-- Channels, servers and the catching up of a follower, on concrete nodes.
use zeroraft.Base.{
  Bool, length, ltb, Option, ℕ, zero, suc, ◌≡◌, refl, List, [], ◌∷◌, ◌++◌, true, false, none, some,
  arith, ok, blocked, after,
}
use zeroraft.Store.{LogEntry, SocketAddr}
use zeroraft.Memory.{MemoryState, memory, numbered}
use zeroraft.Memory.Laws.{numbered_laws, numbered-IsReliable, numbered_view_lem}
use zeroraft.Node.{get_peer, World, follower, leader, shutdown}
use zeroraft.Rpc.{AppendEntriesResponse, RequestVoteResponse, PeerRpc, ClientRequest}
use zeroraft.Channels.{Channels, create, Mpsc, send_in_rpc}
use zeroraft.Channels.Laws.{IsMpsc}
use zeroraft.Channels
use zeroraft.Role.Leader.{Lead}
use zeroraft.Role.Leader.CatchUp.Exchanges.{LogsMatch}
use zeroraft.Role.Leader.CatchUp.Convergence.{CaughtUp, catch_up-Converges}
use zeroraft.Run.{Running, following}
use zeroraft.Service.{poll, Arm, served, ended, shutdown_arm}
use zeroraft.Service.Shutdown.{stopped_world, shutdown_stops}
use zeroraft.Run.{stopped}
use zeroraft.Server.{WireRpc, Codec}
use zeroraft.Server.Transport.{IsCodec}
use zeroraft.Server.Forward.{Network, goes_on, ends, waits, forward}
use zeroraft.Server.Forward.Stops.{deliver_to, deliver_all, forward_stops, forward_waits}
use zeroraft.Timeout.{Timeout, range}
use zeroraft.Tests.{entry, store, world, here, ask_for, lowest, address}

-- A channel as a list and a capacity.
room : {A : Type 0} → Bool → List A → Option ℕ → A → Option (List A × Option ℕ)
room true xs n a = some (xs ++ a ∷ [], n)
room false xs n a = none

has_room : {A : Type 0} → Option ℕ → List A → Bool
has_room none xs = true
has_room (some n) xs = ltb (length xs) n

pub lists : Mpsc
unfolding room has_room
lists = record {
  Queue = λ A. List A × Option ℕ;
  unbounded_channel = ([], none);
  channel = λ n. ([], some n);
  send = λ a (xs, n). room (has_room n xs) xs n a;
  recv = λ (xs, n). elim xs [ [] ↦ none | a ∷ rest ↦ some (a, (rest, n)) ];
}

pub lists-IsMpsc : IsMpsc lists
unfolding lists room has_room
lists-IsMpsc = record {
  held = λ (xs, n). xs;
  capacity = λ (xs, n). n;
  unbounded_lem = (refl, refl);
  channel_lem = λ n. (refl, refl);
  sends = λ a (xs, n) h. ((xs ++ a ∷ [], n), ground arith, refl, refl);
  send_waits = λ a (xs, n) k e h. ground arith;
  receives = λ (xs, n) a rest e. ((rest, n), ground arith, refl, refl);
  recv_waits = λ (xs, n) e. ground arith;
}

abbrev ask : PeerRpc ℕ
ask = PeerRpc.request_vote (ask_for 3 2) here

abbrev write : ClientRequest ℕ
write = record { request = 9; response_tx = here }

abbrev timer : Timeout
timer = record { duration = range 150 300; started = 0; current_interval = 10 }

abbrev fresh : Running (MemoryState ℕ) ℕ ℕ
fresh = following (record { world = world 1 1 follower []; election_timeout = timer })

-- One request waits.
abbrev quiet : Channels lists ℕ
quiet = after (send_in_rpc lists ask (create lists))

pub new_empty : lists-IsMpsc.held (create lists {R = ℕ}).shutdown_signals ≡ []
unfolding lists-IsMpsc lists create
new_empty = refl

pub new_one : lists-IsMpsc.capacity (create lists {R = ℕ}).shutdown_signals ≡ some 1
unfolding lists-IsMpsc lists create
new_one = refl

quiet_empty : lists-IsMpsc.held quiet.shutdown_signals ≡ []
unfolding lists-IsMpsc lists create send_in_rpc
quiet_empty = refl

quiet_one : lists-IsMpsc.capacity quiet.shutdown_signals ≡ some 1
unfolding lists-IsMpsc lists create send_in_rpc
quiet_one = refl

abbrev ended_world : World (MemoryState ℕ) ℕ ℕ
ended_world = stopped_world (world 1 1 follower [])

shutdown_stops_example :
    (c' : Channels lists ℕ) × (c'' : Channels lists ℕ) × (Channels.shutdown lists quiet ≡ ok tt c')
    × (Channels.shutdown lists c' ≡ blocked c')
    × (poll lists memory lowest shutdown_arm fresh c'
        ≡ served (record { running = stopped ended_world; channels = c'' }))
    × (lists-IsMpsc.held c''.shutdown_signals ≡ [])
    × ((arm : Arm) → poll lists memory lowest arm (stopped ended_world) c'' ≡ ended)
shutdown_stops_example =
    shutdown_stops lists lists-IsMpsc memory lowest fresh quiet tt quiet_empty quiet_one

-- A wire format that sends the values themselves.
data Value : Type 0 where
  a_rpc : WireRpc ℕ → Value
  a_vote : RequestVoteResponse → Value
  an_append : AppendEntriesResponse → Value

as_is : Codec ℕ Value
as_is = record {
  encode_rpc = a_rpc;
  decode_rpc = λ v. elim v [ a_rpc q ↦ some q | _ ↦ none ];
  encode_vote = a_vote;
  decode_vote = λ v. elim v [ a_vote r ↦ some r | _ ↦ none ];
  encode_append = an_append;
  decode_append = λ v. elim v [ an_append r ↦ some r | _ ↦ none ];
}

as_is-IsCodec : IsCodec as_is
unfolding as_is
as_is-IsCodec = record { rpc_back = λ q. refl; vote_back = λ r. refl; append_back = λ r. refl }

abbrev other : World (MemoryState ℕ) ℕ ℕ
other = world 2 1 follower []

-- Node 1 has sent three requests; the sender of the second has given up.
abbrev sender : World (MemoryState ℕ) ℕ ℕ
sender = world 1 3 follower []

abbrev given_up : PeerRpc ℕ
given_up = PeerRpc.request_vote (ask_for 3 1) (record { live = false })

abbrev network : Network (MemoryState ℕ) ℕ ℕ
network = (address, other) ∷ []

member_2 : get_peer numbered 2 sender ≡ some address
unfolding get_peer
member_2 = refl

member_3 : get_peer numbered 3 sender ≡ some address
unfolding get_peer
member_3 = refl

forward_stops_example :
    (forward as_is numbered sender ((2, ask) ∷ []) network
      ≡ goes_on (deliver_all numbered sender ((2, ask) ∷ []) network))
    × (forward as_is numbered sender ((2, ask) ∷ (3, given_up) ∷ (2, ask) ∷ []) network
        ≡ ends (
            deliver_to numbered sender
              (3, given_up)
              (deliver_all numbered sender ((2, ask) ∷ []) network)))
forward_stops_example =
    forward_stops as_is as_is-IsCodec numbered_laws numbered-IsReliable sender ((2, ask) ∷ [])
      ((2, ask) ∷ []) 3 given_up network ((tt, (address, member_2, refl)), tt) (refl, tt)
      (tt, (address, member_3, refl)) refl

-- Node 3 stands at an address of its own, and was shut down.
abbrev down_address : SocketAddr
down_address = record { ip = 1; port = 7701 }

abbrev sender_of_three : World (MemoryState ℕ) ℕ ℕ
sender_of_three = record sender {
  node = record sender.node {
    state = record sender.state { membership = (2, address) ∷ (3, down_address) ∷ [] };
  };
}

abbrev half_down : Network (MemoryState ℕ) ℕ ℕ
half_down = (address, other) ∷ (down_address, world 3 1 shutdown []) ∷ []

up_2 : get_peer numbered 2 sender_of_three ≡ some address
unfolding get_peer
up_2 = refl

down_3 : get_peer numbered 3 sender_of_three ≡ some down_address
unfolding get_peer
down_3 = refl

forward_waits_example :
    forward as_is numbered sender_of_three ((2, ask) ∷ (3, ask) ∷ (2, ask) ∷ []) half_down
    ≡ waits (deliver_all numbered sender_of_three ((2, ask) ∷ []) half_down)
forward_waits_example =
    forward_waits as_is as_is-IsCodec numbered_laws numbered-IsReliable sender_of_three
      ((2, ask) ∷ []) ((2, ask) ∷ []) 3 ask down_address half_down ((tt, (address, up_2, refl)), tt)
      (refl, tt) tt down_3 refl

-- The leader has three entries, the follower one of them and one of its own.
abbrev long_log : List (LogEntry ℕ)
long_log = entry 1 10 ∷ entry 2 11 ∷ entry 2 12 ∷ []

abbrev short_log : List (LogEntry ℕ)
short_log = entry 1 10 ∷ entry 1 13 ∷ []

abbrev behind : World (MemoryState ℕ) ℕ ℕ
behind = world 2 1 follower short_log

abbrev boss : Lead (MemoryState ℕ) ℕ ℕ
boss = record {
  world = world 1 2 leader long_log;
  session = record { peers = (2, (3, none)) ∷ []; write_locked = false };
}

logs-LogsMatch : LogsMatch short_log long_log
logs-LogsMatch zero e f h g same = refl
logs-LogsMatch (suc zero) e f h g same = refl
logs-LogsMatch (suc (suc zero)) e f h g same = ground arith
logs-LogsMatch (suc (suc (suc i))) e f h g same = ground arith

catch_up-Converges_example :
    CaughtUp numbered_laws numbered-IsReliable
      (false ∷ false ∷ [])
      2
      boss
      behind
      (numbered_laws.view (store long_log)).log
catch_up-Converges_example =
    catch_up-Converges numbered_laws numbered-IsReliable (false ∷ false ∷ []) 1 2 none (entry 1 10)
      (entry 1 10) boss behind (omega arith) (refl, (refl, tt)) refl refl (ground arith)
      (rw (numbered_view_lem (store long_log)) (omega arith)) (omega arith) refl
      (rw (numbered_view_lem (store long_log), numbered_view_lem (store short_log)) logs-LogsMatch)
      (rw (numbered_view_lem (store long_log)) refl) (rw (numbered_view_lem (store short_log)) refl)
      refl
