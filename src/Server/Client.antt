-- ===== src/Server/Client.antt =====
-- `start_client_server` of zeroraft/tests/fixtures/server.rs: a client's request to a node and what the
-- client gets. The wire format (`cbor4ii`) is a parameter, and a stream brings what was written.
pub mod Answers
use zeroraft.Base.{ℕ, List, [], ◌∷◌, true, Option, none, some, Action, Out, ok, err, panic, blocked}
use zeroraft.Store.{State}
use zeroraft.Rpc.{
  ClientRequest, ClientResponse, Sender, Output, vote_reply, append_reply, client_reply, rpc,
}
use zeroraft.Node.{World}
use zeroraft.Role.Follower.{Following, follower_step}
use zeroraft.Role.Follower
use zeroraft.Role.Candidate.Loop.{Campaign, candidate_step}
use zeroraft.Role.Candidate.Loop
use zeroraft.Role.Leader.Loop.{Leadership, leader_step}
use zeroraft.Role.Leader.Loop as LeaderLoop
use zeroraft.Run.{Running, following, campaigning, leading, stopped, world_of}
use zeroraft.Server.{live_sender}

-- `to_vec` and `from_slice` at the two types that clients use; `none` is an error.
pub record ClientCodec (R P Bytes : Type 0) : Type 0 where
  pub encode_request : R → Bytes
  pub decode_request : Bytes → Option R
  pub encode_response : ClientResponse P → Bytes
  pub decode_response : Bytes → Option (ClientResponse P)

-- What happens on the client's connection.
pub data Reply (Bytes : Type 0) : Type 0 where
  written : Bytes → Reply Bytes
  closed waiting : Reply Bytes

module _ {R P Bytes : Type 0} (codec : ClientCodec R P Bytes) where
  -- `response_rx.recv()` gives nothing if the sender is dropped, and the task ends with an error.
  reply_of : List (Output R P) → Reply Bytes
  reply_of [] = closed
  reply_of (client_reply response ∷ _) = written (codec.encode_response response)
  reply_of (_ ∷ os) = reply_of os

module _ {S R P : Type 0} where
  with_no_output : World S R P → World S R P
  with_no_output w = record w { sent = [] }

  -- The node as it was, with an empty list of what it sends.
  fresh : Running S R P → Running S R P
  unfolding with_no_output
  fresh (following f) = following (record f { world = with_no_output f.world })
  fresh (campaigning c) =
      campaigning (record c { election = record c.election { world = with_no_output c.world } })
  fresh (leading l) = leading (record l { lead = record l.lead { world = with_no_output l.world } })
  fresh (stopped w) = stopped (with_no_output w)

  as_running :
      {A : Type 0} → (A → Running S R P) → Out A (Unit {0}) → Out (Running S R P) (Unit {0})
  as_running f (ok a s) = ok a (f s)
  as_running f (err x s) = err x (f s)
  as_running f (panic s) = panic (f s)
  as_running f (blocked s) = blocked (f s)

  module _ (st : State S R) (gen_range : ℕ → ℕ → ℕ) where
    -- The loop takes the request; nothing takes one from the channel of a node that has stopped.
    take_request : ClientRequest R → Action (Running S R P) (Unit {0})
    unfolding as_running follower_step candidate_step leader_step
    take_request q (following f) =
        as_running following (follower_step st gen_range (Follower.in_client_request q) f)
    take_request q (campaigning c) =
        as_running campaigning (candidate_step st gen_range (Loop.in_client_request q) c)
    take_request q (leading l) =
        as_running leading (leader_step st gen_range (LeaderLoop.in_client_request q) l)
    take_request q (stopped w) = blocked (stopped w)

  module _ {Bytes : Type 0} (codec : ClientCodec R P Bytes) where
    replied : Out (Running S R P) (Unit {0}) → Running S R P × Reply Bytes
    unfolding reply_of
    replied (ok _ r) = (r, reply_of codec (world_of r).sent)
    replied (err _ r) = (r, reply_of codec (world_of r).sent)
    replied (panic r) = (r, reply_of codec (world_of r).sent)
    replied (blocked r) = (r, waiting)

    module _ (st : State S R) (gen_range : ℕ → ℕ → ℕ) where
      accepted : Running S R P → Option R → Running S R P × Reply Bytes
      unfolding fresh take_request replied
      accepted r none = (r, closed)
      accepted r (some request) = replied (
          take_request st gen_range (record { request = request; response_tx = live_sender })
            (fresh r))

      -- One connection: what a client writes to it, and the node, which is in one of its loops.
      unfoldable pub client_call : Bytes → Running S R P → Running S R P × Reply Bytes
      unfolding accepted
      client_call bytes r = accepted r (codec.decode_request bytes)
