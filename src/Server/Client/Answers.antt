-- ===== src/Server/Client/Answers.antt =====
-- What a client learns from the node that it writes to.
use zeroraft.Base.{ℕ, ◌≡◌, [], ◌∷◌, false, Option, none, some, after, arith, Option-cases, inl, inr}
use zeroraft.Store.{State, NodeId, client_request}
use zeroraft.Rpc.{ClientResponse, ClientResponseReason}
use zeroraft.Role.Rpc.{redirect}
use zeroraft.Role.Follower.{follower_step}
use zeroraft.Role.Candidate.Loop.{candidate_step}
use zeroraft.Role.Leader.Loop.{leader_step, append_client_request}
use zeroraft.Run.{Running, following, campaigning, leading, stopped, world_of}
use zeroraft.Server.Client.{ClientCodec, Reply, written, closed, waiting, client_call}

-- What the wire format promises.
pub record IsClientCodec {R P Bytes : Type 0} (codec : ClientCodec R P Bytes) : Type 0 where
  pub request_back : (q : R) → codec.decode_request (codec.encode_request q) ≡ some q
  pub response_back :
      (r : ClientResponse P) → codec.decode_response (codec.encode_response r) ≡ some r

-- The answer of a node that does not lead, by the leader that it knows.
abbrev pub refusal : {P : Type 0} → Option NodeId → ClientResponse P
refusal none = record {
  success = false;
  reason = ClientResponseReason.no_leader_yet;
  leader_id = none;
  payload = none;
}
refusal (some leader) = record {
  success = false;
  reason = ClientResponseReason.redirect;
  leader_id = some leader;
  payload = none;
}

module _ {S R P Bytes : Type 0} (codec : ClientCodec R P Bytes) (st : State S R) where
  -- What the client reads.
  abbrev pub read : Reply Bytes → Option (ClientResponse P)
  read (written bytes) = codec.decode_response bytes
  read closed = none
  read waiting = none

  -- What the request `q` may do to the node `r`, and the client's reply.
  abbrev pub Answer : R → Running S R P → Running S R P × Reply Bytes → Type 0
  Answer q (following f) (r, reply) =
      (read reply ≡ some (refusal f.leader_id)) × ((world_of r).node ≡ f.world.node)
  Answer q (campaigning c) (r, reply) =
      (read reply ≡ some (refusal c.leader_id)) × ((world_of r).node ≡ c.world.node)
  Answer q (leading l) (r, reply) =
      (read reply ≡ none)
      × ((world_of r).state
          ≡ after (
              st.append_entries (record { term = l.current_term; command = client_request q } ∷ [])
                l.state))
  Answer q (stopped w) (r, reply) = (reply ≡ waiting) × ((world_of r).node ≡ w.node)

  -- Over a wire format that reads back what it wrote: a client that writes to a follower or a candidate
  -- reads a refusal that names the leader if the node knows one, and the node itself stays as it was. A
  -- client that writes to a leader reads no response, though the request is handed to the leader's
  -- store as an entry of the leader's term. A client of a node that has stopped waits.
  pub client_call-Answer :
      (laws : IsClientCodec codec) (gen_range : ℕ → ℕ → ℕ) (q : R) (r : Running S R P)
      → Answer q r (client_call codec st gen_range (codec.encode_request q) r)
  unfolding client_call follower_step candidate_step leader_step redirect append_client_request
  client_call-Answer laws gen_range q (following f) = elim (Option-cases f.leader_id) [
    | inl e ↦ ground (arith, laws.request_back q, laws.response_back (refusal none))
    | inr (l, e) ↦ ground (arith, laws.request_back q, laws.response_back (refusal (some l)))
  ]
  client_call-Answer laws gen_range q (campaigning c) = elim (Option-cases c.leader_id) [
    | inl e ↦ ground (arith, laws.request_back q, laws.response_back (refusal none))
    | inr (l, e) ↦ ground (arith, laws.request_back q, laws.response_back (refusal (some l)))
  ]
  client_call-Answer laws gen_range q (leading l) = ground (arith, laws.request_back q)
  client_call-Answer laws gen_range q (stopped w) = ground (arith, laws.request_back q)
