-- ===== src/Server/Transport.antt =====
-- Requests and responses that travel between the servers of two nodes.
use zeroraft.Base.{◌≡◌, refl, List, [], ◌∷◌, Option, none, some, after, arith, true, false}
use zeroraft.Store.{State}
use zeroraft.Rpc.{
  AppendEntriesRequest, AppendEntriesResponse, RequestVoteRequest, RequestVoteResponse, PeerRpc,
  Sender, Output, vote_reply, append_reply, client_reply, rpc,
}
use zeroraft.Node.{World}
use zeroraft.Role.Common.{respond_to_append_entries, respond_to_request_vote}
use zeroraft.Role.Rpc.{on_rpc}
use zeroraft.Server.{
  WireRpc, append_entries, request_vote, Codec, live_sender, takes_rpcs, hangs, brought, call,
}

-- What the wire format promises: a value that was written is read back, by its own type.
pub record IsCodec {R Bytes : Type 0} (codec : Codec R Bytes) : Type 0 where
  pub rpc_back : (q : WireRpc R) → codec.decode_rpc (codec.encode_rpc q) ≡ some q
  pub vote_back : (r : RequestVoteResponse) → codec.decode_vote (codec.encode_vote r) ≡ some r
  pub append_back :
      (r : AppendEntriesResponse) → codec.decode_append (codec.encode_append r) ≡ some r

-- At most one response, of the kind that answers the request.
abbrev Fits : {R P : Type 0} → PeerRpc R → List (Output R P) → Type 0
Fits q [] = Unit
Fits (PeerRpc.request_vote _ _) (vote_reply r ∷ []) = Unit
Fits (PeerRpc.append_entries _ _) (append_reply r ∷ []) = Unit
Fits q _ = ⊥

abbrev pub first : {R P : Type 0} → List (Output R P) → Option (Output R P)
first [] = none
first (o ∷ os) = some o

-- The request as the other node gets it.
abbrev pub renewed : {R : Type 0} → PeerRpc R → PeerRpc R
renewed (PeerRpc.append_entries q _) = PeerRpc.append_entries q live_sender
renewed (PeerRpc.request_vote q _) = PeerRpc.request_vote q live_sender
renewed (PeerRpc.install_snapshot q tx) = PeerRpc.install_snapshot q tx
renewed (PeerRpc.config q tx) = PeerRpc.config q tx

-- The kinds of request that go over the wire.
abbrev pub IsSent : {R : Type 0} → PeerRpc R → Type 0
IsSent (PeerRpc.append_entries _ _) = Unit
IsSent (PeerRpc.request_vote _ _) = Unit
IsSent _ = ⊥

module _ {S R P : Type 0} (st : State S R) where
  vote-Fits :
      (q : RequestVoteRequest) (tx : Sender) (w : World S R P)
      → w.sent ≡ []
      → Fits {R = R} (PeerRpc.request_vote q tx) (after (respond_to_request_vote st q tx w)).sent
  unfolding respond_to_request_vote
  vote-Fits q tx w h = ground arith

  append-Fits :
      (q : AppendEntriesRequest R) (tx : Sender) (w : World S R P)
      → w.sent ≡ []
      → Fits (PeerRpc.append_entries q tx) (after (respond_to_append_entries st q tx w)).sent
  unfolding respond_to_append_entries
  append-Fits q tx w h = ground arith

module _ {S R P Bytes : Type 0} (codec : Codec R Bytes) (laws : IsCodec codec)
    (st : State S R) where
  vote_over :
      (q : RequestVoteRequest) (tx : Sender) (w w' : World S R P) (os : List (Output R P))
      → takes_rpcs w.current_state ≡ true
      → after (respond_to_request_vote st q live_sender (record w { sent = [] })) ≡ w'
      → w'.sent ≡ os
      → Fits {R = R} (PeerRpc.request_vote q tx) os
      → call codec st (PeerRpc.request_vote q tx) w ≡ brought codec st w' (first os)
  unfolding call on_rpc brought
  vote_over q tx w w' [] t e h f =
      rw (laws.rpc_back (request_vote q), call) (rw (t, e, h, call) refl)
  vote_over q tx w w' (vote_reply r ∷ []) t e h f =
      rw (laws.rpc_back (request_vote q), call)
        (rw (t, e, h, call) (rw (laws.vote_back r, call) refl))
  vote_over q tx w w' (vote_reply r ∷ o ∷ os) t e h f = elim f [ ]
  vote_over q tx w w' (append_reply r ∷ os) t e h f = elim f [ ]
  vote_over q tx w w' (client_reply r ∷ os) t e h f = elim f [ ]
  vote_over q tx w w' (rpc p r ∷ os) t e h f = elim f [ ]

  append_over :
      (q : AppendEntriesRequest R) (tx : Sender) (w w' : World S R P) (os : List (Output R P))
      → takes_rpcs w.current_state ≡ true
      → after (respond_to_append_entries st q live_sender (record w { sent = [] })) ≡ w'
      → w'.sent ≡ os
      → Fits (PeerRpc.append_entries q tx) os
      → call codec st (PeerRpc.append_entries q tx) w ≡ brought codec st w' (first os)
  unfolding call on_rpc brought
  append_over q tx w w' [] t e h f =
      rw (laws.rpc_back (append_entries q), call) (rw (t, e, h, call) refl)
  append_over q tx w w' (append_reply r ∷ []) t e h f =
      rw (laws.rpc_back (append_entries q), call)
        (rw (t, e, h, call) (rw (laws.append_back r, call) refl))
  append_over q tx w w' (append_reply r ∷ o ∷ os) t e h f = elim f [ ]
  append_over q tx w w' (vote_reply r ∷ os) t e h f = elim f [ ]
  append_over q tx w w' (client_reply r ∷ os) t e h f = elim f [ ]
  append_over q tx w w' (rpc p r ∷ os) t e h f = elim f [ ]

  -- A request to a node whose loop takes requests does there what the request itself does, and brings
  -- back the response that the node gave.
  pub call-on_rpc :
      (q : PeerRpc R) (w : World S R P)
      → IsSent q
      → takes_rpcs w.current_state ≡ true
      → let w' = after (on_rpc st (renewed q) (record w { sent = [] })) in
        call codec st q w ≡ brought codec st w' (first w'.sent)
  unfolding on_rpc
  call-on_rpc (PeerRpc.request_vote q tx) w s t =
      vote_over q tx w _ _ t refl refl (vote-Fits st q live_sender (record w { sent = [] }) refl)
  call-on_rpc (PeerRpc.append_entries q tx) w s t =
      append_over q tx w _ _ t refl refl
        (append-Fits st q live_sender (record w { sent = [] }) refl)
  call-on_rpc (PeerRpc.install_snapshot q tx) w s t = elim s [ ]
  call-on_rpc (PeerRpc.config q tx) w s t = elim s [ ]

  -- A request to a node without a loop is never answered.
  pub call-hangs :
      (q : PeerRpc R) (w : World S R P)
      → IsSent q
      → takes_rpcs w.current_state ≡ false
      → call codec st q w ≡ hangs w
  unfolding call
  call-hangs (PeerRpc.request_vote q tx) w s t =
      rw (laws.rpc_back (request_vote q), call) (rw (t, call) refl)
  call-hangs (PeerRpc.append_entries q tx) w s t =
      rw (laws.rpc_back (append_entries q), call) (rw (t, call) refl)
  call-hangs (PeerRpc.install_snapshot q tx) w s t = elim s [ ]
  call-hangs (PeerRpc.config q tx) w s t = elim s [ ]
