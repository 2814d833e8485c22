-- ===== src/Server/Forward/Stops.antt =====
-- What the forwarding of a node's requests does to the other nodes, and how it ends for good.
use zeroraft.Base.{
  ℕ, ◌≡◌, refl, List, [], ◌∷◌, ◌++◌, Bool, true, false, none, some, Out, after, arith, All,
  Returns-ok, inl, inr, Bool-cases, ap, ◌∙◌, if◌then◌else◌,
}
use zeroraft.Store.{NodeId, SocketAddr, State}
use zeroraft.Store.Laws.{IsState, IsReliable}
use zeroraft.Rpc.{PeerRpc, Output, append_reply, vote_reply}
use zeroraft.Node.{World, get_peer}
use zeroraft.Role.Common.{respond_to_append_entries, respond_to_request_vote}
use zeroraft.Role.Common.Append.{respond_to_append_entries_lem}
use zeroraft.Role.Common.Vote.{respond_to_request_vote_lem}
use zeroraft.Role.Rpc.{on_rpc}
use zeroraft.Server.{Codec, takes_rpcs, brought}
use zeroraft.Server.Transport.{IsCodec, IsSent, first, renewed, call-on_rpc, call-hangs}
use zeroraft.Server.Forward.{
  Network, Forwarding, goes_on, ends, waits, Turn, on_turn, end_turn, wait_turn, same_addr,
  response_tx, serve, hand_over, forward_one, forward,
}

-- Whether the node that accepts connections at the address, if there is one, has a loop that takes
-- requests.
abbrev pub IsAt : {S R P : Type 0} → Bool → SocketAddr → Network S R P → Type 0
IsAt b addr [] = ⊥
IsAt b addr ((a, v) ∷ net) =
    if same_addr a addr then takes_rpcs v.current_state ≡ b else IsAt b addr net

-- The sender of the request still waits for the response.
abbrev pub IsAwaited : {R : Type 0} → NodeId × PeerRpc R → Type 0
IsAwaited (peer, q) = (response_tx q).live ≡ true

-- What the loop does next, by whether the sender of the request still waits.
abbrev turn_of : {R : Type 0} → PeerRpc R → Turn
turn_of q = if (response_tx q).live then on_turn else end_turn

module _ {S R P : Type 0} (st : State S R) where
  -- The node at the address has handled the request; the others are as they were.
  unfoldable pub deliver : PeerRpc R → SocketAddr → Network S R P → Network S R P
  deliver q addr [] = []
  deliver q addr ((a, v) ∷ net) =
      let rest = deliver q addr net in
      if same_addr a addr
      then (a, after (on_rpc st (renewed q) (record v { sent = [] }))) ∷ net
      else (a, v) ∷ rest

  unfoldable pub deliver_to : World S R P → NodeId × PeerRpc R → Network S R P → Network S R P
  unfolding deliver
  deliver_to w (peer, q) net = elim (get_peer st peer w) [ none ↦ net | some a ↦ deliver q a net ]

  -- The requests have been handled in their order.
  unfoldable pub deliver_all :
      World S R P → List (NodeId × PeerRpc R) → Network S R P → Network S R P
  unfolding deliver_to
  deliver_all w [] net = net
  deliver_all w (x ∷ xs) net = deliver_all w xs (deliver_to w x net)

module _ {S R P Bytes : Type 0} {base : ℕ} (codec : Codec R Bytes) (law : IsCodec codec)
    {st : State S R} (laws : IsState base st) (rel : IsReliable st) where
  replies :
      (q : PeerRpc R) (v : World S R P)
      → IsSent q
      → (o : Output R P) × (first (after (on_rpc st (renewed q) (record v { sent = [] }))).sent
          ≡ some o)
  unfolding on_rpc
  replies (PeerRpc.append_entries q tx) v s =
      let (_, w', e, (r, a)) =
        Returns-ok
          (respond_to_append_entries st q (record { live = true }) (record v { sent = [] })) _
          (respond_to_append_entries_lem laws rel q (record v { sent = [] })) in
      (
        append_reply r,
        ap (λ (x : Out (World S R P) (Unit {0})). first (after x).sent) e ∙ ap first a.sent,
      )
  replies (PeerRpc.request_vote q tx) v s =
      let (_, w', e, (r, a)) =
        Returns-ok (respond_to_request_vote st q (record { live = true }) (record v { sent = [] }))
          _ (respond_to_request_vote_lem laws rel q (record v { sent = [] })) in
      (
        vote_reply r,
        ap (λ (x : Out (World S R P) (Unit {0})). first (after x).sent) e ∙ ap first a.sent,
      )
  replies (PeerRpc.install_snapshot q tx) v s = elim s [ ]
  replies (PeerRpc.config q tx) v s = elim s [ ]

  stays_up :
      (q : PeerRpc R) (v : World S R P)
      → takes_rpcs v.current_state ≡ true
      → takes_rpcs (after (on_rpc st q v)).current_state ≡ true
  unfolding on_rpc
  stays_up (PeerRpc.append_entries q tx) v h = ground arith
  stays_up (PeerRpc.request_vote q tx) v h = ground arith
  stays_up (PeerRpc.install_snapshot q tx) v h = h
  stays_up (PeerRpc.config q tx) v h = h

  serve-IsSent :
      (q : PeerRpc R) (v : World S R P)
      → IsSent q
      → takes_rpcs v.current_state ≡ true
      → serve codec st q v ≡ (after (on_rpc st (renewed q) (record v { sent = [] })), turn_of q)
  unfolding serve brought
  serve-IsSent (PeerRpc.append_entries q tx) v s t =
      let (o, e) = replies (PeerRpc.append_entries q tx) v s in
      rw (call-on_rpc codec law st (PeerRpc.append_entries q tx) v s t, e, serve, brought) refl
  serve-IsSent (PeerRpc.request_vote q tx) v s t =
      let (o, e) = replies (PeerRpc.request_vote q tx) v s in
      rw (call-on_rpc codec law st (PeerRpc.request_vote q tx) v s t, e, serve, brought) refl
  serve-IsSent (PeerRpc.install_snapshot q tx) v s t = elim s [ ]
  serve-IsSent (PeerRpc.config q tx) v s t = elim s [ ]

  serve-stopped :
      (q : PeerRpc R) (v : World S R P)
      → IsSent q
      → takes_rpcs v.current_state ≡ false
      → serve codec st q v ≡ (v, wait_turn)
  unfolding serve
  serve-stopped (PeerRpc.append_entries q tx) v s t =
      rw (call-hangs codec law st (PeerRpc.append_entries q tx) v s t, serve) refl
  serve-stopped (PeerRpc.request_vote q tx) v s t =
      rw (call-hangs codec law st (PeerRpc.request_vote q tx) v s t, serve) refl
  serve-stopped (PeerRpc.install_snapshot q tx) v s t = elim s [ ]
  serve-stopped (PeerRpc.config q tx) v s t = elim s [ ]

  hand_over-IsAt :
      (q : PeerRpc R) (addr : SocketAddr) (net : Network S R P)
      → IsSent q
      → IsAt true addr net
      → hand_over codec st q addr net ≡ some (deliver st q addr net, turn_of q)
  unfolding hand_over deliver
  hand_over-IsAt q addr [] s h = elim h [ ]
  hand_over-IsAt q addr ((a, v) ∷ net) s h = elim (Bool-cases (same_addr a addr)) [
    | inl here ↦ rw (here, serve-IsSent q v s (rw here at h)) refl
    | inr on ↦ rw (on, hand_over-IsAt q addr net s (rw on at h), hand_over) refl
  ]

  hand_over-stopped :
      (q : PeerRpc R) (addr : SocketAddr) (net : Network S R P)
      → IsSent q
      → IsAt false addr net
      → hand_over codec st q addr net ≡ some (net, wait_turn)
  unfolding hand_over
  hand_over-stopped q addr [] s h = elim h [ ]
  hand_over-stopped q addr ((a, v) ∷ net) s h = elim (Bool-cases (same_addr a addr)) [
    | inl here ↦ rw (here, serve-stopped q v s (rw here at h)) refl
    | inr on ↦ rw (on, hand_over-stopped q addr net s (rw on at h), hand_over) refl
  ]

  -- A delivery to a node that takes requests stops no node and starts none.
  deliver-IsAt :
      (q : PeerRpc R) (addr : SocketAddr) (net : Network S R P) (b : Bool) (at_b : SocketAddr)
      → IsAt true addr net
      → IsAt b at_b net
      → IsAt b at_b (deliver st q addr net)
  unfolding deliver
  deliver-IsAt q addr [] b at_b h i = i
  deliver-IsAt q addr ((a, v) ∷ net) b at_b h i = elim (Bool-cases (same_addr a addr)) [
    | inl here ↦ elim (Bool-cases (same_addr a at_b)) [
      | inl there ↦
          let up : takes_rpcs v.current_state ≡ true = rw here at h in
          let is : takes_rpcs v.current_state ≡ b = rw there at i in
          let up' = stays_up (renewed q) (record v { sent = [] }) up in rw (here, there) (cc)
      | inr n ↦ rw (here, n) (rw n at i)
    ]
    | inr on ↦ elim (Bool-cases (same_addr a at_b)) [
      | inl there ↦ rw (on, there) (rw there at i)
      | inr n ↦ rw (on, n) (deliver-IsAt q addr net b at_b (rw on at h) (rw n at i))
    ]
  ]

  -- A vote or append request to a member whose loop takes requests.
  abbrev pub IsAsked : World S R P → Network S R P → NodeId × PeerRpc R → Type 0
  IsAsked w net (peer, q) =
      IsSent q × ((addr : SocketAddr) × (get_peer st peer w ≡ some addr) × IsAt true addr net)

  deliver_to_lem :
      (w : World S R P) (peer : NodeId) (q : PeerRpc R) (addr : SocketAddr) (net : Network S R P)
      → get_peer st peer w ≡ some addr
      → deliver_to st w (peer, q) net ≡ deliver st q addr net
  unfolding deliver_to
  deliver_to_lem w peer q addr net e = rw (e, deliver_to) refl

  forward_one-IsAsked :
      (w : World S R P) (peer : NodeId) (q : PeerRpc R) (net : Network S R P) (live : Bool)
      → IsAsked w net (peer, q)
      → (response_tx q).live ≡ live
      → forward_one codec st w (peer, q) net ≡ (
          if live
          then goes_on (deliver_to st w (peer, q) net)
          else ends (deliver_to st w (peer, q) net))
  unfolding forward_one
  forward_one-IsAsked w peer q net true (s, (addr, found, there)) e =
      rw
        (
          deliver_to_lem w peer q addr net found,
          found,
          hand_over-IsAt q addr net s there,
          e,
          forward_one,
        )
        refl
  forward_one-IsAsked w peer q net false (s, (addr, found, there)) e =
      rw
        (
          deliver_to_lem w peer q addr net found,
          found,
          hand_over-IsAt q addr net s there,
          e,
          forward_one,
        )
        refl

  -- Every address is that of a node that takes requests, or of none that does, as before.
  abbrev Keeps : Network S R P → Network S R P → Type 0
  Keeps net net' = (b : Bool) (addr : SocketAddr) → IsAt b addr net → IsAt b addr net'

  deliver_to-Keeps :
      (w : World S R P) (peer : NodeId) (q : PeerRpc R) (net : Network S R P)
      → IsAsked w net (peer, q)
      → Keeps net (deliver_to st w (peer, q) net)
  deliver_to-Keeps w peer q net (s, (addr, found, there)) b at_b i =
      rw (deliver_to_lem w peer q addr net found) (deliver-IsAt q addr net b at_b there i)

  still-IsAsked :
      (xs : List (NodeId × PeerRpc R)) (net net' : Network S R P) (w : World S R P)
      → Keeps net net'
      → All (IsAsked w net) xs
      → All (IsAsked w net') xs
  still-IsAsked [] net net' w keep a = tt
  still-IsAsked ((peer, q) ∷ xs) net net' w keep a =
      ((a.0.0, (a.0.1.0, a.0.1.1, keep true a.0.1.0 a.0.1.2)), still-IsAsked xs net net' w keep a.1)

  forward-IsAsked :
      (w : World S R P) (xs : List (NodeId × PeerRpc R)) (net : Network S R P)
      → All (IsAsked w net) xs
      → All IsAwaited xs
      → (forward codec st w xs net ≡ goes_on (deliver_all st w xs net))
        × Keeps net (deliver_all st w xs net)
  unfolding forward deliver_all
  forward-IsAsked w [] net a l = (refl, λ b addr x. x)
  forward-IsAsked w ((peer, q) ∷ xs) net a l =
      let keep = deliver_to-Keeps w peer q net a.0 in
      let net' = deliver_to st w (peer, q) net in
      let (e, keep') = forward-IsAsked w xs net' (still-IsAsked xs net net' w keep a.1) l.1 in
      (
        rw (forward_one-IsAsked w peer q net true a.0 l.0, forward) e,
        λ b addr x. keep' b addr (keep b addr x),
      )

  alone :
      (w : World S R P) (rest : List (NodeId × PeerRpc R)) (x : NodeId × PeerRpc R)
      (net net₁ : Network S R P) (o : Forwarding S R P)
      → forward codec st w [] net ≡ goes_on net₁
      → forward_one codec st w x net₁ ≡ o
      → ((net₂ : Network S R P) → o ≡ goes_on net₂ → ⊥)
      → forward codec st w (x ∷ rest) net ≡ o
  unfolding forward
  alone w rest x net net₁ (goes_on n) e f last = absurd (last n refl)
  alone w rest x net net₁ (ends n) e f last = ground arith
  alone w rest x net net₁ (waits n) e f last = ground arith

  then_one :
      (w : World S R P) (before rest : List (NodeId × PeerRpc R)) (x : NodeId × PeerRpc R)
      (net net₁ : Network S R P) (o : Forwarding S R P)
      → forward codec st w before net ≡ goes_on net₁
      → forward_one codec st w x net₁ ≡ o
      → ((net₂ : Network S R P) → o ≡ goes_on net₂ → ⊥)
      → forward codec st w (before ++ x ∷ rest) net ≡ o
  unfolding forward
  then_one w [] rest x net net₁ o e f last = alone w rest x net net₁ o e f last
  then_one w (y ∷ before) rest x net net₁ o e f last =
      go (forward_one codec st w y net) e (λ n h. then_one w before rest x n net₁ o h f last)
    where
      go :
          (p : Forwarding S R P)
          → (elim p [
            | goes_on n ↦ forward codec st w before n
            | ends n ↦ ends n
            | waits n ↦ waits n
          ])
            ≡ goes_on net₁
          → ((n : Network S R P)
              → forward codec st w before n ≡ goes_on net₁
              → forward codec st w (before ++ x ∷ rest) n ≡ o)
          → (elim p [
            | goes_on n ↦ forward codec st w (before ++ x ∷ rest) n
            | ends n ↦ ends n
            | waits n ↦ waits n
          ])
            ≡ o
      go (goes_on n) h later = later n h
      go (ends n) h later = absurd (ground arith)
      go (waits n) h later = absurd (ground arith)

  -- Over a wire format that reads back what it wrote and lawful stores that do not fail: if the requests
  -- that a node has sent are vote and append requests to members whose loops take requests, and
  -- their senders still wait, then the loop goes on, and each member has handled its requests in
  -- their order, and nothing else was done to a node. The first request whose sender has given up is
  -- still handled by its member, but then the loop ends: no request after it is handled by anyone.
  pub forward_stops :
      (w : World S R P) (before rest : List (NodeId × PeerRpc R)) (peer : NodeId) (q : PeerRpc R)
      (net : Network S R P)
      → All (IsAsked w net) before
      → All IsAwaited before
      → IsAsked w net (peer, q)
      → (response_tx q).live ≡ false
      → (forward codec st w before net ≡ goes_on (deliver_all st w before net))
        × (forward codec st w (before ++ (peer, q) ∷ rest) net
            ≡ ends (deliver_to st w (peer, q) (deliver_all st w before net)))
  forward_stops w before rest peer q net asked awaited (s, (addr, found, there)) gone =
      let (e, keep) = forward-IsAsked w before net asked awaited in
      let net₁ = deliver_all st w before net in
      (
        e,
        then_one w before rest (peer, q) net net₁ (ends (deliver_to st w (peer, q) net₁)) e
            (forward_one-IsAsked w peer q net₁ false (s, (addr, found, keep true addr there)) gone)
            (λ net₂ h. absurd (ground (arith, h))),
      )

  forward_one-stopped :
      (w : World S R P) (peer : NodeId) (q : PeerRpc R) (addr : SocketAddr) (net : Network S R P)
      → IsSent q
      → get_peer st peer w ≡ some addr
      → IsAt false addr net
      → forward_one codec st w (peer, q) net ≡ waits net
  unfolding forward_one
  forward_one-stopped w peer q addr net s found down =
      rw (found, hand_over-stopped q addr net s down, forward_one) refl

  -- Over a wire format that reads back what it wrote and lawful stores that do not fail: if a node sends
  -- a vote or append request to a member that was shut down but still accepts connections, after
  -- requests of which all senders still wait to members whose loops take requests, then these are
  -- handled, and the loop waits for ever: no later request of the node is handled by anyone.
  pub forward_waits :
      (w : World S R P) (before rest : List (NodeId × PeerRpc R)) (peer : NodeId) (q : PeerRpc R)
      (addr : SocketAddr) (net : Network S R P)
      → All (IsAsked w net) before
      → All IsAwaited before
      → IsSent q
      → get_peer st peer w ≡ some addr
      → IsAt false addr net
      → forward codec st w (before ++ (peer, q) ∷ rest) net ≡ waits (deliver_all st w before net)
  forward_waits w before rest peer q addr net asked awaited s found down =
      let (e, keep) = forward-IsAsked w before net asked awaited in
      let net₁ = deliver_all st w before net in
      then_one w before rest (peer, q) net net₁ (waits net₁) e
        (forward_one-stopped w peer q addr net₁ s found (keep false addr down))
        (λ net₂ h. absurd (ground (arith, h)))
