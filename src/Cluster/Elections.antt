-- ===== src/Cluster/Elections.antt =====
-- Whom the candidates of a cluster ask that was made by `RaftNodeCluster::new_with_config`.
use zeroraft.Base.{
  ℕ, ◌≡◌, ◌≢◌, ◌↔◌, refl, sym, ap, ◌∙◌, [], ◌∷◌, true, false, Option, some, ok, keys, contains, All,
  All-In, In, inl, inr, arith, subst,
}
use zeroraft.Store.{NodeId, HashMap}
use zeroraft.Memory.{MemoryState, memory}
use zeroraft.Channels.{Mpsc}
use zeroraft.Server.Build.{RaftNodeServer, Defaults}
use zeroraft.Cluster.{RaftNodeCluster, RaftNodeClusterConfig, new_with_config}
use zeroraft.Cluster.Laws.{IsUnique}
use zeroraft.Cluster.Servers.{IsReady, addresses, new_with_config_lem}
use zeroraft.Role.Candidate.{Election, get_unack_peers}
use zeroraft.Role.Candidate.Peers.{asked, get_unack_peers_lem}

module _ {mpsc : Mpsc} {R : Type 0} where
  keys-addresses :
      (servers : HashMap (RaftNodeServer mpsc R)) → keys (addresses servers) ≡ keys servers
  keys-addresses [] = refl
  keys-addresses ((k, s) ∷ rest) = ap (λ ks. k ∷ ks) (keys-addresses rest)

  made-IsReady :
      (d : Defaults) (new_v4 : ℕ → NodeId) (config : RaftNodeClusterConfig) (n : ℕ)
      (c : RaftNodeCluster mpsc R)
      → IsUnique new_v4
      → new_with_config mpsc d new_v4 n config ≡ some c
      → All (IsReady config (addresses c.servers)) c.servers
  made-IsReady d new_v4 config n c u made = elim (new_with_config_lem mpsc R d new_v4 config n u) [
    | inl (_, c', made', _, _, ready) ↦
        let same : c' ≡ c = ground (arith, made, made') in
        subst (λ (x : RaftNodeCluster mpsc R). All (IsReady config (addresses x.servers)) x.servers)
          same ready
    | inr (_, none_made) ↦ absurd (ground (arith, made, none_made))
  ]

module _ {mpsc : Mpsc} {R P : Type 0} where
  -- If the fresh ids are different: a candidate on the node of any server of a cluster that is made with
  -- another server beside it, while the node has the members that it was made with, and its session
  -- listens and has no result, asks exactly the other servers of the cluster that have not
  -- answered yet, and does not take itself for the only member.
  pub new_with_config-asks :
      (d : Defaults) (new_v4 : ℕ → NodeId) (config : RaftNodeClusterConfig) (n : ℕ)
      (c : RaftNodeCluster mpsc R) (k j : NodeId) (s : RaftNodeServer mpsc R)
      (e : Election (MemoryState R) R P)
      → IsUnique new_v4
      → new_with_config mpsc d new_v4 n config ≡ some c
      → In (k, s) c.servers
      → contains j (keys c.servers) ≡ true
      → j ≢ k
      → e.id ≡ s.node.id
      → e.state.membership ≡ s.node.state.membership
      → e.listening ≡ true
      → e.results ≡ []
      → (asks : Option _) × (get_unack_peers memory e ≡ ok asks e)
        × ((q : NodeId)
            → (asked q asks ≡ true)
              ↔ (contains q (keys c.servers) ≡ true) × (q ≢ k) × (contains q e.ack_peers ≡ false))
  new_with_config-asks d new_v4 config n c k j s e u made inside other apart id members live
        silent =
      let ready =
        All-In (IsReady config (addresses c.servers)) (k, s) c.servers
          (made-IsReady d new_v4 config n c u made) inside in
      let own : e.id ≡ k = id ∙ ready.node_id in
      let known : keys e.state.membership ≡ keys c.servers =
        ap keys (members ∙ ready.knows) ∙ keys-addresses c.servers in
      let (asks, e', found, asks_iff, or_alone) = get_unack_peers_lem memory e live silent in
      elim or_alone [
        | inl same ↦ (asks, found ∙ ap (ok asks) same, λ q. ground (arith, asks_iff q, own, known))
        | inr (_, alone) ↦
            absurd (apart (alone j (subst (λ ks. contains j ks ≡ true) (sym known) other) ∙ own))
      ]
