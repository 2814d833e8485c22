-- ===== src/Rpc.antt =====
-- zeroraft/src/request.rs, response.rs and channels.rs: the messages, and what a node sends.
pub mod Copies
use zeroraft.Base.{ℕ, List, Option, Bool}
use zeroraft.Store.{NodeId, LogEntry}

pub record AppendEntriesRequest {ℓ} (R : Type ℓ) : Type ℓ where
  pub term : ℕ
  pub leader_id : NodeId
  pub last_commit_index : ℕ
  pub prev_log_index : ℕ
  pub prev_log_term : ℕ
  pub entries : List (LogEntry R)

pub record RequestVoteRequest : Type 0 where
  pub term : ℕ
  pub candidate_id : NodeId
  pub last_log_index : ℕ
  pub last_log_term : ℕ

pub record InstallSnapshotRequest : Type 0 where
  pub term : ℕ
  pub leader_id : NodeId
  pub last_commit_index : ℕ
  pub prev_log_index : ℕ
  pub prev_log_term : ℕ

pub data MembershipConfig : Type 0 where
  single : List NodeId → MembershipConfig
  joint : List NodeId → List NodeId → MembershipConfig

pub record ConfigRequest : Type 0 where
  pub term : ℕ
  pub leader_id : NodeId
  pub last_commit_index : ℕ
  pub prev_log_index : ℕ
  pub prev_log_term : ℕ
  pub config : MembershipConfig

-- The sending half of a response channel: whether its receiver still exists, on which alone it
-- depends how a `send` ends.
pub record Sender : Type 0 where
  pub live : Bool

pub data PeerRpc {ℓ} (R : Type ℓ) : Type ℓ where
  append_entries : AppendEntriesRequest R → Sender → PeerRpc R
  request_vote : RequestVoteRequest → Sender → PeerRpc R
  install_snapshot : InstallSnapshotRequest → Sender → PeerRpc R
  config : ConfigRequest → Sender → PeerRpc R

pub record ClientRequest {ℓ} (R : Type ℓ) : Type ℓ where
  pub request : R
  pub response_tx : Sender

pub data AppendEntriesResponseReason : Type 0 where
  stale_term log_mismatch ok : AppendEntriesResponseReason

pub record AppendEntriesResponse : Type 0 where
  pub term : ℕ
  pub success : Bool
  pub id : NodeId
  pub len : ℕ
  pub reason : AppendEntriesResponseReason

pub data RequestVoteResponseReason : Type 0 where
  stale_term already_voted incomplete_log ok : RequestVoteResponseReason

pub record RequestVoteResponse : Type 0 where
  pub term : ℕ
  pub vote_granted : Bool
  pub id : NodeId
  pub reason : RequestVoteResponseReason

pub data ClientResponseReason : Type 0 where
  no_leader_yet redirect ok : ClientResponseReason

pub record ClientResponse {ℓ} (P : Type ℓ) : Type ℓ where
  pub success : Bool
  pub reason : ClientResponseReason
  pub leader_id : Option NodeId
  pub payload : Option P

-- What a node puts on a channel: a reply, a request to a peer, or a sign to itself.
pub data Output (R P : Type 0) : Type 0 where
  vote_reply : RequestVoteResponse → Output R P
  append_reply : AppendEntriesResponse → Output R P
  client_reply : ClientResponse P → Output R P
  rpc : NodeId → PeerRpc R → Output R P
