-- ===== src/Role.antt =====
-- zeroraft/src/role: what a node does in each of its roles.
pub mod Common
pub mod Rpc
pub mod Late
pub mod Follower
pub mod Candidate
pub mod Leader
