-- ===== src/Role/Late.antt =====
-- Candidates and leaders whose timers run out while they are busy.
use zeroraft.Base.{ℕ}
use zeroraft.Store.{State}
use zeroraft.Role.Candidate.Loop
use zeroraft.Role.Candidate.Loop.{Campaign}
use zeroraft.Role.Leader.Loop as LeaderLoop
use zeroraft.Role.Leader.Loop.{Leadership}

-- The arms of a message from outside.
abbrev pub IsCandidateMessage : {R : Type 0} → Loop.Event R → Type 0
IsCandidateMessage (Loop.in_rpc _) = Unit
IsCandidateMessage (Loop.in_client_request _) = Unit
IsCandidateMessage _ = ⊥

abbrev pub IsLeaderMessage : {R : Type 0} → LeaderLoop.Event R → Type 0
IsLeaderMessage (LeaderLoop.in_rpc _) = Unit
IsLeaderMessage (LeaderLoop.in_client_request _) = Unit
IsLeaderMessage _ = ⊥

module _ {S R P : Type 0} (st : State S R) (gen_range : ℕ → ℕ → ℕ) where
  abbrev candidate_at : ℕ → Campaign S R P → Campaign S R P
  candidate_at later c = record c {
    election = record c.election { world = record c.election.world { now = later } };
  }

  abbrev leader_at : ℕ → Leadership S R P → Leadership S R P
  leader_at later l = record l {
    lead = record l.lead { world = record l.lead.world { now = later } };
  }
