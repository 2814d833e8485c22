-- ===== src/Tasks/Interleaved/Elections.antt =====
-- Elections among nodes whose handlers run interleaved with their other tasks.
use zeroraft.Base.{ℕ, ◌≡◌, List, [], true, contains}
use zeroraft.Store.{State}
use zeroraft.Node.{World}
use zeroraft.Safety.{Ballot}
use zeroraft.Safety.Quorum.{Wins, VotesOnce-Wins}
use zeroraft.Tasks.{Task, done}
use zeroraft.Tasks.Interleaved.{Steps}
use zeroraft.Tasks.Interleaved.Once.{interleaved-VotesOnce}

module _ {S R P : Type 0} (st : State S R) where
  -- A term has at most one winner: two candidates with a majority of the members' votes in the same
  -- term are the same. On each member the steps of the handlers may be interleaved in any way with
  -- those of its other tasks, and a handler may fail anywhere, as long as no other task lowers the
  -- member's term and the counter of terms stays below its end.
  pub interleaved-election_safety :
      (members : List ℕ) (w v : ℕ → World S R P) (k : ℕ → Task (World S R P))
      (votes : ℕ → List Ballot)
      → ((m : ℕ) → contains m members ≡ true → Steps st done (w m) [] (k m) (v m) (votes m))
      → {t c d : ℕ} → Wins members votes t c
      → Wins members votes t d
      → c ≡ d
  interleaved-election_safety members w v k votes steps =
      VotesOnce-Wins members votes
        (λ m i. interleaved-VotesOnce st (w m) (v m) (k m) (votes m) (steps m i))
