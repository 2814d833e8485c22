-- ===== src/Rpc/Copies.antt =====
-- `Clone` of zeroraft/src/request.rs (AppendEntriesRequest).
use zeroraft.Base.{◌≡◌, ap}
use zeroraft.Store.Copies.{clone_each, clone_each_lem}
use zeroraft.Rpc.{AppendEntriesRequest}

module _ {R : Type 0} (clone_request : R → R) where
  unfoldable clone : AppendEntriesRequest R → AppendEntriesRequest R
  unfolding clone_each
  clone r = record {
    term = r.term;
    leader_id = r.leader_id;
    last_commit_index = r.last_commit_index;
    prev_log_index = r.prev_log_index;
    prev_log_term = r.prev_log_term;
    entries = clone_each clone_request r.entries;
  }

  -- If the clone of a client request is the same request, that of an append entries request is too.
  clone_lem : ((q : R) → clone_request q ≡ q) → (r : AppendEntriesRequest R) → clone r ≡ r
  unfolding clone
  clone_lem same r =
      ap (λ es. record r { entries = es }) (clone_each_lem clone_request same r.entries)
