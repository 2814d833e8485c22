-- ===== src/Role/Common/Append.antt =====
-- `respond_to_append_entries` of zeroraft/src/role/common.rs: its answer, and what it leaves behind.
use zeroraft.Base.{
  ℕ, ◌≤◌, ◌<◌, ◌≡◌, true, false, some, List, ◌∷◌, ◌++◌, arith, Returns, length, take, min, ok,
}
use zeroraft.Store.{State, LogEntry}
use zeroraft.Store.Laws.{View, IsState, IsReliable, entry_at, append_writes}
use zeroraft.Rpc.{
  AppendEntriesRequest, AppendEntriesResponse, AppendEntriesResponseReason, append_reply,
}
use zeroraft.Node.{World, follower}
use zeroraft.Role.Common.{respond_to_append_entries, term_differs}

-- The log reaches to the request's previous entry, and where it has an entry there, that is of the
-- request's previous term.
abbrev pub Matches : {R : Type 0} → ℕ → List (LogEntry R) → AppendEntriesRequest R → Type 0
Matches base log request =
    (request.prev_log_index ≤ length log)
    × (term_differs (entry_at base log request.prev_log_index) request.prev_log_term ≡ false)

-- How the node `w` answers `request` by the response `r`, and the node `w'` that it is then.
pub record AppendAnswer {S R P : Type 0} (base : ℕ) (view : S → View R)
    (request : AppendEntriesRequest R) (w w' : World S R P) (r : AppendEntriesResponse)
    : Type 0 where
  pub sent : w'.sent ≡ append_reply r ∷ w.sent
  pub from : r.id ≡ w.id
  pub term : r.term ≡ w.current_term
  pub accepted_if :
      w.current_term ≤ request.term → Matches base (view w.state).log request → r.success ≡ true
  pub stale_told : request.term < w.current_term → r.reason ≡ AppendEntriesResponseReason.stale_term
  pub mismatch_told :
      w.current_term ≤ request.term
      → r.success ≡ false
      → r.reason ≡ AppendEntriesResponseReason.log_mismatch
  pub ok_told : r.success ≡ true → r.reason ≡ AppendEntriesResponseReason.ok
  pub fresh : r.success ≡ true → w.current_term ≤ request.term
  pub matched : r.success ≡ true → Matches base (view w.state).log request
  pub log_replaced :
      r.success ≡ true
      → (view w'.state).log ≡ take request.prev_log_index (view w.state).log ++ request.entries
  pub commit_taken :
      r.success ≡ true
      → (view w'.state).commit ≡ min request.last_commit_index (length (view w'.state).log)
  pub length_told : r.success ≡ true → r.len ≡ length request.entries
  pub log_kept : r.success ≡ false → (view w'.state).log ≡ (view w.state).log
  pub commit_kept : r.success ≡ false → (view w'.state).commit ≡ (view w.state).commit
  pub stale_ignored : request.term < w.current_term → w'.node ≡ w.node
  pub leader_followed :
      w.current_term ≤ request.term
      → (w'.current_term ≡ request.term)
        × (w'.leader_id ≡ some request.leader_id)
        × (w'.last_heard_from_leader ≡ some w.now)
        × (w'.current_state ≡ follower)
  pub vote_kept : w'.voted_for ≡ w.voted_for

module _ {S R P : Type 0} {base : ℕ} {st : State S R} (laws : IsState base st) where
  open laws use {view}

  -- Over a lawful store that does not fail, with the requester still there, the call ends with `Ok`
  -- and one response, of the node's id and its term before the call. It succeeds exactly if the term
  -- is not stale and the request's previous entry matches the log; the log is then its first
  -- `prev_log_index` entries and the request's, the commit index the smaller of the leader's and the
  -- last index, and the response has the number of entries. Otherwise log and commit index stay, and
  -- the response says why. A stale request changes nothing of the node; any other makes it a follower
  -- of the sender, in its term. The vote stays.
  pub respond_to_append_entries_lem :
      IsReliable st
      → (request : AppendEntriesRequest R) (w : World S R P)
      → Returns
          (respond_to_append_entries st request (record { live = true }) w)
          λ w'. (r : AppendEntriesResponse) × AppendAnswer base view request w w' r
  unfolding respond_to_append_entries
  respond_to_append_entries_lem rel request w =
      let (s₀, s₁, s₂, s₃, e₀, v₀, e₁, e₂, i₂, e₃, v₃) =
        append_writes laws rel request.term request.prev_log_index request.last_commit_index
          request.entries w.state in
      go s₀ s₁ s₂ s₃ e₀ v₀ e₁ e₂ i₂ e₃ v₃ (laws.last_index_lem w.state)
        (laws.entry_lem request.prev_log_index s₀)
    where
      log' : List (LogEntry R)
      log' = take request.prev_log_index (view w.state).log ++ request.entries

      go :
          (s₀ s₁ s₂ s₃ : S)
          → st.store_current_term request.term w.state ≡ ok tt s₀
          → view s₀ ≡ view w.state
          → st.remove_entries_after request.prev_log_index s₀ ≡ ok tt s₁
          → st.append_entries request.entries s₁ ≡ ok tt s₂
          → st.get_last_index s₂ ≡ length log'
          → st.set_last_commit_index (min request.last_commit_index (length log')) s₂ ≡ ok tt s₃
          → view s₃ ≡ record (view w.state) {
            log = log';
            commit = min request.last_commit_index (length log');
          }
          → st.get_last_index w.state ≡ length (view w.state).log
          → st.get_entry request.prev_log_index s₀
            ≡ entry_at base (view s₀).log request.prev_log_index
          → Returns
              (respond_to_append_entries st request (record { live = true }) w)
              λ w'. (r : AppendEntriesResponse) × AppendAnswer base view request w w' r
      go s₀ s₁ s₂ s₃ e₀ v₀ e₁ e₂ i₂ e₃ v₃ i e = ground arith
