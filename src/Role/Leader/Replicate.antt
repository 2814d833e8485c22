-- ===== src/Role/Leader/Replicate.antt =====
-- What a follower holds after it has taken the entries that a leader composed for it.
use zeroraft.Base.{
  ℕ, ◌+◌, ◌-◌, ◌≤◌, ◌<◌, ◌≡◌, refl, sym, ap, ◌∙◌, List, ◌++◌, true, false, Option, some, ok,
  Returns, Returns-mono, arith, suc, get_elem?, get_elem?-take, get_elem?-take_self,
  lt_of_get_elem?, length, lookup, take, drop, take-append-drop, length-take, length-drop,
  length-append,
}
use zeroraft.Store.{State, NodeId, LogEntry}
use zeroraft.Store.Laws.{IsState, IsReliable, entry_at}
use zeroraft.Rpc.{AppendEntriesRequest, AppendEntriesResponse}
use zeroraft.Node.{World}
use zeroraft.Role.Common.{respond_to_append_entries, term_differs}
use zeroraft.Role.Common.Append.{AppendAnswer, Matches, respond_to_append_entries_lem}
use zeroraft.Role.Leader.{Lead, compose_append_entries_request}

module _ {S R P : Type 0} {base : ℕ} {st : State S R} (laws : IsState base st) where
  open laws use {view}

  -- What a leader puts into a request for a peer with the next index `n + 1`.
  pub compose_append_entries_request_lem :
      (l : Lead S R P) (peer : NodeId) (n : ℕ) (m : Option ℕ) (e : LogEntry R)
      → l.write_locked ≡ false
      → lookup peer l.peers ≡ some (n + 1, m)
      → entry_at base (view l.state).log n ≡ some e
      → compose_append_entries_request st peer l
        ≡ ok
            (record {
              term = l.current_term;
              leader_id = l.id;
              last_commit_index = (view l.state).commit;
              prev_log_index = n;
              prev_log_term = e.term;
              entries = drop (n + 1 - base) (view l.state).log;
            })
            l
  unfolding compose_append_entries_request
  compose_append_entries_request_lem l peer n m e free known there =
      let c = laws.commit_lem l.state in
      let g = laws.entry_lem n l.state in let d = laws.entries_lem (n + 1) l.state in ground arith

-- The request that a leader with the log `log` composes, numbered from `base`, after the entry `n`.
abbrev pub Follows :
    {R : Type 0} → AppendEntriesRequest R → List (LogEntry R) → ℕ → ℕ → LogEntry R → Type 0
Follows request log base n e =
    (request.prev_log_index ≡ n)
    × (request.prev_log_term ≡ e.term)
    × (request.entries ≡ drop (n + 1 - base) log)

agreed :
    {R : Type 0} (F L : List (LogEntry R)) (k : ℕ) (e : LogEntry R)
    (request : AppendEntriesRequest R)
    → Follows request L 1 (suc k) e
    → entry_at 1 L (suc k) ≡ some e
    → take (suc k) F ≡ take (suc k) L
    → Matches 1 F request
unfolding term_differs
agreed F L k e request f there same =
    let long = lt_of_get_elem? L k e there in
    let lf = length-take (suc k) F in
    let ll = length-take (suc k) L in
    let here : get_elem? F k ≡ some e =
      sym (get_elem?-take (suc k) F k (omega arith))
      ∙ ap (λ l. get_elem? l k) same
      ∙ get_elem?-take (suc k) L k (omega arith)
      ∙ there in
    (omega (arith, ap length same), rw (f.0, f.1, here) (ground arith))

module _ {S R P : Type 0} {st : State S R} (laws : IsState 1 st) (rel : IsReliable st) where
  open laws use {view}

  pub Replicated-answer :
      (l : List (LogEntry R)) (w w' : World S R P) (k : ℕ) (e : LogEntry R)
      (request : AppendEntriesRequest R) (r : AppendEntriesResponse)
      → Follows request l 1 (suc k) e
      → w.current_term ≤ request.term
      → entry_at 1 l (suc k) ≡ some e
      → take (suc k) (view w.state).log ≡ take (suc k) l
      → AppendAnswer 1 view request w w' r
      → (view w'.state).log ≡ l
  Replicated-answer l w w' k e request r f fresh there same a =
      a.log_replaced (a.accepted_if fresh (agreed (view w.state).log l k e request f there same))
      ∙ rw (f.0, f.2, same)
          (let d : suc k + 1 - 1 ≡ suc k = omega arith in rw d (take-append-drop (suc k) l))

  -- Over a lawful store that does not fail and that numbers its entries from 1, as the trait asks,
  -- while nobody holds the write guard of the peers: the request that a leader composes for a peer
  -- with the next index `k + 2`, where its log has an entry `k + 1`, makes the log of a follower that
  -- can still answer equal to the leader's, if the two agree up to that entry and the leader's term
  -- is not stale.
  pub replicate_lem :
      (l : Lead S R P) (peer : NodeId) (k : ℕ) (m : Option ℕ) (e : LogEntry R) (w : World S R P)
      → l.write_locked ≡ false
      → lookup peer l.peers ≡ some (suc k + 1, m)
      → entry_at 1 (view l.state).log (suc k) ≡ some e
      → w.current_term ≤ l.current_term
      → take (suc k) (view w.state).log ≡ take (suc k) (view l.state).log
      → (request : AppendEntriesRequest R) × (compose_append_entries_request st peer l
          ≡ ok request l)
        × Returns
            (respond_to_append_entries st request (record { live = true }) w)
            (λ w'. (view w'.state).log ≡ (view l.state).log)
  replicate_lem l peer k m e w free known there fresh same =
      let request : AppendEntriesRequest R = record {
        term = l.current_term;
        leader_id = l.id;
        last_commit_index = (view l.state).commit;
        prev_log_index = suc k;
        prev_log_term = e.term;
        entries = drop (suc k + 1 - 1) (view l.state).log;
      } in
      (
        request,
        compose_append_entries_request_lem laws l peer (suc k) m e free known there,
        Returns-mono (respond_to_append_entries st request (record { live = true }) w) _ _
            (λ w' a.
              Replicated-answer (view l.state).log w w' k e request a.0 (refl, refl, refl) fresh
                there same a.1)
            (respond_to_append_entries_lem laws rel request w),
      )

module _ {S R P : Type 0} {st : State S R} (laws : IsState 0 st) (rel : IsReliable st) where
  open laws use {view}

  Shortened-answer :
      (l : List (LogEntry R)) (w w' : World S R P) (n : ℕ) (e : LogEntry R)
      (request : AppendEntriesRequest R) (r : AppendEntriesResponse)
      → Follows request l 0 n e
      → w.current_term ≤ request.term
      → n < length l
      → (view w.state).log ≡ take n l
      → AppendAnswer 0 view request w w' r
      → (r.success ≡ true) × (length (view w'.state).log + 1 ≡ length l)
  unfolding term_differs
  Shortened-answer l w w' n e request r f fresh long same a =
      let accepted = a.accepted_if fresh (
        rw (same, f.0) (omega (arith, length-take n l)),
        rw (same, f.0, get_elem?-take_self n l),
      ) in
      let d : n + 1 - 0 ≡ n + 1 = omega arith in
      let log' : (view w'.state).log ≡ take n (take n l) ++ drop (n + 1) l =
        a.log_replaced accepted ∙ rw (same, f.0, f.2, d) in
      (
        accepted,
        omega (
          arith,
          ap length log',
          length-append (take n (take n l)) (drop (n + 1) l),
          length-take n (take n l),
          length-take n l,
          length-drop (n + 1) l,
        ),
      )

  -- Over a lawful store that does not fail and that numbers its entries from 0, as `MemoryState`
  -- does, while nobody holds the write guard of the peers: the request that a leader composes for a
  -- peer with the next index `n + 1`, where its log has an entry `n`, handled by a follower that
  -- can answer, whose term is not later and that holds the `n` entries before that one, leaves it
  -- one entry short of the leader.
  pub replicate_skips :
      (l : Lead S R P) (peer : NodeId) (n : ℕ) (m : Option ℕ) (e : LogEntry R) (w : World S R P)
      → l.write_locked ≡ false
      → lookup peer l.peers ≡ some (n + 1, m)
      → get_elem? (view l.state).log n ≡ some e
      → w.current_term ≤ l.current_term
      → (view w.state).log ≡ take n (view l.state).log
      → (request : AppendEntriesRequest R) × (compose_append_entries_request st peer l
          ≡ ok request l)
        × Returns
            (respond_to_append_entries st request (record { live = true }) w)
            (λ w'. length (view w'.state).log + 1 ≡ length (view l.state).log)
  replicate_skips l peer n m e w free known there fresh same =
      let request : AppendEntriesRequest R = record {
        term = l.current_term;
        leader_id = l.id;
        last_commit_index = (view l.state).commit;
        prev_log_index = n;
        prev_log_term = e.term;
        entries = drop (n + 1 - 0) (view l.state).log;
      } in
      let long = lt_of_get_elem? (view l.state).log n e there in
      (
        request,
        compose_append_entries_request_lem laws l peer n m e free known there,
        Returns-mono (respond_to_append_entries st request (record { live = true }) w) _ _
            (λ w' a.
              (Shortened-answer (view l.state).log w w' n e request a.0 (refl, refl, refl) fresh
                long same a.1).1)
            (respond_to_append_entries_lem laws rel request w),
      )
