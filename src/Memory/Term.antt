-- ===== src/Memory/Term.antt =====
-- What `MemoryState` does to the stored term.
use zeroraft.Base.{ℕ, ◌≡◌, List, ◌++◌, after, last?, ap, ◌∙◌}
use zeroraft.Store.{LogEntry}
use zeroraft.Store.Laws.{term_or_zero}
use zeroraft.Memory.{MemoryState, push_all, append_entries, memory}
use zeroraft.Memory.Laws.{push_all-append, last_term}

-- Storing a term and then appending entries leaves the term of the log's last entry in its place,
-- or 0 for an empty log, whatever the stored term was: so a heartbeat, which appends no entries,
-- makes the store forget every term that has no entry yet.
append_entries-store_current_term :
    {R : Type 0} (s : MemoryState R) (t : ℕ) (es : List (LogEntry R))
    → (after (append_entries es (after (memory.store_current_term t s)))).current_term
      ≡ term_or_zero (last? (s.entries ++ es))
unfolding append_entries
append_entries-store_current_term s t es =
    last_term (record s { current_term = t; entries = push_all s.entries es })
    ∙ ap (λ l. term_or_zero (last? l)) (push_all-append s.entries es)
