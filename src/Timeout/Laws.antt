-- ===== src/Timeout/Laws.antt =====
-- When a timer can be read, and what a reset gives.
use zeroraft.Base.{ℕ, ◌+◌, ◌≤◌, ◌<◌, ◌≡◌, ◌≢◌, ◌↔◌, none, some, arith}
use zeroraft.Timeout.{Timeout, range, from_millis, reset, get_remaining}

-- What the random source promises: a number of the range, unless that is empty.
abbrev pub IsInRange : (ℕ → ℕ → ℕ) → Type 0
IsInRange gen_range =
    (min max : ℕ) → min < max → (min ≤ gen_range min max) × (gen_range min max < max)

-- Reading the time that a timer has left panics exactly once its interval is over.
pub get_remaining-none_iff :
    (now : ℕ) (t : Timeout) → (get_remaining now t ≡ none) ↔ (t.started + t.current_interval < now)
unfolding get_remaining
get_remaining-none_iff now t = ground arith

-- A timer of a range that is reset over a random source that keeps to the range can be read up to the
-- lower bound of the range, and is over before the upper bound.
reset-range :
    (gen_range : ℕ → ℕ → ℕ)
    → IsInRange gen_range
    → (now min max : ℕ) (t : Timeout) → t.duration ≡ range min max
    → min < max
    → (t' : Timeout) × (reset gen_range now t ≡ some t')
      × (t'.duration ≡ t.duration)
      × ((later : ℕ) → later ≤ now + from_millis min → get_remaining later t' ≢ none)
      × (get_remaining (now + from_millis max) t' ≡ none)
unfolding reset get_remaining
reset-range gen_range in_range now min max t e h =
    let (low, high) = in_range min max h in
    let t' : Timeout = record {
      duration = range min max;
      started = now;
      current_interval = from_millis (gen_range min max);
    } in
    (t', ground arith, ground arith, λ later l. ground arith, ground arith)
