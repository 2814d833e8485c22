-- ===== src/Timeout.antt =====
-- zeroraft/src/timeout.rs: timers. Times are nanoseconds on a clock that the caller reads (`now`);
-- `none` is a panic. The random source is the parameter `gen_range`.
pub mod Laws
pub mod Sleeps
use zeroraft.Base.{ℕ, ◌-◌, ◌*◌, Option, none, some, ltb, leb, if◌then◌else◌}

pub data PossibleDuration : Type 0 where
  range : ℕ → ℕ → PossibleDuration
  fixed : ℕ → PossibleDuration

pub record Timeout : Type 0 where
  pub duration : PossibleDuration
  pub started : ℕ
  pub current_interval : ℕ

-- `Duration::from_millis`
abbrev pub from_millis : ℕ → ℕ
from_millis ms = ms * 1000000

unfoldable pub start : ℕ → ℕ → Timeout
start now duration = record {
  duration = fixed duration;
  started = now;
  current_interval = from_millis duration;
}

-- `gen_range(min..max)` panics on an empty range.
unfoldable pub start_range : (ℕ → ℕ → ℕ) → ℕ → ℕ × ℕ → Option Timeout
start_range gen_range now (min, max) =
    if ltb min max
    then some (record {
      duration = range min max;
      started = now;
      current_interval = from_millis (gen_range min max);
    })
    else none

reset_as : (ℕ → ℕ → ℕ) → ℕ → PossibleDuration → Option Timeout
unfolding start start_range
reset_as gen_range now (range min max) = start_range gen_range now (min, max)
reset_as gen_range now (fixed duration) = some (start now duration)

unfoldable pub reset : (ℕ → ℕ → ℕ) → ℕ → Timeout → Option Timeout
unfolding reset_as
reset gen_range now t = reset_as gen_range now t.duration

-- `Instant::elapsed` is 0 for a start in the future.
unfoldable pub get_elapsed : ℕ → Timeout → ℕ
get_elapsed now t = now - t.started

-- `self.current_interval - self.start.elapsed()`: a subtraction of durations panics below zero.
unfoldable pub get_remaining : ℕ → Timeout → Option ℕ
unfolding get_elapsed
get_remaining now t =
    if leb (get_elapsed now t) t.current_interval
    then some (t.current_interval - get_elapsed now t)
    else none

-- `time::sleep(self.get_remaining())`: the time at which it ends. When a sleep ends is the parameter
-- `sleep`, by when it begins and how long it is to be.
unfoldable pub continuation : (ℕ → ℕ → ℕ) → ℕ → Timeout → Option ℕ
unfolding get_remaining
continuation sleep now t = elim (get_remaining now t) [
  | none ↦ none
  | some remaining ↦ some (sleep now remaining)
]

unfoldable pub get_interval : Timeout → ℕ
get_interval t = t.current_interval
