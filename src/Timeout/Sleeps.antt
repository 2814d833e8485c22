-- ===== src/Timeout/Sleeps.antt =====
-- The tests of zeroraft/src/timeout.rs: timers beside sleeps. A test is whether its assertion holds;
-- `none` is a panic of the timer. It begins at the time `now`.
use zeroraft.Base.{ℕ, Bool, Option, none, some, leb}
use Prim.Native.Nat.{◌/◌}
use zeroraft.Timeout.{Timeout, start, start_range, reset, get_elapsed, get_interval, continuation}

-- `assert!(timeout.get_elapsed() >= timeout.get_interval())`
unfoldable assert_elapsed : ℕ → Timeout → Bool
unfolding get_elapsed get_interval
assert_elapsed now t = leb (get_interval t) (get_elapsed now t)

module _ (sleep : ℕ → ℕ → ℕ) (gen_range : ℕ → ℕ → ℕ) where
  -- Sleeping for the interval.
  slept : ℕ → Option Timeout → Option Bool
  unfolding assert_elapsed
  slept now none = none
  slept now (some t) = some (assert_elapsed (sleep now (get_interval t)) t)

  -- Sleeping for half the interval, then for what is left.
  continued : ℕ → Option Timeout → Option Bool
  unfolding assert_elapsed continuation
  continued now none = none
  continued now (some t) = elim (continuation sleep (sleep now (get_interval t / 2)) t) [
    | none ↦ none
    | some later ↦ some (assert_elapsed later t)
  ]

  -- Sleeping for half the interval, then a reset and the interval again.
  reset_and_slept : ℕ → Option Timeout → Option Bool
  unfolding slept reset
  reset_and_slept now none = none
  reset_and_slept now (some t) =
      let later = sleep now (get_interval t / 2) in slept later (reset gen_range later t)

  unfoldable pub test_fixed_timeout_elapsed_correctly : ℕ → Option Bool
  unfolding slept
  test_fixed_timeout_elapsed_correctly now = slept now (some (start now 200))

  unfoldable pub test_range_timeout_elapsed_correctly : ℕ → Option Bool
  unfolding slept
  test_range_timeout_elapsed_correctly now = slept now (start_range gen_range now (200, 400))

  unfoldable pub test_fixed_continuation_elapses_with_timeout : ℕ → Option Bool
  unfolding continued
  test_fixed_continuation_elapses_with_timeout now = continued now (some (start now 200))

  unfoldable pub test_range_continuation_elapses_with_timeout : ℕ → Option Bool
  unfolding continued
  test_range_continuation_elapses_with_timeout now =
      continued now (start_range gen_range now (200, 400))

  unfoldable pub test_fixed_timeout_can_be_reset : ℕ → Option Bool
  unfolding reset_and_slept
  test_fixed_timeout_can_be_reset now = reset_and_slept now (some (start now 200))

  unfoldable pub test_range_timeout_can_be_reset : ℕ → Option Bool
  unfolding reset_and_slept
  test_range_timeout_can_be_reset now = reset_and_slept now (start_range gen_range now (200, 400))
