-- ===== src/Tests/Breakers.antt =====
-- Concrete runs of the circuit breaker.
use kalshi.Common.{◌≤◌, ◌<◌, ◌≡◌, ◌↔◌, refl, false, List, [], ◌∷◌, arith}
use kalshi.Common.Int.{ℤ}
use kalshi.Float.Fixed.{fixed, fixed-FloatOrder, fixed-FloatArith}
use kalshi.Breaker.{
  closed, opened, half_open, new, on_success, on_failure, check_failure_rate, enter, within_window,
  should_attempt_reset,
}
use kalshi.Breaker.Counting.{Event, entering, succeeding, failing, step, run, IsSound, run-IsSound}
use kalshi.Breaker.Window.{recent, check_failure_rate-opens, recovered_reopens}
use kalshi.Breaker.Phases.{successes, closing_needs_successes, opened_refuses}
use kalshi.Breaker.Manager.{Breakers}
use kalshi.Tests.Data.{at, breaker_config, breaker_in}

-- Two failures open the breaker, the wait passes, and one success closes it.
abbrev events : List (Event ℤ)
events = failing (at 90) ∷ failing (at 100) ∷ entering (at 200) ∷ succeeding (at 201) ∷ []

events_close : (run events (new "k" breaker_config (at 0))).state ≡ closed
unfolding run step new on_failure enter check_failure_rate on_success should_attempt_reset
    within_window
events_close = refl

run-IsSound_example : IsSound (run events (new "k" breaker_config (at 0)))
run-IsSound_example = run-IsSound "k" breaker_config (at 0) events (omega arith)

closing_needs_successes_example :
    1 ≤ successes {A = ℤ} (entering (at 200) ∷ succeeding (at 201) ∷ [])
unfolding run step enter check_failure_rate on_success should_attempt_reset within_window
closing_needs_successes_example =
    closing_needs_successes (entering (at 200) ∷ succeeding (at 201) ∷ []) (breaker_in opened) refl
      (refl, (refl, tt)) refl

opened_refuses_example :
    enter (at 130) (run (entering (at 110) ∷ failing (at 120) ∷ []) (breaker_in opened))
    ≡ (run (entering (at 110) ∷ failing (at 120) ∷ []) (breaker_in opened), false)
opened_refuses_example =
    opened_refuses (entering (at 110) ∷ failing (at 120) ∷ []) (at 130) (breaker_in opened) refl
      (refl, (tt, tt)) refl

check_failure_rate-opens_example :
    ((check_failure_rate (at 150) (breaker_in closed)).state ≡ opened)
    ↔ ((2 ≤ recent (at 150 0) (breaker_in closed)) × (0 < recent (at 150 1) (breaker_in closed)))
check_failure_rate-opens_example =
    check_failure_rate-opens fixed-FloatOrder fixed-FloatArith (at 150) (breaker_in closed) refl
      refl refl

recovered_reopens_example :
    ((on_success (at 201) (breaker_in half_open)).state ≡ closed)
    × ((enter (at 202) (on_success (at 201) (breaker_in half_open))).1 ≡ false)
    × ((enter (at 202) (on_success (at 201) (breaker_in half_open))).0.state ≡ opened)
unfolding within_window
recovered_reopens_example =
    recovered_reopens fixed-FloatOrder fixed-FloatArith (at 201) (at 202) (breaker_in half_open)
      refl (omega arith) refl refl (omega arith) (omega arith) refl

abbrev two : Breakers ℤ
two = ("a", breaker_in opened) ∷ ("b", breaker_in half_open) ∷ []
