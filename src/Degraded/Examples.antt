-- ===== src/Degraded/Examples.antt =====
-- The theorems about the modes at a history of three Redis failures.
use fastapi_alertengine.Prelude.{ℕ, ◌≡◌, List, [], ◌∷◌, arith}
use fastapi_alertengine.Degraded.{
  Thresholds, State, initial, Event, redis_failure, notify_failure, success, report_all,
}
use fastapi_alertengine.Degraded.Modes.{mode_of, mode_exact}

-- the thresholds where no variable of the environment is set
abbrev defaults : Thresholds
defaults = record { redis_failure = 3; notify_failure = 5; reset_s = 120 }

abbrev outage : List (Event × ℕ)
outage =
    (redis_failure, 1)
    ∷ (notify_failure, 2)
    ∷ (redis_failure, 3)
    ∷ (success, 4)
    ∷ (redis_failure, 5)
    ∷ []

abbrev after : State
after = report_all defaults outage (initial 0)

mode_exact_example : after.mode ≡ mode_of defaults after
mode_exact_example = mode_exact defaults 0 outage (omega arith) (omega arith)
