-- ===== src/Degraded.antt =====
-- orchestrator/degraded.py: the degradation mode of the process, from its failure counters.
--
-- `_STATE` is a record that each function returns anew; the thresholds come from the environment.
pub mod Modes
mod Examples
use fastapi_alertengine.Prelude.{
  ℕ, ◌+◌, Bool, true, false, List, [], ◌∷◌, ltb, leb, if◌then◌else◌, not,
}

pub data Mode : Type 0 where
  normal degraded emergency : Mode

pub record Thresholds : Type 0 where
  pub redis_failure : ℕ
  pub notify_failure : ℕ
  pub reset_s : ℕ

pub record State : Type 0 where
  pub mode : Mode
  pub entered_at : ℕ
  pub redis_failures : ℕ
  pub notify_failures : ℕ
  pub health_fetch_failures : ℕ
  pub last_reset : ℕ

-- `_STATE` when the module is loaded
abbrev pub initial : ℕ → State
initial now = record {
  mode = normal;
  entered_at = 0;
  redis_failures = 0;
  notify_failures = 0;
  health_fetch_failures = 0;
  last_reset = now;
}

abbrev pub same_mode : Mode → Mode → Bool
same_mode normal normal = true
same_mode degraded degraded = true
same_mode emergency emergency = true
same_mode _ _ = false

-- `_enter_mode`
unfoldable pub enter_mode : Mode → ℕ → State → State
enter_mode mode now s =
    if same_mode s.mode mode then s else record s { mode = mode; entered_at = now }

-- `_check_thresholds`
unfoldable pub check_thresholds : Thresholds → ℕ → State → State
unfolding enter_mode
check_thresholds th now s =
    if leb th.redis_failure s.redis_failures
    then enter_mode emergency now s
    else if leb th.notify_failure s.notify_failures
    then enter_mode degraded now s
    else s

unfoldable pub record_redis_failure : Thresholds → ℕ → State → State
unfolding check_thresholds
record_redis_failure th now s =
    check_thresholds th now (record s { redis_failures = s.redis_failures + 1 })

unfoldable pub record_notify_failure : Thresholds → ℕ → State → State
unfolding check_thresholds
record_notify_failure th now s =
    check_thresholds th now (record s { notify_failures = s.notify_failures + 1 })

unfoldable pub record_health_fetch_failure : State → State
record_health_fetch_failure s = record s { health_fetch_failures = s.health_fetch_failures + 1 }

-- `if mode != "NORMAL": _enter_mode("NORMAL")`
abbrev back_to_normal : ℕ → State → State
back_to_normal now s = if not (same_mode s.mode normal) then enter_mode normal now s else s

-- `now - last_reset > DEGRADED_RESET_S` is written with no subtraction.
unfoldable pub record_success : Thresholds → ℕ → State → State
unfolding enter_mode
record_success th now s =
    if ltb (s.last_reset + th.reset_s) now
    then record (back_to_normal now s) { redis_failures = 0; notify_failures = 0; last_reset = now }
    else s

unfoldable pub can_mutate_state : State → Bool
can_mutate_state s = not (same_mode s.mode emergency)

unfoldable pub can_escalate : State → Bool
can_escalate s = same_mode s.mode normal

unfoldable pub can_send_notifications : State → Bool
can_send_notifications s = not (same_mode s.mode emergency)

-- What the rest of the process reports.
pub data Event : Type 0 where
  redis_failure notify_failure health_fetch_failure success : Event

unfoldable pub report : Thresholds → Event → ℕ → State → State
unfolding record_redis_failure record_notify_failure record_health_fetch_failure record_success
report th redis_failure now s = record_redis_failure th now s
report th notify_failure now s = record_notify_failure th now s
report th health_fetch_failure now s = record_health_fetch_failure s
report th success now s = record_success th now s

unfoldable pub report_all : Thresholds → List (Event × ℕ) → State → State
report_all th [] s = s
report_all th ((e, now) ∷ es) s = report_all th es (report th e now s)
