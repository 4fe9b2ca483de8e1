-- ===== src/Degraded/Modes.antt =====
-- The mode is a function of the failure counters.
use fastapi_alertengine.Prelude.{
  ℕ, ◌<◌, ◌≡◌, ◌↔◌, true, List, [], ◌∷◌, arith, ltb, leb, if◌then◌else◌,
}
use fastapi_alertengine.Degraded.{
  Mode, normal, degraded, emergency, Thresholds, State, initial, Event, redis_failure,
  notify_failure, health_fetch_failure, success, report, report_all, can_mutate_state, can_escalate,
  can_send_notifications,
}

-- The mode that the counters stand for: Redis failures weigh more than those of notifications.
abbrev pub mode_of : Thresholds → State → Mode
mode_of th s =
    if leb th.redis_failure s.redis_failures
    then emergency
    else if leb th.notify_failure s.notify_failures
    then degraded
    else normal

report_mode :
    (th : Thresholds) (e : Event) (now : ℕ) (s : State)
    → 0 < th.redis_failure
    → 0 < th.notify_failure
    → s.mode ≡ mode_of th s
    → (report th e now s).mode ≡ mode_of th (report th e now s)
unfolding report
report_mode th redis_failure now s a b h = ground arith
report_mode th notify_failure now s a b h = ground arith
report_mode th health_fetch_failure now s a b h = ground arith
report_mode th success now s a b h = ground arith

report_all_mode :
    (th : Thresholds) (es : List (Event × ℕ)) (s : State)
    → 0 < th.redis_failure
    → 0 < th.notify_failure
    → s.mode ≡ mode_of th s
    → (report_all th es s).mode ≡ mode_of th (report_all th es s)
unfolding report_all
report_all_mode th [] s a b h = h
report_all_mode th ((e, now) ∷ es) s a b h =
    report_all_mode th es (report th e now s) a b (report_mode th e now s a b h)

-- With thresholds above zero, after any reports at any times the mode is EMERGENCY exactly where the
-- Redis failures since the last reset have reached their threshold, DEGRADED exactly where only the
-- failed notifications have reached theirs, and NORMAL otherwise.
pub mode_exact :
    (th : Thresholds) (start : ℕ) (es : List (Event × ℕ))
    → 0 < th.redis_failure
    → 0 < th.notify_failure
    → (report_all th es (initial start)).mode ≡ mode_of th (report_all th es (initial start))
mode_exact th start es a b = report_all_mode th es (initial start) a b (ground arith)

-- With thresholds above zero, after any reports: state may be changed and notifications may be sent
-- exactly while the Redis failures are below their threshold, and escalations go out exactly while
-- the failed notifications are below theirs too.
pub gates_exact :
    (th : Thresholds) (start : ℕ) (es : List (Event × ℕ))
    → 0 < th.redis_failure
    → 0 < th.notify_failure
    → let s = report_all th es (initial start) in
      (can_mutate_state s ≡ ltb s.redis_failures th.redis_failure)
      × (can_send_notifications s ≡ ltb s.redis_failures th.redis_failure)
      × ((can_escalate s ≡ true)
          ↔ ((s.redis_failures < th.redis_failure) × (s.notify_failures < th.notify_failure)))
unfolding can_mutate_state can_send_notifications can_escalate
gates_exact th start es a b = ground (arith, mode_exact th start es)
