-- ===== src/Policy/Decisions.antt =====
-- What the policy lets through.
use fastapi_alertengine.Prelude.{
  ℕ, ◌≤◌, ◌<◌, ◌≡◌, ◌↔◌, String, true, false, List, arith, or_default,
}
use fastapi_alertengine.IncidentPolicy
use fastapi_alertengine.IncidentPolicy.{should_recover}
use fastapi_alertengine.Policy.{
  Thresholds, Decision, should_alert, should_escalate_voice, should_escalate_secondary, contains,
  ok, allowed_actions, validate_decision,
}

-- `validate_decision` lets a decision through exactly where its action, the empty text if it has none,
-- is not suppressed and is one of escalate, validate, suppress and recover, and its confidence, 0 if
-- it has none, is at least the minimum.
pub validate_decision_iff :
    (th : Thresholds) (suppressed : List String) (d : Decision)
    → (validate_decision th suppressed d ≡ ok) ↔ (
        (contains suppressed (or_default d.action "") ≡ false)
        × (th.min_confidence_to_act ≤ or_default d.confidence 0)
        × (contains allowed_actions (or_default d.action "") ≡ true))
unfolding validate_decision
validate_decision_iff th suppressed d = (λ h. ground arith, λ h. ground arith)

-- The metrics at which an incident may be opened are never those at which it recovers, whatever the
-- error rates of the two thresholds, if the score threshold of recovery is not below that of alerts.
pub alert_excludes_recovery :
    (th : Thresholds) (p : IncidentPolicy.Policy) (score err : ℕ)
    → th.min_score_to_alert ≤ p.recover_score
    → should_alert th score err ≡ true
    → should_recover p score err ≡ false
unfolding should_alert should_recover
alert_excludes_recovery th p score err h a = ground arith

-- If the voice escalation is due no later than the call of the secondary engineer, then whenever that
-- call is warranted the voice escalation is too, and the score is below that of alerts.
pub secondary_after_voice :
    (th : Thresholds) (duration score : ℕ)
    → th.voice_after_s ≤ th.secondary_after_s
    → should_escalate_secondary th duration score ≡ true
    → (should_escalate_voice th duration score ≡ true) × (score < th.min_score_to_alert)
unfolding should_escalate_voice should_escalate_secondary
secondary_after_voice th duration score h s = ground arith
