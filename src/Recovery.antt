-- ===== src/Recovery.antt =====
-- fastapi_alertengine/actions/recovery.py: the suggestions for a health score.
--
-- Scores, latencies and rates are in thousandths. The text of a reason is the numbers that it is
-- formatted from, and `uuid.uuid4` is a sequence `fresh` of identifiers.
pub mod Suggestions
use fastapi_alertengine.Prelude.{
  ℕ, ◌*◌, String, Bool, true, false, Option, none, some, List, [], ◌∷◌, ◌++◌, ltb, leb, length,
  or_default, if◌then◌else◌,
}

pub data SuggestedAction : Type 0 where
  restart alert notify : SuggestedAction

pub data Priority : Type 0 where
  critical high medium : Priority

-- the numbers of the three texts: the score, the latency and the error rate
pub data Reason : Type 0 where
  has_fallen critical_degradation : ℕ → ℕ → ℕ → Reason
  is_degraded : ℕ → ℕ → Reason

pub data Trigger : Type 0 where
  below_25 below_40 below_60 : Trigger

pub record ActionSuggestion : Type 0 where
  pub suggestion_id : String
  pub action : SuggestedAction
  pub priority : Priority
  pub reason : Reason
  pub auto_permitted : Bool
  pub token : Option String
  pub expires_at : Option ℕ
  pub health_score : ℕ
  pub triggered_by : Trigger
  pub created_at : ℕ

-- The fields of `metrics` that are read.
pub record Metrics : Type 0 where
  pub overall_p95_ms : Option ℕ
  pub error_rate : Option ℕ

abbrev pub unit : ℕ
unit = 1_000

module _ (fresh : ℕ → String) (now : ℕ) where
  -- a suggestion with the next identifier
  abbrev pub suggestion :
      List ActionSuggestion → SuggestedAction → Priority → Reason → ℕ → Trigger → ActionSuggestion
  suggestion before action priority reason score trigger = record {
    suggestion_id = fresh (length before);
    action = action;
    priority = priority;
    reason = reason;
    auto_permitted = false;
    token = none;
    expires_at = none;
    health_score = score;
    triggered_by = trigger;
    created_at = now;
  }

  unfoldable pub add_restart : ℕ → ℕ → ℕ → List ActionSuggestion → List ActionSuggestion
  add_restart score p95 err ss =
      if ltb score (25 * unit)
      then ss ++ (suggestion ss restart critical (has_fallen score p95 err) score below_25 ∷ [])
      else ss

  unfoldable pub add_alert : ℕ → ℕ → ℕ → List ActionSuggestion → List ActionSuggestion
  add_alert score p95 err ss =
      if ltb score (40 * unit)
      then ss ++ (suggestion ss alert high (critical_degradation score p95 err) score below_40 ∷ [])
      else ss

  unfoldable pub add_notify : ℕ → ℕ → List ActionSuggestion → List ActionSuggestion
  add_notify score p95 ss =
      if ltb score (60 * unit)
      then ss ++ (suggestion ss notify medium (is_degraded score p95) score below_60 ∷ [])
      else ss

  unfoldable pub suggest_actions : ℕ → Metrics → List ActionSuggestion
  suggest_actions score metrics =
      let p95 = or_default metrics.overall_p95_ms 0 in
      let err = or_default metrics.error_rate 0 in
      if leb (60 * unit) score
      then []
      else add_notify score p95 (add_alert score p95 err (add_restart score p95 err []))
