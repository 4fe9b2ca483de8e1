-- ===== src/Policy.antt =====
-- orchestrator/policy.py: the hard constraints on alerts, escalations and the model's decisions.
--
-- Scores, rates and confidences are whole numbers of millionths, and durations are whole numbers of one
-- unit, as the thresholds are, which come from the environment.
pub mod Decisions
mod Examples
use fastapi_alertengine.Prelude.{
  ℕ, ◌*◌, String, Bool, true, false, Option, none, some, List, [], ◌∷◌, ltb, leb, ◌&&◌, str_eq,
  or_default, if◌then◌else◌, not,
}
use fastapi_alertengine.IncidentPolicy.{unit}

pub record Thresholds : Type 0 where
  pub min_score_to_alert : ℕ
  pub min_err_rate_to_alert : ℕ
  pub voice_after_s : ℕ
  pub secondary_after_s : ℕ
  pub min_confidence_to_act : ℕ

-- the thresholds where no variable of the environment is set
abbrev pub defaults : Thresholds
defaults = record {
  min_score_to_alert = 70 * unit;
  min_err_rate_to_alert = 100_000;
  voice_after_s = 180;
  secondary_after_s = 300;
  min_confidence_to_act = 600_000;
}

unfoldable pub should_alert : Thresholds → ℕ → ℕ → Bool
should_alert th score err_rate =
    if ltb th.min_score_to_alert score
    then false
    else if ltb err_rate th.min_err_rate_to_alert
    then false
    else true

unfoldable pub should_escalate_voice : Thresholds → ℕ → ℕ → Bool
should_escalate_voice th duration_s score =
    leb th.voice_after_s duration_s && ltb score th.min_score_to_alert

unfoldable pub should_escalate_secondary : Thresholds → ℕ → ℕ → Bool
should_escalate_secondary th duration_s score =
    leb th.secondary_after_s duration_s && ltb score th.min_score_to_alert

unfoldable pub should_open_new_incident {ℓ} : {A : Type ℓ} → Option A → Bool
should_open_new_incident none = true
should_open_new_incident (some incident) = false

-- The fields of a decision that this module reads.
pub record Decision : Type 0 where
  pub action : Option String
  pub confidence : Option ℕ

unfoldable pub should_act_on_decision : Thresholds → Decision → Bool
should_act_on_decision th decision =
    if ltb (or_default decision.confidence 0) th.min_confidence_to_act then false else true

abbrev pub contains : List String → String → Bool
contains [] x = false
contains (y ∷ ys) x = if str_eq y x then true else contains ys x

-- `suppressed` is the list that is split off the variable SUPPRESSED_ACTIONS, stripped, with the empty
-- texts left out.
unfoldable pub is_suppressed_action : List String → String → Bool
is_suppressed_action suppressed action = contains suppressed action

pub data Refusal : Type 0 where
  suppressed_by_policy : String → Refusal
  confidence_too_low : ℕ → Refusal
  unknown_action : String → Refusal

pub data Verdict : Type 0 where
  ok : Verdict
  refused : Refusal → Verdict

abbrev pub allowed_actions : List String
allowed_actions = "escalate" ∷ "validate" ∷ "suppress" ∷ "recover" ∷ []

unfoldable pub validate_decision : Thresholds → List String → Decision → Verdict
unfolding is_suppressed_action should_act_on_decision
validate_decision th suppressed decision =
    let action = or_default decision.action "" in
    if is_suppressed_action suppressed action
    then refused (suppressed_by_policy action)
    else if not (should_act_on_decision th decision)
    then refused (confidence_too_low (or_default decision.confidence 0))
    else if not (contains allowed_actions action)
    then refused (unknown_action action)
    else ok
