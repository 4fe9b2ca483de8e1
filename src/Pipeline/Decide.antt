-- ===== src/Pipeline/Decide.antt =====
-- orchestrator/pipeline.py: `decide`, `decide_new_incident`, `validate_decision_schema`, `_noop`.
--
-- The health report and the model's answer are JSON from outside; each field that the code takes
-- with `get` may be missing.
use fastapi_alertengine.Prelude.{
  ℕ, ◌*◌, String, Bool, true, false, Option, none, some, List, [], ◌∷◌, ◌++◌, str_eq, ltb, ◌&&◌,
  or_default, if◌then◌else◌, is_some, not,
}
use fastapi_alertengine.IncidentPolicy.{unit, Policy, should_recover}
use fastapi_alertengine.Pipeline.Stage.{
  Stage, detected, proposed, validated, authorized, recovered, stage_eq, allowed_transitions,
}
use fastapi_alertengine.Pipeline.Incident.{Incident}

pub data HealthStatus : Type 0 where
  healthy degraded critical : HealthStatus
  other : String → HealthStatus

-- The fields of a health report that the orchestrator reads.
pub record Health : Type 0 where
  pub status : Option HealthStatus
  pub score : Option ℕ
  pub p95 : Option ℕ
  pub error_rate : Option ℕ

-- `health.get("health_score", {}).get("score", 100)`
abbrev pub score_of : Health → ℕ
score_of h = or_default h.score (100 * unit)

abbrev pub error_rate_of : Health → ℕ
error_rate_of h = or_default h.error_rate 0

pub data ClaudeAction : Type 0 where
  escalate validate suppress recover : ClaudeAction
  other : String → ClaudeAction

-- A value that `float` converts, or at which it raises.
pub data Number : Type 0 where
  number : ℕ → Number
  not_a_number : Number

pub record Claude : Type 0 where
  pub action : Option ClaudeAction
  pub confidence : Option Number
  pub reason : Option String
  pub actor : Option String

pub data Notification : Type 0 where
  critical validation recovery : Notification

pub data Action : Type 0 where
  send_notification : Notification → Action
  generate_token escalate : Action

pub record Decision : Type 0 where
  pub next_stage : Option Stage
  pub actions : List Action
  pub reason : String
  pub confidence : ℕ
  pub actor : Option String

unfoldable pub noop : String → ℕ → Decision
noop reason confidence = record {
  next_stage = none;
  actions = [];
  reason = reason;
  confidence = confidence;
  actor = none;
}

-- `should_recover` of the module: the policy's, or the one defined where its import fails.
unfoldable pub recovered_by : Option Policy → ℕ → ℕ → Bool
unfolding should_recover
recovered_by none score err = ltb (70 * unit) score && ltb err 50_000
recovered_by (some policy) score err = should_recover policy score err

-- the actions that go with the next stage
unfoldable pub actions_for : Stage → List Action
actions_for next_stage =
    (if stage_eq next_stage proposed then send_notification critical ∷ [] else [])
    ++ (if stage_eq next_stage validated
        then generate_token ∷ send_notification validation ∷ []
        else [])
    ++ (if stage_eq next_stage authorized then escalate ∷ [] else [])

-- `reason or "System metrics recovered"`
abbrev or_recovered : String → String
or_recovered reason = if str_eq reason "" then "System metrics recovered" else reason

-- the body of the `try`, once `float` has returned
unfoldable pub decide_with : Option Policy → Incident → Health → String → ℕ → Decision
unfolding recovered_by actions_for noop
decide_with policy incident health reason confidence =
    if recovered_by policy (score_of health) (error_rate_of health)
    then record {
      next_stage = some recovered;
      actions = send_notification recovery ∷ [];
      reason = or_recovered reason;
      confidence = confidence;
      actor = some "policy";
    }
    else (elim (allowed_transitions (some (or_default incident.stage detected))) [
      | none ↦ noop reason confidence
      | some next_stage ↦ record {
        next_stage = some next_stage;
        actions = actions_for next_stage;
        reason = reason;
        confidence = confidence;
        actor = none;
      }
    ])

unfoldable pub decide : Option Policy → Incident → Health → Claude → Decision
unfolding decide_with noop
decide policy incident health claude = elim (or_default claude.confidence (number 0)) [
  | number confidence ↦ decide_with policy incident health (or_default claude.reason "") confidence
  | not_a_number ↦ noop "decide() error" 0
]

-- `summary` stands for the f-string of the two numbers.
unfoldable pub decide_new_incident : (ℕ → ℕ → String) → String → ℕ → ℕ → ℕ → ℕ → Decision
decide_new_incident summary incident_id score p95 err confidence = record {
  next_stage = some detected;
  actions = send_notification critical ∷ [];
  reason = summary score err;
  confidence = confidence;
  actor = none;
}

-- A decision dict as `validate_decision_schema` meets it: which keys it has, and of which kind the
-- values are that the function looks at.
pub data Kind : Type 0 where
  list numeric other : Kind

pub record Schema : Type 0 where
  pub has_next_stage : Bool
  pub actions : Option Kind
  pub has_reason : Bool
  pub confidence : Option Kind

pub data SchemaVerdict : Type 0 where
  ok missing_fields actions_not_list confidence_not_numeric : SchemaVerdict

abbrev pub is_list : Option Kind → Bool
is_list (some list) = true
is_list _ = false

abbrev pub is_numeric : Option Kind → Bool
is_numeric (some numeric) = true
is_numeric _ = false

unfoldable pub validate_decision_schema : Schema → SchemaVerdict
validate_decision_schema d =
    if not (d.has_next_stage && is_some d.actions && d.has_reason && is_some d.confidence)
    then missing_fields
    else if not (is_list d.actions)
    then actions_not_list
    else if not (is_numeric d.confidence)
    then confidence_not_numeric
    else ok

-- the keys and kinds of the dict that `Decision` stands for
unfoldable pub schema_of : Decision → Schema
schema_of d = record {
  has_next_stage = true;
  actions = some list;
  has_reason = true;
  confidence = some numeric;
}
