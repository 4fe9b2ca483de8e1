-- ===== src/Pipeline/Stage.antt =====
-- orchestrator/pipeline.py: `IncidentStage`, the table of transitions and the sets of stages.
use fastapi_alertengine.Prelude.{
  ℕ, String, ◌≡◌, ◌↔◌, Bool, true, false, Option, none, some, List, [], ◌∷◌, arith, str_eq, eq_iff,
}

-- `other s` is a text that no member of the enum has for its value.
pub data Stage : Type 0 where
  detected proposed validated authorized executed : Stage
  resolved recovered webhook_failed expired failed : Stage
  other : String → Stage

-- `==` on the values of two stages.
unfoldable pub stage_eq : Stage → Stage → Bool
stage_eq detected detected = true
stage_eq proposed proposed = true
stage_eq validated validated = true
stage_eq authorized authorized = true
stage_eq executed executed = true
stage_eq resolved resolved = true
stage_eq recovered recovered = true
stage_eq webhook_failed webhook_failed = true
stage_eq expired expired = true
stage_eq failed failed = true
stage_eq (other a) (other b) = str_eq a b
stage_eq _ _ = false

-- `IncidentStage.is_terminal`
unfoldable pub is_terminal : Stage → Bool
is_terminal resolved = true
is_terminal recovered = true
is_terminal expired = true
is_terminal failed = true
is_terminal _ = false

-- `IncidentStage.active_stages`
abbrev pub active_stages : List Stage
active_stages = detected ∷ proposed ∷ validated ∷ authorized ∷ executed ∷ []

-- `STAGES`
abbrev pub stages : List Stage
stages = detected ∷ proposed ∷ validated ∷ authorized ∷ executed ∷ resolved ∷ []

-- `ALLOWED_TRANSITIONS.get(current)`: a terminal stage is mapped to None, and a text that is no key
-- gives None too.
unfoldable pub allowed_transitions : Option Stage → Option Stage
allowed_transitions none = some detected
allowed_transitions (some detected) = some proposed
allowed_transitions (some proposed) = some validated
allowed_transitions (some validated) = some authorized
allowed_transitions (some authorized) = some executed
allowed_transitions (some executed) = some resolved
allowed_transitions (some s) = none

-- membership in the keys and values of `ALLOWED_TRANSITIONS`, None left out
unfoldable pub is_known : Stage → Bool
is_known (other s) = false
is_known _ = true

-- membership in `RECOVERABLE_STAGES`
unfoldable pub is_recoverable : Option Stage → Bool
is_recoverable none = false
is_recoverable (some detected) = true
is_recoverable (some proposed) = true
is_recoverable (some validated) = true
is_recoverable (some authorized) = true
is_recoverable (some executed) = true
is_recoverable (some s) = false

-- `STAGE_GATES`, read from the environment: a wait before a stage is entered.
pub record StageGates : Type 0 where
  pub detected_s : ℕ
  pub proposed_s : ℕ
  pub validated_s : ℕ
  pub authorized_s : ℕ
  pub executed_s : ℕ
  pub resolved_s : ℕ

-- `STAGE_GATES.get(stage, 0)`
unfoldable pub gate_of : StageGates → Stage → ℕ
gate_of g detected = g.detected_s
gate_of g proposed = g.proposed_s
gate_of g validated = g.validated_s
gate_of g authorized = g.authorized_s
gate_of g executed = g.executed_s
gate_of g resolved = g.resolved_s
gate_of g s = 0

-- the gates where no variable of the environment is set
abbrev pub default_gates : StageGates
default_gates = record {
  detected_s = 0;
  proposed_s = 0;
  validated_s = 0;
  authorized_s = 0;
  executed_s = 0;
  resolved_s = 0;
}

-- Two stages with one value are one stage.
pub stage_eq_iff : (a b : Stage) → (stage_eq a b ≡ true) ↔ (a ≡ b)
unfolding stage_eq
stage_eq_iff (other a) (other b) = ground (arith, eq_iff a b)
stage_eq_iff detected _ = ground arith
stage_eq_iff _ _ = ground arith
