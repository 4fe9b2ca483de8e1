-- ===== src/Pipeline/Incident.antt =====
-- orchestrator/pipeline.py: the incident record, `new_incident`, `can_transition`, `transition` and
-- the small queries.
--
-- A time is a whole number of one fixed unit, and a reading of the clock is an argument: `now` is
-- what `time.time()` returns, and `fallback` the later reading that stands in for a missing field.
use fastapi_alertengine.Prelude.{
  ℕ, ◌+◌, ◌-◌, String, Bool, true, false, Option, none, some, List, [], ◌∷◌, ◌++◌, ltb, leb, not,
  or_default, if◌then◌else◌,
}
use fastapi_alertengine.Pipeline.Stage.{
  Stage, detected, authorized, executed, resolved, recovered, stage_eq, is_terminal,
  allowed_transitions, is_known, is_recoverable, StageGates, gate_of,
}

-- The metadata of a transition, as a caller passes it.
abbrev pub Metadata : Type 0
Metadata = List (String × String)

-- An entry of `incident["history"]`.
pub record Entry : Type 0 where
  pub stage : Stage
  pub at : ℕ
  pub meta : Option Metadata

-- The incident dict. A field that a reader takes with `get` may be missing.
pub record Incident : Type 0 where
  pub incident_id : String
  pub stage : Option Stage
  pub stage_at : Option ℕ
  pub started_at : Option ℕ
  pub score : ℕ
  pub p95 : ℕ
  pub err : ℕ
  pub token : Option String
  pub recovery_url : Option String
  pub voice_sent : Bool
  pub secondary_sent : Bool
  pub resolved_at : Option ℕ
  pub history : List Entry
  pub tenant_id : Option String

unfoldable pub new_incident : String → ℕ → ℕ → ℕ → ℕ → Incident
new_incident incident_id score p95 err now = record {
  incident_id = incident_id;
  stage = some detected;
  stage_at = some now;
  started_at = some now;
  score = score;
  p95 = p95;
  err = err;
  token = none;
  recovery_url = none;
  voice_sent = false;
  secondary_sent = false;
  resolved_at = none;
  history = record { stage = detected; at = now; meta = none } ∷ [];
  tenant_id = none;
}

-- The reasons that `can_transition` gives for False.
pub data Reason : Type 0 where
  already_in : Stage → Reason
  unknown_stage : Stage → Reason
  cannot_recover : Option Stage → Reason
  cannot_transition : Option Stage → Stage → Option Stage → Reason
  gate_not_met : ℕ → ℕ → Reason

pub data Verdict : Type 0 where
  allowed : Verdict
  refused : Reason → Verdict

-- `current == target_stage`, and `expected == target_stage`
unfoldable pub is_stage : Option Stage → Stage → Bool
is_stage none target = false
is_stage (some s) target = stage_eq s target

-- The stage gate. `age < gate` is written with no subtraction, so a clock that was set back, and an
-- age below zero, come out as in the source.
unfoldable pub gate_check : StageGates → Incident → Stage → ℕ → ℕ → Verdict
gate_check gates incident target now fallback =
    let at = or_default incident.stage_at fallback in
    let gate = gate_of gates target in
    if ltb now (at + gate) then refused (gate_not_met (now - at) gate) else allowed

unfoldable pub can_transition : StageGates → Incident → Stage → ℕ → ℕ → Verdict
unfolding gate_check is_stage
can_transition gates incident target now fallback =
    let current = incident.stage in
    if is_stage current target
    then refused (already_in target)
    else if not (is_known target)
    then refused (unknown_stage target)
    else if stage_eq target recovered
    then (if is_recoverable current then allowed else refused (cannot_recover current))
    else if not (is_stage (allowed_transitions current) target)
    then refused (cannot_transition current target (allowed_transitions current))
    else gate_check gates incident target now fallback

-- `if metadata:` is false for None and for an empty dict.
abbrev pub truthy : Option Metadata → Option Metadata
truthy none = none
truthy (some []) = none
truthy (some (m ∷ ms)) = some (m ∷ ms)

-- the incident that an allowed transition returns; `at` is its own reading of the clock
unfoldable pub enter : Incident → Stage → Option Metadata → ℕ → Incident
enter incident target metadata at = record incident {
  stage = some target;
  stage_at = some at;
  resolved_at = if stage_eq target resolved then some at else incident.resolved_at;
  history = incident.history ++ record { stage = target; at = at; meta = truthy metadata } ∷ [];
}

-- The three readings of the clock in one call of `transition`.
pub record Clock : Type 0 where
  pub now : ℕ
  pub fallback : ℕ
  pub at : ℕ

unfoldable pub transition : StageGates → Incident → Stage → Option Metadata → Clock → Incident
unfolding enter
transition gates incident target metadata clock =
    elim (can_transition gates incident target clock.now clock.fallback) [
      | allowed ↦ enter incident target metadata clock.at
      | refused reason ↦ incident
    ]

-- `is_terminal(incident)` of the module, which is not the class method of the same name
unfoldable pub incident_is_terminal : Incident → Bool
incident_is_terminal incident = elim incident.stage [
  | none ↦ false
  | some s ↦ if stage_eq s resolved then true else stage_eq s recovered
]

-- `stage_age(incident) >= gate`, with no subtraction
unfoldable pub stage_age_reaches : Incident → ℕ → ℕ → ℕ → Bool
stage_age_reaches incident gate now fallback =
    leb (or_default incident.stage_at fallback + gate) now

-- the stage that the gates let in next, unless a person has to act for it
unfoldable pub required_after : StageGates → Incident → Stage → ℕ → ℕ → Option Stage
unfolding stage_age_reaches
required_after gates incident next now fallback =
    if (if stage_eq next authorized then true else stage_eq next executed)
    then none
    else if stage_age_reaches incident (gate_of gates next) now fallback
    then some next
    else none

unfoldable pub next_required_stage : StageGates → Incident → ℕ → ℕ → Option Stage
unfolding required_after
next_required_stage gates incident now fallback = elim incident.stage [
  | none ↦ none
  | some current ↦
      if is_terminal current then none else (elim (allowed_transitions (some current)) [
        | none ↦ none
        | some next ↦ required_after gates incident next now fallback
      ])
]
