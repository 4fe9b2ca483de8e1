-- ===== src/Pipeline/Examples.antt =====
-- The theorems about the pipeline at concrete incidents.
use fastapi_alertengine.Prelude.{
  ℕ, ◌*◌, ◌≡◌, ◌≢◌, ◌↔◌, ◌⊎◌, refl, none, some, List, [], ◌∷◌, map, arith,
}
use fastapi_alertengine.IncidentPolicy.{unit, default_policy}
use fastapi_alertengine.Pipeline.Stage.{
  Stage, detected, proposed, validated, authorized, executed, resolved, recovered, default_gates,
  allowed_transitions, stage_eq, is_known, is_recoverable, gate_of,
}
use fastapi_alertengine.Pipeline.Incident.{
  Incident, Clock, allowed, can_transition, transition, enter, new_incident, is_stage,
}
use fastapi_alertengine.Pipeline.Diagram.{◌⟶◌, GateIsMet, can_transition_iff}
use fastapi_alertengine.Pipeline.Lifecycle.{Request, advance, IsLogged, incident_lifecycle}
use fastapi_alertengine.Pipeline.Resolution.{resolved_history}
use fastapi_alertengine.Pipeline.Decide.{
  Health, critical, Claude, suppress, escalate, number, decide, recovered_by,
}
use fastapi_alertengine.Pipeline.Decisions.{Recovers, decide_legal, authorized_without_approval}

abbrev at : ℕ → Clock
at n = record { now = n; fallback = n; at = n }

abbrev to : Stage → ℕ → Request
to s n = record { target = s; metadata = none; clock = at n }

-- A request out of order among those on the way to RESOLVED.
abbrev requests : List Request
requests =
    to proposed 11
    ∷ to executed 12
    ∷ to validated 13
    ∷ to authorized 14
    ∷ to executed 15
    ∷ to resolved 16
    ∷ []

abbrev opened : Incident
opened = new_incident "inc-1" (23 * unit) 2800 190_000 10

abbrev closed : Incident
closed = advance default_gates opened requests

incident_lifecycle_example : IsLogged closed
incident_lifecycle_example =
    incident_lifecycle default_gates "inc-1" (23 * unit) 2800 190_000 10 requests

closed_stage : closed.stage ≡ some resolved
unfolding advance transition can_transition new_incident stage_eq is_stage is_known is_recoverable
    allowed_transitions gate_of
closed_stage = refl

resolved_history_example :
    map (λ e. e.stage) closed.history
    ≡ detected ∷ proposed ∷ validated ∷ authorized ∷ executed ∷ resolved ∷ []
resolved_history_example =
    resolved_history default_gates "inc-1" (23 * unit) 2800 190_000 10 requests closed_stage

can_transition_iff_example :
    (can_transition default_gates opened executed 12 12 ≡ allowed)
    ↔ ((opened.stage ⟶ executed) × GateIsMet default_gates opened executed 12 12)
can_transition_iff_example = can_transition_iff default_gates opened executed 12 12

abbrev in_validated : Incident
in_validated = record (new_incident "inc-1" (23 * unit) 2800 190_000 10) { stage = some validated }

abbrev bad_health : Health
bad_health = record {
  status = some critical;
  score = some (23 * unit);
  p95 = some 2800;
  error_rate = some 190_000;
}

abbrev keep_quiet : Claude
keep_quiet = record {
  action = some suppress;
  confidence = some (number 100_000);
  reason = none;
  actor = none;
}

abbrev raise_alarm : Claude
raise_alarm = record {
  action = some escalate;
  confidence = some (number 900_000);
  reason = none;
  actor = none;
}

decide_legal_example :
    ((authorized ≡ recovered) × Recovers (some default_policy) (23 * unit) 190_000)
    ⊎ ((authorized ≢ recovered) × (some validated ⟶ authorized))
unfolding decide allowed_transitions
decide_legal_example =
    decide_legal (some default_policy) in_validated bad_health keep_quiet authorized refl

authorized_without_approval_example :
    ((decide (some default_policy) in_validated bad_health keep_quiet).next_stage ≡ some authorized)
    × (transition default_gates in_validated authorized none (at 20)
        ≡ enter in_validated authorized none 20)
unfolding recovered_by new_incident
authorized_without_approval_example =
    authorized_without_approval (some default_policy) in_validated bad_health default_gates
      keep_quiet 100_000 none (at 20) refl refl refl (omega arith)
