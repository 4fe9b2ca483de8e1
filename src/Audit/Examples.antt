-- ===== src/Audit/Examples.antt =====
-- The theorems about the audit log at concrete logs.
use fastapi_alertengine.Prelude.{ℕ, ◌≡◌, ◌↔◌, refl, true, false, none, some, List, [], ◌∷◌}
use fastapi_alertengine.Pipeline.Stage.{
  Stage, detected, proposed, validated, authorized, executed, resolved, default_gates, stage_eq,
  is_known, is_recoverable, allowed_transitions, gate_of,
}
use fastapi_alertengine.Pipeline.Incident.{
  Incident, new_incident, transition, can_transition, is_stage,
}
use fastapi_alertengine.Pipeline.Lifecycle.{Request, advance, IsLogged, incident_lifecycle}
use fastapi_alertengine.Audit.{
  Event, replay_log, Replayed, Walk, walk, step, start_walk, is_expected, is_exit,
}
use fastapi_alertengine.Audit.Replay.{
  Matches, marks, entries, replay_restores, stages_in, IsChain, replay_clean_iff,
}

abbrev request : Stage → ℕ → Request
request s n = record {
  target = s;
  metadata = none;
  clock = record { now = n; fallback = n; at = n };
}

abbrev requests : List Request
requests =
    request proposed 11
    ∷ request validated 12
    ∷ request authorized 13
    ∷ request executed 14
    ∷ request resolved 15
    ∷ []

abbrev closed : Incident
closed = advance default_gates (new_incident "inc-1" 23 2800 190 10) requests

abbrev logged : Stage → ℕ → Event
logged s n = record {
  timestamp = some n;
  incident_id = some "inc-1";
  stage = some s;
  decision = some "validate";
  actor = some "pipeline";
  reason = some "";
  confidence = some 900;
  tenant_id = some "acme";
  action_id = none;
  metadata = none;
}

abbrev log : List Event
log =
    logged detected 10
    ∷ logged proposed 11
    ∷ logged validated 12
    ∷ logged authorized 13
    ∷ logged executed 14
    ∷ logged resolved 15
    ∷ []

closed-IsLogged : IsLogged closed
closed-IsLogged = incident_lifecycle default_gates "inc-1" 23 2800 190 10 requests

closed_stage : closed.stage ≡ some resolved
unfolding advance transition can_transition new_incident stage_eq is_stage is_known is_recoverable
    allowed_transitions gate_of
closed_stage = refl

log-Matches : Matches closed.history log
unfolding advance transition can_transition new_incident stage_eq is_stage is_known is_recoverable
    allowed_transitions gate_of
log-Matches = (refl, refl, (refl, refl, (refl, refl, (refl, refl, (refl, refl, (refl, refl, tt))))))

replay_restores_example :
    (r : Replayed) × (replay_log 20 log ≡ some r)
    × (r.stage ≡ resolved)
    × (marks r.history ≡ entries closed.history)
    × (r.is_clean ≡ true)
replay_restores_example =
    replay_restores closed log resolved 20 closed-IsLogged log-Matches closed_stage

-- two entries for DETECTED, as a tenant in shadow mode has them
abbrev shadowed : List Event
shadowed = logged detected 10 ∷ logged detected 10 ∷ logged proposed 11 ∷ []

abbrev shadowed_walk : Walk
shadowed_walk = walk (start_walk (some 10)) shadowed

abbrev shadowed_replay : Replayed
shadowed_replay = record {
  stage = proposed;
  stage_at = some 11;
  started_at = some 10;
  is_healthy = false;
  voice_sent = false;
  secondary_sent = false;
  resolved_at = none;
  history = shadowed_walk.history;
  warnings = shadowed_walk.warnings;
  is_clean = false;
}

shadowed_replayed : replay_log 20 shadowed ≡ some shadowed_replay
unfolding replay_log walk step stage_eq is_expected is_exit is_stage allowed_transitions
shadowed_replayed = refl

replay_clean_iff_example : (shadowed_replay.is_clean ≡ true) ↔ IsChain none (stages_in shadowed)
replay_clean_iff_example = replay_clean_iff shadowed 20 shadowed_replay shadowed_replayed
