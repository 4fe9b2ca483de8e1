-- ===== src/Pipeline/Decisions.antt =====
-- What `decide` and `next_required_stage` propose, against the state machine.
use fastapi_alertengine.Prelude.{
  ℕ, ◌+◌, ◌*◌, ◌≤◌, ◌<◌, ◌≡◌, ◌≢◌, ◌⊎◌, true, false, Option, none, some, arith, or_default,
}
use fastapi_alertengine.IncidentPolicy.{unit, Policy, should_recover}
use fastapi_alertengine.Pipeline.Stage.{
  Stage, detected, validated, authorized, executed, recovered, stage_eq, allowed_transitions,
  is_known, StageGates, gate_of,
}
use fastapi_alertengine.Pipeline.Incident.{
  Incident, allowed, can_transition, is_stage, transition, enter, Clock, Metadata,
  next_required_stage,
}
use fastapi_alertengine.Pipeline.Diagram.{◌⟶◌, can_transition_iff, next-⟶}
use fastapi_alertengine.Pipeline.Decide.{
  Health, Claude, number, decide, recovered_by, score_of, error_rate_of,
}

-- a score and an error rate within the limits for recovery, those of the module where no policy is imported
abbrev pub Recovers : Option Policy → ℕ → ℕ → Type 0
Recovers none score err = (70 * unit < score) × (err < 50_000)
Recovers (some p) score err = (p.recover_score < score) × (err < p.recover_error_rate)

recovered_by-Recovers :
    (policy : Option Policy) (score err : ℕ)
    → recovered_by policy score err ≡ true
    → Recovers policy score err
unfolding recovered_by should_recover
recovered_by-Recovers none score err h = ground (arith, h)
recovered_by-Recovers (some p) score err h = ground (arith, h)

-- The table of transitions leads to RECOVERED from no stage.
next_unrecovered : (s : Option Stage) (t : Stage) → allowed_transitions s ≡ some t → t ≢ recovered
unfolding allowed_transitions
next_unrecovered none t h e = cc
next_unrecovered (some _) t h e = ground (arith, h, e)

module _ (policy : Option Policy) (incident : Incident) (health : Health) where
  -- A stage that `decide` proposes is RECOVERED, and then the score is above and the error rate below the
  -- policy's limits for recovery, or it is another one, and an arrow of the diagram leads there from the
  -- incident's stage, DETECTED where it has none.
  pub decide_legal :
      (claude : Claude) (t : Stage)
      → (decide policy incident health claude).next_stage ≡ some t
      → ((t ≡ recovered) × Recovers policy (score_of health) (error_rate_of health))
        ⊎ ((t ≢ recovered) × (some (or_default incident.stage detected) ⟶ t))
  unfolding decide
  decide_legal claude t h = ground (
    arith,
    next-⟶ (some (or_default incident.stage detected)) t,
    next_unrecovered (some (or_default incident.stage detected)) t,
    recovered_by-Recovers policy (score_of health) (error_rate_of health),
  )

  -- Two answers of the model with numeric confidences lead to the same next stage, the same actions
  -- and the same actor, whatever action each of them names.
  decide_ignores_model :
      (a b : Claude) (m n : ℕ)
      → a.confidence ≡ some (number m)
      → b.confidence ≡ some (number n)
      → ((decide policy incident health a).next_stage
          ≡ (decide policy incident health b).next_stage)
        × ((decide policy incident health a).actions ≡ (decide policy incident health b).actions)
        × ((decide policy incident health a).actor ≡ (decide policy incident health b).actor)
  unfolding decide
  decide_ignores_model a b m n p q = ground arith

  -- For an incident in VALIDATED whose metrics have not recovered, any answer with a numeric
  -- confidence, a request to suppress included, makes `decide` propose AUTHORIZED, and `transition`
  -- enters it as soon as the gate of AUTHORIZED is met: no approval is looked at.
  pub authorized_without_approval :
      (gates : StageGates) (claude : Claude) (n : ℕ) (metadata : Option Metadata) (clock : Clock)
      → incident.stage ≡ some validated
      → claude.confidence ≡ some (number n)
      → recovered_by policy (score_of health) (error_rate_of health) ≡ false
      → or_default incident.stage_at clock.fallback + gates.authorized_s ≤ clock.now
      → ((decide policy incident health claude).next_stage ≡ some authorized)
        × (transition gates incident authorized metadata clock
            ≡ enter incident authorized metadata clock.at)
  unfolding decide transition can_transition stage_eq is_stage gate_of allowed_transitions is_known
  authorized_without_approval gates claude n metadata clock at conf bad gate =
      (ground arith, ground arith)

-- A stage that `next_required_stage` asks for is one that `can_transition` allows at the same
-- readings of the clock, and never AUTHORIZED or EXECUTED.
pub next_required_stage_allowed :
    (gates : StageGates) (incident : Incident) (now fallback : ℕ) (t : Stage)
    → next_required_stage gates incident now fallback ≡ some t
    → (can_transition gates incident t now fallback ≡ allowed) × (t ≢ authorized) × (t ≢ executed)
unfolding next_required_stage stage_eq
next_required_stage_allowed gates incident now fallback t h =
    ground (arith, next-⟶ incident.stage t, (can_transition_iff gates incident t now fallback).1)
