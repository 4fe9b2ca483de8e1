-- ===== src/Pipeline/Diagram.antt =====
-- The incident diagram as a relation on stages, and the moves of `transition` against it.
use fastapi_alertengine.Prelude.{
  ℕ, ◌+◌, ◌≤◌, ◌≡◌, ◌↔◌, ◌⊎◌, refl, Bool, true, false, Option, none, some, arith, or_default,
  if◌then◌else◌,
}
use fastapi_alertengine.Pipeline.Stage.{
  Stage, detected, proposed, validated, authorized, executed, resolved, recovered, stage_eq,
  stage_eq_iff, allowed_transitions, is_known, is_recoverable, StageGates, gate_of,
}
use fastapi_alertengine.Pipeline.Incident.{Incident, allowed, can_transition, is_stage}

-- The stages of an incident that is still worked on.
pub data Active : Option Stage → Type 0 where
  in_detected : Active (some detected)
  in_proposed : Active (some proposed)
  in_validated : Active (some validated)
  in_authorized : Active (some authorized)
  in_executed : Active (some executed)

-- The arrows: an incident is opened, the five steps of the way to RESOLVED, and a way to RECOVERED
-- from each active stage.
infix 40 ◌⟶◌
pub data ◌⟶◌ : Option Stage → Stage → Type 0 where
  open_incident : none ⟶ detected
  propose : some detected ⟶ proposed
  validate : some proposed ⟶ validated
  authorize : some validated ⟶ authorized
  execute : some authorized ⟶ executed
  resolve : some executed ⟶ resolved
  recover : {s : Option Stage} → Active s → s ⟶ recovered

pub Active-is_recoverable : {s : Option Stage} → Active s → is_recoverable s ≡ true
unfolding is_recoverable
Active-is_recoverable in_detected = refl
Active-is_recoverable in_proposed = refl
Active-is_recoverable in_validated = refl
Active-is_recoverable in_authorized = refl
Active-is_recoverable in_executed = refl

is_recoverable-Active : (s : Option Stage) → is_recoverable s ≡ true → Active s
unfolding is_recoverable
is_recoverable-Active (some detected) h = in_detected
is_recoverable-Active (some proposed) h = in_proposed
is_recoverable-Active (some validated) h = in_validated
is_recoverable-Active (some authorized) h = in_authorized
is_recoverable-Active (some executed) h = in_executed
is_recoverable-Active _ h = cc

-- Whether `can_transition` goes from a stage to a stage, gates left out.
abbrev accepts : Option Stage → Stage → Bool
accepts s t = if stage_eq t recovered then is_recoverable s else is_stage (allowed_transitions s) t

⟶-accepts : {s : Option Stage} {t : Stage} → s ⟶ t → accepts s t ≡ true
unfolding stage_eq is_stage is_recoverable allowed_transitions
⟶-accepts open_incident = refl
⟶-accepts propose = refl
⟶-accepts validate = refl
⟶-accepts authorize = refl
⟶-accepts execute = refl
⟶-accepts resolve = refl
⟶-accepts (recover h) = Active-is_recoverable h

accepts-⟶ : (s : Option Stage) (t : Stage) → accepts s t ≡ true → s ⟶ t
unfolding stage_eq is_stage is_recoverable allowed_transitions
accepts-⟶ none detected h = open_incident
accepts-⟶ (some detected) proposed h = propose
accepts-⟶ (some proposed) validated h = validate
accepts-⟶ (some validated) authorized h = authorize
accepts-⟶ (some authorized) executed h = execute
accepts-⟶ (some executed) resolved h = resolve
accepts-⟶ s recovered h = recover (is_recoverable-Active s h)
accepts-⟶ _ _ h = cc

-- The first two guards of `can_transition` refuse no arrow of the diagram.
pub ⟶-guards : {s : Option Stage} {t : Stage} → s ⟶ t → (is_stage s t ≡ false) × (is_known t ≡ true)
unfolding stage_eq is_stage is_known is_recoverable
⟶-guards open_incident = (refl, refl)
⟶-guards propose = (refl, refl)
⟶-guards validate = (refl, refl)
⟶-guards authorize = (refl, refl)
⟶-guards execute = (refl, refl)
⟶-guards resolve = (refl, refl)
⟶-guards (recover in_detected) = (refl, refl)
⟶-guards (recover in_proposed) = (refl, refl)
⟶-guards (recover in_validated) = (refl, refl)
⟶-guards (recover in_authorized) = (refl, refl)
⟶-guards (recover in_executed) = (refl, refl)

next_accepts : (s : Option Stage) (t : Stage) → allowed_transitions s ≡ some t → accepts s t ≡ true
unfolding stage_eq is_stage is_recoverable allowed_transitions
next_accepts none t h = ground arith
next_accepts (some _) t h = ground arith

-- The stage that `ALLOWED_TRANSITIONS` gives is one that an arrow leads to.
pub next-⟶ : (s : Option Stage) (t : Stage) → allowed_transitions s ≡ some t → s ⟶ t
next-⟶ s t h = accepts-⟶ s t (next_accepts s t h)

-- The stage gate of a target other than RECOVERED.
abbrev pub GateIsMet : StageGates → Incident → Stage → ℕ → ℕ → Type 0
GateIsMet gates incident target now fallback =
    (target ≡ recovered) ⊎ (or_default incident.stage_at fallback + gate_of gates target ≤ now)

module _ (gates : StageGates) (incident : Incident) (target : Stage) (now fallback : ℕ) where
  allowed_accepts :
      can_transition gates incident target now fallback ≡ allowed
      → (accepts incident.stage target ≡ true) × GateIsMet gates incident target now fallback
  unfolding can_transition
  allowed_accepts h = ground (arith, stage_eq_iff target recovered)

  accepts_allowed :
      (is_stage incident.stage target ≡ false) × (is_known target ≡ true)
      → accepts incident.stage target ≡ true
      → GateIsMet gates incident target now fallback
      → can_transition gates incident target now fallback ≡ allowed
  unfolding can_transition
  accepts_allowed guards arrow gate = ground (arith, stage_eq_iff target recovered)

  -- `can_transition` allows exactly the arrows of the diagram: a move that is none is refused
  -- whatever the time is, and one that is waits for the gate of its target, unless that is RECOVERED.
  pub can_transition_iff :
      (can_transition gates incident target now fallback ≡ allowed)
      ↔ ((incident.stage ⟶ target) × GateIsMet gates incident target now fallback)
  can_transition_iff = (
    λ h. let (a, g) = allowed_accepts h in (accepts-⟶ incident.stage target a, g),
    λ (arrow, gate). accepts_allowed (⟶-guards arrow) (⟶-accepts arrow) gate,
  )
