-- ===== src/Pipeline/Lifecycle.antt =====
-- What holds of an incident after any sequence of calls of `transition`.
use fastapi_alertengine.Prelude.{
  ℕ, ◌+◌, ◌≤◌, ◌<◌, ◌≡◌, ◌≢◌, refl, String, true, Option, none, some, List, [], ◌∷◌, ◌++◌, arith,
  length, is_some, inl, inr, ◌⊎◌,
}
use fastapi_alertengine.Pipeline.Stage.{
  Stage, detected, proposed, validated, authorized, executed, resolved, stage_eq_iff,
  is_recoverable, StageGates,
}
use fastapi_alertengine.Pipeline.Incident.{
  Incident, Entry, Verdict, Reason, allowed, refused, can_transition, transition, enter, Metadata,
  Clock, new_incident,
}
use fastapi_alertengine.Pipeline.Diagram.{
  ◌⟶◌, open_incident, propose, validate, authorize, execute, resolve, recover,
  Active-is_recoverable, in_detected, in_proposed, in_validated, in_authorized, in_executed,
  can_transition_iff,
}

-- A call of `transition`, and the incident after a list of them.
pub record Request : Type 0 where
  pub target : Stage
  pub metadata : Option Metadata
  pub clock : Clock

unfoldable pub advance : StageGates → Incident → List Request → Incident
advance gates incident [] = incident
advance gates incident (r ∷ rs) =
    advance gates (transition gates incident r.target r.metadata r.clock) rs

-- How far along the diagram a stage is.
abbrev rank : Option Stage → ℕ
rank none = 0
rank (some detected) = 1
rank (some proposed) = 2
rank (some validated) = 3
rank (some authorized) = 4
rank (some executed) = 5
rank (some s) = 6

⟶-rank : {s : Option Stage} {t : Stage} → s ⟶ t → rank s < rank (some t)
unfolding is_recoverable
⟶-rank open_incident = omega arith
⟶-rank propose = omega arith
⟶-rank validate = omega arith
⟶-rank authorize = omega arith
⟶-rank execute = omega arith
⟶-rank resolve = omega arith
⟶-rank (recover in_detected) = omega arith
⟶-rank (recover in_proposed) = omega arith
⟶-rank (recover in_validated) = omega arith
⟶-rank (recover in_authorized) = omega arith
⟶-rank (recover in_executed) = omega arith

rank-le : (s : Option Stage) → rank s ≤ 6
rank-le none = omega arith
rank-le (some s) = ground arith

-- The entries of a history follow the arrows of the diagram, from a stage on.
abbrev pub IsPath : Option Stage → List Entry → Type 0
IsPath s [] = Unit
IsPath s (e ∷ es) = (s ⟶ e.stage) × IsPath (some e.stage) es

abbrev pub last_stage : Option Stage → List Entry → Option Stage
last_stage s [] = s
last_stage s (e ∷ es) = last_stage (some e.stage) es

IsPath-append :
    (s : Option Stage) (es : List Entry) (e : Entry)
    → IsPath s es
    → last_stage s es ⟶ e.stage
    → IsPath s (es ++ e ∷ [])
IsPath-append s [] e p arrow = (arrow, tt)
IsPath-append s (x ∷ es) e p arrow = (p.0, IsPath-append (some x.stage) es e p.1 arrow)

last_stage-append :
    (s : Option Stage) (es : List Entry) (e : Entry) → last_stage s (es ++ e ∷ []) ≡ some e.stage
last_stage-append s [] e = refl
last_stage-append s (x ∷ es) e = last_stage-append (some x.stage) es e

length-le-rank :
    (s : Option Stage) (es : List Entry) → IsPath s es → rank s + length es ≤ rank (last_stage s es)
length-le-rank s [] p = omega arith
length-le-rank s (e ∷ es) p = omega (arith, ⟶-rank p.0, length-le-rank (some e.stage) es p.1)

-- The history is the way through the diagram that led to the stage, and `resolved_at` is set exactly
-- in RESOLVED.
pub record IsLogged (incident : Incident) : Type 0 where
  pub path : IsPath none incident.history
  pub ends : last_stage none incident.history ≡ incident.stage
  pub dated : incident.stage ≡ some resolved → is_some incident.resolved_at ≡ true
  pub open_undated : incident.stage ≢ some resolved → incident.resolved_at ≡ none

pub new_incident-IsLogged :
    (incident_id : String) (score p95 err now : ℕ)
    → IsLogged (new_incident incident_id score p95 err now)
unfolding new_incident
new_incident-IsLogged incident_id score p95 err now = record {
  path = (open_incident, tt);
  ends = refl;
  dated = λ e. cc;
  open_undated = λ h. refl;
}

-- No arrow leaves RESOLVED.
resolved_stays : {s : Option Stage} {t : Stage} → s ⟶ t → s ≢ some resolved
unfolding is_recoverable
resolved_stays open_incident e = cc
resolved_stays propose e = cc
resolved_stays validate e = cc
resolved_stays authorize e = cc
resolved_stays execute e = cc
resolved_stays resolve e = cc
resolved_stays (recover h) e = ground (arith, Active-is_recoverable h)

enter-IsLogged :
    (incident : Incident) (target : Stage) (metadata : Option Metadata) (at : ℕ)
    → incident.stage ⟶ target
    → IsLogged incident
    → IsLogged (enter incident target metadata at)
unfolding enter
enter-IsLogged incident target metadata at arrow v = record {
  path = IsPath-append none incident.history _ v.path (rw v.ends arrow);
  ends = last_stage-append none incident.history _;
  dated = λ e. ground (arith, stage_eq_iff target resolved);
  open_undated =
      λ h. ground (arith, stage_eq_iff target resolved, v.open_undated (resolved_stays arrow));
}

Verdict-cases : (v : Verdict) → (v ≡ allowed) ⊎ ((reason : Reason) × (v ≡ refused reason))
Verdict-cases allowed = inl refl
Verdict-cases (refused reason) = inr (reason, refl)

-- A call of `transition` enters its target where `can_transition` allows it, and otherwise changes
-- nothing.
pub transition_cases {ℓ} :
    (P : Incident → Type ℓ) (gates : StageGates) (incident : Incident) (r : Request)
    → P incident
    → (incident.stage ⟶ r.target → P (enter incident r.target r.metadata r.clock.at))
    → P (transition gates incident r.target r.metadata r.clock)
unfolding transition
transition_cases P gates incident r same moved =
    elim (Verdict-cases (can_transition gates incident r.target r.clock.now r.clock.fallback)) [
      | inl e ↦ rw (e, transition) (moved ((can_transition_iff gates incident r.target _ _).0 e).0)
      | inr (reason, e) ↦ rw (e, transition) same
    ]

pub advance-IsLogged :
    (gates : StageGates) (incident : Incident) (rs : List Request)
    → IsLogged incident
    → IsLogged (advance gates incident rs)
unfolding advance
advance-IsLogged gates incident [] v = v
advance-IsLogged gates incident (r ∷ rs) v =
    advance-IsLogged gates (transition gates incident r.target r.metadata r.clock) rs (
      transition_cases IsLogged gates incident r v
        (λ arrow. enter-IsLogged incident r.target r.metadata r.clock.at arrow v))

-- Whatever transitions are asked for, in whatever order and at whatever times, the history of an
-- incident that started new is a way through the diagram from the opening to the current stage, and
-- `resolved_at` is set exactly in RESOLVED.
pub incident_lifecycle :
    (gates : StageGates) (incident_id : String) (score p95 err now : ℕ) (rs : List Request)
    → IsLogged (advance gates (new_incident incident_id score p95 err now) rs)
incident_lifecycle gates incident_id score p95 err now rs =
    advance-IsLogged gates _ rs (new_incident-IsLogged incident_id score p95 err now)

-- A logged incident has at most six entries in its history, so that at most five transitions of an
-- incident ever take effect.
pub history_bounded : (incident : Incident) → IsLogged incident → length incident.history ≤ 6
history_bounded incident v =
    omega (
      arith,
      length-le-rank none incident.history v.path,
      rank-le (last_stage none incident.history),
    )
