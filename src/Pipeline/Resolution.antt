-- ===== src/Pipeline/Resolution.antt =====
-- The way of an incident that was resolved.
use mathlib.Core.Path.{subst}
use fastapi_alertengine.Prelude.{
  ℕ, String, ◌≡◌, ◌≢◌, refl, ap, sym, ◌∙◌, Option, none, some, List, [], ◌∷◌, map, arith,
}
use fastapi_alertengine.Pipeline.Stage.{
  Stage, detected, proposed, validated, authorized, executed, resolved, recovered, StageGates,
  is_recoverable,
}
use fastapi_alertengine.Pipeline.Incident.{Entry, new_incident}
use fastapi_alertengine.Pipeline.Diagram.{
  ◌⟶◌, open_incident, propose, validate, authorize, execute, resolve, recover,
  Active-is_recoverable,
}
use fastapi_alertengine.Pipeline.Lifecycle.{
  IsPath, last_stage, Request, advance, incident_lifecycle,
}

-- The stages that follow a stage on the way to RESOLVED.
abbrev way_on : Option Stage → List Stage
way_on none = detected ∷ proposed ∷ validated ∷ authorized ∷ executed ∷ resolved ∷ []
way_on (some detected) = proposed ∷ validated ∷ authorized ∷ executed ∷ resolved ∷ []
way_on (some proposed) = validated ∷ authorized ∷ executed ∷ resolved ∷ []
way_on (some validated) = authorized ∷ executed ∷ resolved ∷ []
way_on (some authorized) = executed ∷ resolved ∷ []
way_on (some executed) = resolved ∷ []
way_on (some s) = []

way_on_arrow :
    {s : Option Stage} {t : Stage} → s ⟶ t → t ≢ recovered → way_on s ≡ t ∷ way_on (some t)
way_on_arrow open_incident h = refl
way_on_arrow propose h = refl
way_on_arrow validate h = refl
way_on_arrow authorize h = refl
way_on_arrow execute h = refl
way_on_arrow resolve h = refl
way_on_arrow (recover r) h = absurd (h refl)

recovered_stays : {s : Option Stage} {t : Stage} → s ⟶ t → s ≢ some recovered
unfolding is_recoverable
recovered_stays open_incident e = cc
recovered_stays propose e = cc
recovered_stays validate e = cc
recovered_stays authorize e = cc
recovered_stays execute e = cc
recovered_stays resolve e = cc
recovered_stays (recover h) e = ground (arith, Active-is_recoverable h)

recovered_last :
    (es : List Entry) → IsPath (some recovered) es → last_stage (some recovered) es ≢ some resolved
recovered_last [] p e = cc
recovered_last (x ∷ es) p e = recovered_stays p.0 refl

path_to_resolved :
    (s : Option Stage) (es : List Entry)
    → IsPath s es
    → last_stage s es ≡ some resolved
    → map (λ e. e.stage) es ≡ way_on s
path_to_resolved s [] p e = rw e
path_to_resolved s (x ∷ es) p e =
    ap (◌∷◌ x.stage) (path_to_resolved (some x.stage) es p.1 e) ∙ sym (way_on_arrow p.0 onward)
  where
    onward : x.stage ≢ recovered
    onward q =
        recovered_last es (subst (λ t. IsPath (some t) es) q p.1)
          (subst (λ t. last_stage (some t) es ≡ some resolved) q e)

-- Whatever transitions are asked of a new incident, in whatever order and at whatever times, one that is in
-- RESOLVED after them went through DETECTED, PROPOSED, VALIDATED, AUTHORIZED and EXECUTED, each once
-- and in this order.
pub resolved_history :
    (gates : StageGates) (incident_id : String) (score p95 err now : ℕ) (rs : List Request)
    → (advance gates (new_incident incident_id score p95 err now) rs).stage ≡ some resolved
    → map (λ e. e.stage) (advance gates (new_incident incident_id score p95 err now) rs).history
      ≡ detected ∷ proposed ∷ validated ∷ authorized ∷ executed ∷ resolved ∷ []
resolved_history gates incident_id score p95 err now rs h =
    let v = incident_lifecycle gates incident_id score p95 err now rs in
    path_to_resolved none (advance gates (new_incident incident_id score p95 err now) rs).history
      v.path (v.ends ∙ h)
