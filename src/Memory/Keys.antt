-- ===== src/Memory/Keys.antt =====
-- The key of an incident is not the key of a tenant's active incident.
use Prim.Native.String.{◌++◌ as append}
use package.text.Mathlib.TextLemmas.{
  append_cancel_left, append_assoc, cons-append, head-eq_of_cons-eq,
}
use Prim.Native.Char.{code}
use fastapi_alertengine.Prelude.{ap, ◌≡◌, ◌≢◌, sym, ◌∙◌, String, arith}
use fastapi_alertengine.Memory.{incident_key, active_key}

pub incident_key-ne-active_key : (i t : String) → incident_key i ≢ active_key t
incident_key-ne-active_key i t h =
    let tails : append "incident:" i ≡ append "active_incident:" t =
      append_cancel_left "orchestrator:" (append "incident:" i) (append "active_incident:" t) (
        sym (append_assoc "orchestrator:" "incident:" i)
        ∙ h
        ∙ append_assoc "orchestrator:" "active_incident:" t) in
    let heads =
      head-eq_of_cons-eq
        (sym (cons-append "i" "ncident:" i) ∙ tails ∙ cons-append "a" "ctive_incident:" t) in
    let codes : 105 ≡ 97 = ap code heads in omega (arith, codes)
