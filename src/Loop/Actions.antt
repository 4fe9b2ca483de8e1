-- ===== src/Loop/Actions.antt =====
-- `_execute_actions`: the actions of a decision, one after the other, on the incident dict.
use fastapi_alertengine.Prelude.{String, Bool, true, false, Option, some, List, [], ◌∷◌}
use fastapi_alertengine.Degraded.{can_mutate_state, can_escalate, can_send_notifications}
use fastapi_alertengine.Pipeline.Stage.{Stage}
use fastapi_alertengine.Pipeline.Incident.{Incident}
use fastapi_alertengine.Pipeline.Decide.{
  Notification, Action, send_notification, generate_token, escalate,
}
use fastapi_alertengine.Plans.{get_tenant_plan}
use fastapi_alertengine.Loop.Step.{
  Effect, records, notifies, calls_voice, send, Step, pure, call, emit, ◌>>=◌, ◌>>◌,
}
use fastapi_alertengine.Loop.Services.{Services, Settings, TenantRecord}

module _ (V : Services) (c : Settings) (tenant : TenantRecord) where
  open V use {State}

  -- `append_event` with the shadow mode as its actor
  unfoldable pub record_shadow : String → Option Stage → Step State Bool
  record_shadow incident_id stage =
      emit (records (record { incident_id = incident_id; stage = stage; shadow = true }))
        V.append_event

  unfoldable pub fire : Effect → Step State (Unit {0})
  fire e = emit e (V.fire e)

  -- a gate of `degraded`
  abbrev pub gate : (State → Bool) → Step State Bool
  gate test = call λ s. (test s, s)

  abbrev pub if_open : Bool → Step State (Unit {0}) → Step State (Unit {0})
  if_open true m = m
  if_open false m = pure tt

  unfoldable pub send_action : Notification → String → Option Stage → Step State (Unit {0})
  send_action n incident_id stage = do
    is_open ← gate (λ s. can_send_notifications (V.degraded_mode s))
    if_open is_open (fire (notifies incident_id stage (send n)))

  -- the token and the link go into the dict
  unfoldable pub token_for : Incident → Bool → Step State Incident
  token_for incident false = pure incident
  token_for incident true = do
    token ← call (V.generate_token incident.incident_id tenant.tenant_id)
    pure (record incident { token = some token; recovery_url = some (c.recovery_url token) })

  unfoldable pub token_action : Incident → Step State Incident
  token_action incident = do
    is_open ← gate (λ s. can_mutate_state (V.degraded_mode s))
    token_for incident is_open

  unfoldable pub call_action : Bool → Incident → Step State (Unit {0})
  call_action false incident = pure tt
  call_action true incident = do
    is_open ← gate (λ s. can_escalate (V.degraded_mode s))
    if_open is_open (fire (calls_voice incident.incident_id))

  -- one round of the loop; `shadow` is the tenant's shadow mode
  unfoldable pub run_action : Bool → Action → Incident → Step State Incident
  run_action true (send_notification n) incident =
      record_shadow incident.incident_id incident.stage >> pure incident
  run_action false (send_notification n) incident =
      send_action n incident.incident_id incident.stage >> pure incident
  run_action true generate_token incident =
      record_shadow incident.incident_id incident.stage >> pure incident
  run_action false generate_token incident = token_action incident
  run_action true escalate incident =
      record_shadow incident.incident_id incident.stage >> pure incident
  run_action false escalate incident =
      call_action (get_tenant_plan tenant.plan).has_voice_escalation incident >> pure incident

  -- the ids and the stage of the log and of the keys are those of the incident as it was passed
  unfoldable pub execute_actions : List Action → Incident → Step State Incident
  execute_actions [] incident = pure incident
  execute_actions (a ∷ actions) incident =
      run_action tenant.shadow_mode a incident >>= execute_actions actions
