-- ===== src/Loop/Tenant.antt =====
-- `_process_tenant`: a tick for one tenant, from the health report to the escalations.
--
-- A start of an incident that lies ahead of the clock counts as a duration of 0.
use Prim.Native.String.{◌++◌ as append}
use fastapi_alertengine.Prelude.{
  ℕ, ◌*◌, ◌-◌, String, Bool, true, false, Option, none, some, ◌∷◌, or_default, not, ◌&&◌, leb, ltb,
  if◌then◌else◌,
}
use fastapi_alertengine.Degraded.{can_mutate_state, can_escalate}
use fastapi_alertengine.IncidentPolicy.{unit}
use fastapi_alertengine.Lock.{Lease}
use fastapi_alertengine.Pipeline.Stage.{Stage, detected, recovered}
use fastapi_alertengine.Pipeline.Incident.{Incident, new_incident, is_stage, transition}
use fastapi_alertengine.Pipeline.Decide as Decide
use fastapi_alertengine.Pipeline.Decide.{
  Health, HealthStatus, healthy, critical, score_of, error_rate_of, Claude, ClaudeAction, validate,
  Number, number, not_a_number, Decision, decide, decide_new_incident, SchemaVerdict, ok,
  validate_decision_schema, schema_of,
}
use fastapi_alertengine.Plans.{
  Limit, unlimited, at_most, get_tenant_plan, can_monitor_more_services, incident_quota_remaining,
  increment_incident_count,
}
use fastapi_alertengine.Policy.{
  should_alert, should_escalate_voice, should_escalate_secondary, should_open_new_incident,
}
use fastapi_alertengine.Loop.Step.{
  stores, learns, leases, claims, asks, activates, clears, counts_incident, records, notifies,
  Notice, voice, secondary, Step, pure, leave, crash, call, emit, item, require, ◌>>=◌, ◌>>◌,
}
use fastapi_alertengine.Loop.Services.{Services, Settings, TenantRecord}
use fastapi_alertengine.Loop.Actions.{fire, record_shadow, execute_actions}

-- `status == "critical"`, where a report without a status is healthy
abbrev pub is_critical : Option HealthStatus → Bool
is_critical (some critical) = true
is_critical _ = false

-- `status == "healthy"`
abbrev pub is_healthy : Option HealthStatus → Bool
is_healthy none = true
is_healthy (some healthy) = true
is_healthy _ = false

-- `status in ("healthy", "degraded")`
abbrev pub is_calm : Option HealthStatus → Bool
is_calm (some Decide.degraded) = true
is_calm s = is_healthy s

-- `claude["action"] in ("escalate", "validate")`
abbrev pub opens : ClaudeAction → Bool
opens Decide.escalate = true
opens validate = true
opens _ = false

-- `quota != 0`, where -1 stands for no limit
abbrev pub has_quota : Limit → Bool
has_quota unlimited = true
has_quota (at_most n) = ltb 0 n

abbrev pub is_ok : SchemaVerdict → Bool
is_ok ok = true
is_ok _ = false

abbrev pub id_of : Option Incident → Option String
id_of none = none
id_of (some incident) = some incident.incident_id

module _ (V : Services) (c : Settings) (tenant : TenantRecord) where
  open V use {State}

  abbrev pub end_lease : Option Lease → State → State
  end_lease none s = s
  end_lease (some lease) s = V.release lease s

  -- `async with incident_lock(key, ttl) as lease`, whose body may leave or raise
  unfoldable pub with_lease :
      String → ℕ → (Option Lease → Step State (Unit {0})) → Step State (Unit {0})
  with_lease key ttl body s =
      let (lease, s₁) = V.acquire key ttl s in
      let (exit, effects, s₂) = body lease s₁ in (exit, leases key ∷ effects, end_lease lease s₂)

  abbrev pub may_mutate : Step State (Unit {0})
  may_mutate = call (λ s. (can_mutate_state (V.degraded_mode s), s)) >>= require

  abbrev pub lease_holds : Lease → Step State (Unit {0})
  lease_holds lease = call (V.is_valid lease) >>= require

  abbrev pub ask : Health → Option Incident → Step State Claude
  ask health incident =
      emit (asks (id_of incident)) (V.claude_decide health incident tenant.tenant_id) >>= item

  abbrev pub save : Incident → Step State Bool
  save incident = emit (stores incident) (V.save_incident incident)

  abbrev pub record_event : String → Option Stage → Step State Bool
  record_event incident_id stage =
      emit (records (record { incident_id = incident_id; stage = stage; shadow = false }))
        V.append_event

  -- a confidence that `validate_decision_schema` refuses ends the tick
  abbrev pub numeric : Number → Step State ℕ
  numeric (number n) = pure n
  numeric not_a_number = leave

  -- from `open_incident` on
  unfoldable pub store_new : Health → String → Decision → ℕ → Step State (Unit {0})
  store_new health incident_id decision started = do
    let incident =
        record (new_incident incident_id (score_of health) (or_default health.p95 0)
          (error_rate_of health) started) { tenant_id = some tenant.tenant_id }
    saved ← save incident
    require saved
    emit (activates incident_id) (V.save_tenant_active tenant.tenant_id incident_id)
    now ← call V.time
    emit (counts_incident (increment_incident_count now tenant.plan))
        (V.save_tenant (increment_incident_count now tenant.plan))
    record_event incident_id (some detected)
    execute_actions V c tenant decision.actions incident
    pure tt

  -- the tests on the tenant and its plan
  unfoldable pub admits : Health → Bool
  admits health =
      should_alert c.thresholds (score_of health) (error_rate_of health)
      && can_monitor_more_services tenant.plan
      && has_quota (incident_quota_remaining tenant.plan)
      && (get_tenant_plan tenant.plan).has_claude_decision

  -- from the model's answer on
  unfoldable pub open_decided : Health → String → Step State (Unit {0})
  open_decided health incident_id = do
    claude ← ask health none
    action ← item claude.action
    require (opens action)
    confidence ← item claude.confidence
    n ← numeric confidence
    let decision =
        decide_new_incident c.summary incident_id (score_of health) (or_default health.p95 0)
          (error_rate_of health) n
    require (is_ok (validate_decision_schema (schema_of decision)))
    started ← call V.time
    store_new health incident_id decision started

  unfoldable pub open_leased : Health → ℕ → Option Lease → Step State (Unit {0})
  open_leased health now none = leave
  open_leased health now (some lease) = do
    existing ← call (V.get_tenant_incident tenant.tenant_id)
    require (should_open_new_incident existing)
    let key = c.creation_key (c.incident_id tenant.tenant_id now)
    claimed ← emit (claims key) (V.claim_action key)
    require claimed
    require (admits health)
    lease_holds lease
    open_decided health (c.incident_id tenant.tenant_id now)

  unfoldable pub open_new : Health → ℕ → Step State (Unit {0})
  open_new health now = do
    may_mutate
    with_lease (append "creating-" tenant.tenant_id) 10 (open_leased health now)

  -- `resolve_incident(incident_id)`: the function also requires the tenant, so the call is a TypeError
  abbrev pub resolve_without_tenant : Step State (Unit {0})
  resolve_without_tenant = crash

  -- what follows a decision for RECOVERED
  unfoldable pub close : Health → Incident → Claude → Decision → Step State (Unit {0})
  close health incident claude decision = do
    may_mutate
    clock ← call V.transition_times
    let updated = transition c.gates incident recovered none clock
    save updated
    resolve_without_tenant
    emit (clears incident.incident_id) (V.clear_tenant_active tenant.tenant_id)
    call (V.clear_history incident.incident_id)
    action ← item claude.action
    record_event incident.incident_id (some recovered)
    execute_actions V c tenant decision.actions updated
    pure tt

  unfoldable pub recover_incident : Health → Incident → Step State (Unit {0})
  recover_incident health incident = do
    claude ← ask health (some incident)
    let decision = decide c.policy incident health claude
    require (is_ok (validate_decision_schema (schema_of decision)))
    require (is_stage decision.next_stage recovered)
    close health incident claude decision

  -- `can_escalate`, and the call that the flag on the incident guards
  unfoldable pub escalate_once : Notice → String → Stage → Incident → Bool → Step State Incident
  escalate_once kind incident_id next_stage marked false = pure marked
  escalate_once kind incident_id next_stage marked true = do
    save marked
    if tenant.shadow_mode
        then record_shadow V c tenant incident_id (some next_stage) >> pure marked
        else fire V c tenant (notifies incident_id (some next_stage) kind) >> pure marked

  unfoldable pub escalate_if :
      Notice → String → Stage → Incident → Incident → Bool → Step State Incident
  escalate_if kind incident_id next_stage updated marked false = pure updated
  escalate_if kind incident_id next_stage updated marked true = do
    is_open ← call (λ s. (can_escalate (V.degraded_mode s), s))
    escalate_once kind incident_id next_stage (if is_open then marked else updated) is_open

  -- the two escalations; the flags are read from the incident as it was loaded
  unfoldable pub escalate_due : Health → Incident → Stage → ℕ → Incident → Step State (Unit {0})
  escalate_due health incident next_stage duration updated = do
    updated₁ ←
        escalate_if voice incident.incident_id next_stage updated
          (record updated { voice_sent = true })
          (not incident.voice_sent && should_escalate_voice c.thresholds duration (score_of health))
    updated₂ ←
        escalate_if secondary incident.incident_id next_stage updated₁
          (record updated₁ { secondary_sent = true })
          (not incident.secondary_sent
            && should_escalate_secondary c.thresholds duration (score_of health))
    pure tt

  -- from the transition on
  unfoldable pub move : Health → ℕ → Incident → Claude → Decision → Stage → Step State (Unit {0})
  move health now incident claude decision next_stage = do
    clock ← call V.transition_times
    updated ←
        execute_actions V c tenant decision.actions
          (transition c.gates incident next_stage none clock)
    save updated
    action ← item claude.action
    record_event incident.incident_id (some next_stage)
    escalate_due health incident next_stage (now - or_default incident.started_at now) updated

  unfoldable pub advance_to :
      Health → ℕ → Incident → Lease → Claude → Decision → Option Stage → Step State (Unit {0})
  advance_to health now incident lease claude decision none = leave
  advance_to health now incident lease claude decision (some next_stage) = do
    may_mutate
    lease_holds lease
    move health now incident claude decision next_stage

  unfoldable pub advance_incident : Health → ℕ → Incident → Lease → Step State (Unit {0})
  advance_incident health now incident lease = do
    claude ← ask health (some incident)
    let decision = decide c.policy incident health claude
    require (is_ok (validate_decision_schema (schema_of decision)))
    advance_to health now incident lease claude decision decision.next_stage

  unfoldable pub process_leased : Health → ℕ → Incident → Option Lease → Step State (Unit {0})
  process_leased health now incident none = leave
  process_leased health now incident (some lease) = do
    lease_holds lease
    if is_calm health.status && not (is_stage incident.stage recovered)
        then recover_incident health incident
        else advance_incident health now incident lease

  -- what follows the loading of the incident
  unfoldable pub process_incident : Health → ℕ → Option Incident → Step State (Unit {0})
  process_incident health now none =
      if is_critical health.status then open_new health now else leave
  process_incident health now (some incident) =
      with_lease incident.incident_id c.lock_ttl (process_leased health now incident)

  -- a baseline is learnt from healthy reports only
  unfoldable pub learn : Health → Bool → Step State (Unit {0})
  learn health true = emit (learns tenant.tenant_id) (V.update_baseline tenant.tenant_id health)
  learn health false = pure tt

  unfoldable pub process_health : Health → Step State (Unit {0})
  process_health health = do
    now ← call V.time
    learn health (is_healthy health.status && leb (80 * unit) (score_of health))
    incident ← call (V.get_tenant_incident tenant.tenant_id)
    process_incident health now incident

  unfoldable pub process_report : Option Health → Step State (Unit {0})
  process_report none = leave
  process_report (some health) = process_health health

  unfoldable pub process_tenant : Step State (Unit {0})
  process_tenant = call (V.fetch_health tenant.health_url) >>= process_report
