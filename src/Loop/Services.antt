-- ===== src/Loop/Services.antt =====
-- The modules that a tick calls, as an interface: what each call returns from the state of the
-- services, which other workers and tasks change too. Nothing is assumed of it; the decisions,
-- transitions, plans, policies and degradation gates are the modelled functions themselves.
use fastapi_alertengine.Prelude.{ℕ, String, Bool, Option}
use fastapi_alertengine.Degraded as Degraded
use fastapi_alertengine.IncidentPolicy.{Policy}
use fastapi_alertengine.Lock.{Lease}
use fastapi_alertengine.Pipeline.Stage.{StageGates}
use fastapi_alertengine.Pipeline.Incident.{Incident, Clock}
use fastapi_alertengine.Pipeline.Decide.{Health, Claude}
use fastapi_alertengine.Plans as Plans
use fastapi_alertengine.Policy as Policies
use fastapi_alertengine.Loop.Step.{Effect}

pub record Services : Type 1 where
  pub State : Type 0
  pub time : State → ℕ × State
  -- the readings of the clock in one call of `apply_transition`
  pub transition_times : State → Clock × State
  -- `_fetch_health`: none where the request fails, or answers with another status than 200 or with
  -- nothing
  pub fetch_health : String → State → Option Health × State
  pub degraded_mode : State → Degraded.State
  pub update_baseline : String → Health → State → Unit {0} × State
  -- `_get_tenant_incident`
  pub get_tenant_incident : String → State → Option Incident × State
  -- entering and leaving `incident_lock`, and what `lease.valid` says
  pub acquire : String → ℕ → State → Option Lease × State
  pub is_valid : Lease → State → Bool × State
  pub release : Lease → State → State
  pub claim_action : String → State → Bool × State
  -- `claude_decide`: none where it raises
  pub claude_decide : Health → Option Incident → String → State → Option Claude × State
  pub save_incident : Incident → State → Bool × State
  pub save_tenant_active : String → String → State → Unit {0} × State
  pub save_tenant : Plans.Tenant → State → Bool × State
  pub clear_tenant_active : String → State → Unit {0} × State
  pub clear_history : String → State → Unit {0} × State
  pub append_event : State → Bool × State
  pub generate_token : String → String → State → String × State
  pub fire : Effect → State → Unit {0} × State

-- The settings that come from the environment, and the texts and keys that are made from them.
pub record Settings : Type 0 where
  pub policy : Option Policy
  pub gates : StageGates
  pub thresholds : Policies.Thresholds
  pub lock_ttl : ℕ
  -- `inc-{tenant_id}-{int(now)}`, the key of its creation, and the link with a token
  pub incident_id : String → ℕ → String
  pub creation_key : String → String
  pub recovery_url : String → String
  -- the f-string of `decide_new_incident`
  pub summary : ℕ → ℕ → String

-- The tenant record, as the loop reads it.
pub record TenantRecord : Type 0 where
  pub tenant_id : String
  pub health_url : String
  pub shadow_mode : Bool
  pub plan : Plans.Tenant
