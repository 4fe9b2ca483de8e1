-- ===== src/Loop/Examples.antt =====
-- The theorems about a tick at concrete services, and test runs of it.
use Prim.Native.String.{◌++◌ as append}
use fastapi_alertengine.Prelude.{
  ℕ, ◌+◌, ◌*◌, ◌≡◌, refl, String, true, false, Option, none, some, List, [], ◌∷◌, All,
}
use fastapi_alertengine.Degraded as Degraded
use fastapi_alertengine.Degraded.{can_mutate_state, can_escalate, can_send_notifications, emergency}
use fastapi_alertengine.IncidentPolicy.{unit, default_policy, should_recover}
use fastapi_alertengine.Lock.{Lease}
use fastapi_alertengine.Policy.{defaults, should_alert}
use fastapi_alertengine.Plans.{
  can_monitor_more_services, incident_quota_remaining, get_tenant_plan, get_plan, used_incidents,
}
use fastapi_alertengine.Pipeline.Stage.{proposed, validated, default_gates, stage_eq}
use fastapi_alertengine.Pipeline.Incident.{Incident, new_incident, is_stage}
use fastapi_alertengine.Pipeline.Lifecycle.{
  Request, advance, IsLogged, advance-IsLogged, new_incident-IsLogged,
}
use fastapi_alertengine.Pipeline.Diagram.{recover, in_validated}
use fastapi_alertengine.Pipeline.Decide.{
  Health, healthy, critical, Claude, escalate, number, decide, decide_with, recovered_by,
}
use fastapi_alertengine.Loop.Services.{Services, Settings, TenantRecord}
use fastapi_alertengine.Loop.Tenant.{process_tenant, admits}
use fastapi_alertengine.Loop.Guarantees.{
  StoresLogged, IsInternal, IsPrelude, KeepsActive, IsWarranted, process_tenant_logged,
  shadow_mode_silent, emergency_silent, process_tenant-IsWarranted, active_never_cleared,
}
use fastapi_alertengine.Loop.Opening.{Opening, opens_incident}
use fastapi_alertengine.Loop.Serving.{RecoveryTick, VoiceTick, recovery_crashes, calls_each_tick}

-- a clock, and the transitions of the active incident
record World : Type 0 where
  pub clock : ℕ
  pub incident : Option (List Request)

abbrev opened : Incident
opened = new_incident "inc-acme-10" (23 * unit) 2800 190_000 10

abbrev loaded : Option (List Request) → Option Incident
loaded none = none
loaded (some requests) = some (advance default_gates opened requests)

abbrev bad_health : Health
bad_health = record {
  status = some critical;
  score = some (23 * unit);
  p95 = some 2800;
  error_rate = some 190_000;
}

abbrev alarm : Claude
alarm = record {
  action = some escalate;
  confidence = some (number 900_000);
  reason = none;
  actor = none;
}

-- services that answer each call, under a mode of degradation
abbrev services : Degraded.State → Services
services mode = record {
  State = World;
  time = λ s. (s.clock, record s { clock = s.clock + 1 });
  transition_times = λ s. (record { now = s.clock; fallback = s.clock; at = s.clock }, s);
  fetch_health = λ url s. (some bad_health, s);
  degraded_mode = λ s. mode;
  update_baseline = λ id h s. (tt, s);
  get_tenant_incident = λ id s. (loaded s.incident, s);
  acquire = λ key ttl s. (some (record { incident_id = key; token = "t"; valid = true }), s);
  is_valid = λ lease s. (lease.valid, s);
  release = λ lease s. s;
  claim_action = λ key s. (true, s);
  claude_decide = λ h i id s. (some alarm, s);
  save_incident = λ i s. (true, s);
  save_tenant_active = λ id i s. (tt, record s { incident = some [] });
  save_tenant = λ t s. (true, s);
  clear_tenant_active = λ id s. (tt, record s { incident = none });
  clear_history = λ i s. (tt, s);
  append_event = λ s. (true, s);
  generate_token = λ i id s. ("token", s);
  fire = λ e s. (tt, s);
}

abbrev settings : Settings
settings = record {
  policy = some default_policy;
  gates = default_gates;
  thresholds = defaults;
  lock_ttl = 30;
  incident_id = λ tenant now. append "inc-" tenant;
  creation_key = λ i. append i ":DETECTED:OPEN_INCIDENT";
  recovery_url = append "https://alertengine/action/recover?token=";
  summary = λ score err. "critical";
}

abbrev acme : TenantRecord
acme = record {
  tenant_id = "acme";
  health_url = "https://acme/health";
  shadow_mode = false;
  plan = record {
    plan = some "enterprise";
    service_count = none;
    services_monitored = none;
    incident_count = none;
    incidents_this_month = none;
    last_updated = none;
  };
}

abbrev shadow : TenantRecord
shadow = record acme { shadow_mode = true }

abbrev normal : Degraded.State
normal = Degraded.initial 0

abbrev in_emergency : Degraded.State
in_emergency = record (Degraded.initial 0) { mode = emergency }

abbrev quiet : World
quiet = record { clock = 10; incident = none }

abbrev at_work : World
at_work = record {
  clock = 100;
  incident = some (
      record {
        target = proposed;
        metadata = none;
        clock = record { now = 50; fallback = 50; at = 50 };
      }
      ∷ []);
}

loaded-IsLogged : (s : World) (i : Incident) → loaded s.incident ≡ some i → IsLogged i
loaded-IsLogged s i e = of_option s.incident e
  where
    of_option : (r : Option (List Request)) → loaded r ≡ some i → IsLogged i
    of_option none e = absurd (cc e)
    of_option (some r) e =
        let same : advance default_gates opened r ≡ i = cc e in
        let v =
          advance-IsLogged default_gates opened r
            (new_incident-IsLogged "inc-acme-10" (23 * unit) 2800 190_000 10) in
        rw same at v

process_tenant_logged_example :
    All StoresLogged (process_tenant (services normal) settings acme at_work).1
process_tenant_logged_example =
    process_tenant_logged (services normal) settings acme loaded-IsLogged at_work

shadow_mode_silent_example :
    All IsInternal (process_tenant (services normal) settings shadow at_work).1
shadow_mode_silent_example = shadow_mode_silent (services normal) settings shadow refl at_work

emergency_silent_example :
    All
      (IsPrelude (services in_emergency) settings acme)
      (process_tenant (services in_emergency) settings acme at_work).1
unfolding can_mutate_state
emergency_silent_example =
    emergency_silent (services in_emergency) settings acme (λ s. refl) at_work

process_tenant-IsWarranted_example :
    All
      (IsWarranted (services normal) settings acme)
      (process_tenant (services normal) settings acme quiet).1
process_tenant-IsWarranted_example =
    process_tenant-IsWarranted (services normal) settings acme quiet

active_never_cleared_example :
    All KeepsActive (process_tenant (services normal) settings acme at_work).1
active_never_cleared_example = active_never_cleared (services normal) settings acme at_work

-- services whose active incident is this one
abbrev serving : Option Incident → Services
serving i = record (services normal) { get_tenant_incident = λ id s. (i, s) }

abbrev lease_on : String → Lease
lease_on key = record { incident_id = key; token = "t"; valid = true }

opens_incident_example :
    (now : ℕ) × Opening
      (serving none)
      settings
      acme
      bad_health
      now
      (process_tenant (serving none) settings acme quiet).0
      (process_tenant (serving none) settings acme quiet).1
unfolding can_mutate_state can_send_notifications admits can_monitor_more_services
    incident_quota_remaining get_tenant_plan get_plan used_incidents should_alert
opens_incident_example =
    opens_incident (serving none) settings acme bad_health (lease_on "creating-acme") alarm escalate
      900_000
      (record {
        fetched = λ s. refl;
        closed = λ s. refl;
        mutable = λ s. refl;
        sending = λ s. refl;
        acquired = λ s. refl;
        valid = λ s. refl;
        claimed = λ key s. refl;
        answered = λ s. refl;
        action_is = refl;
        opening = refl;
        confidence_is = refl;
        saved = λ i s. refl;
      })
      refl refl refl quiet

abbrev good_health : Health
good_health = record {
  status = some healthy;
  score = some (95 * unit);
  p95 = some 120;
  error_rate = some 0;
}

abbrev waiting : Incident
waiting = record opened { stage = some validated; stage_at = some 100 }

abbrev recovering : Services
recovering = record (serving (some waiting)) { fetch_health = λ url s. (some good_health, s) }

recovery_crashes_example :
    RecoveryTick recovering settings acme good_health waiting
      (process_tenant recovering settings acme at_work).0
      (process_tenant recovering settings acme at_work).1
unfolding can_mutate_state decide decide_with recovered_by should_recover new_incident is_stage
    stage_eq
recovery_crashes_example =
    recovery_crashes recovering settings acme good_health waiting (lease_on "inc-acme-10") alarm
      (record {
        fetched = λ s. refl;
        active = λ s. refl;
        mutable = λ s. refl;
        acquired = λ ttl s. refl;
        valid = λ s. refl;
        answered = λ s. refl;
      })
      refl (recover in_validated) refl at_work

calls_each_tick_example :
    VoiceTick
      (serving (some waiting))
      settings
      acme
      bad_health
      waiting
      (process_tenant (serving (some waiting)) settings acme at_work).0
      (process_tenant (serving (some waiting)) settings acme at_work).1
unfolding can_mutate_state can_escalate get_tenant_plan get_plan recovered_by should_recover
    new_incident
calls_each_tick_example =
    calls_each_tick (serving (some waiting)) settings acme bad_health waiting
      (lease_on "inc-acme-10") alarm
      (record {
        fetched = λ s. refl;
        active = λ s. refl;
        mutable = λ s. refl;
        acquired = λ ttl s. refl;
        valid = λ s. refl;
        answered = λ s. refl;
      })
      refl refl (λ s. refl) escalate refl 900_000 refl refl refl refl at_work
