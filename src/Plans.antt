-- ===== src/Plans.antt =====
-- orchestrator/plans.py: the plans of the tenants, their limits and the incident counter.
--
-- -1, which stands for "unlimited" in the source, is a constructor here. Fees are whole numbers of
-- millionths.
pub mod Quota
mod Examples
use fastapi_alertengine.Prelude.{
  ℕ, ◌+◌, ◌-◌, String, Bool, true, false, Option, none, some, List, [], ◌∷◌, ltb, str_eq,
  or_default, if◌then◌else◌, length,
}

pub data Limit : Type 0 where
  unlimited : Limit
  at_most : ℕ → Limit

pub record TenantPlan : Type 0 where
  pub name : String
  pub max_services : Limit
  pub included_incidents : Limit
  pub overage_fee_per_incident : ℕ
  pub default_provider : String
  pub has_dlq_access : Bool
  pub has_claude_decision : Bool
  pub has_voice_escalation : Bool
  pub has_custom_thresholds : Bool
  pub has_slack : Bool

abbrev pub starter : TenantPlan
starter = record {
  name = "starter";
  max_services = at_most 1;
  included_incidents = at_most 5;
  overage_fee_per_incident = 0;
  default_provider = "telegram";
  has_dlq_access = false;
  has_claude_decision = false;
  has_voice_escalation = false;
  has_custom_thresholds = false;
  has_slack = false;
}

abbrev pub growth : TenantPlan
growth = record {
  name = "growth";
  max_services = at_most 1;
  included_incidents = at_most 10;
  overage_fee_per_incident = 0;
  default_provider = "whatsapp";
  has_dlq_access = false;
  has_claude_decision = true;
  has_voice_escalation = false;
  has_custom_thresholds = false;
  has_slack = false;
}

abbrev pub team : TenantPlan
team = record {
  name = "team";
  max_services = at_most 3;
  included_incidents = at_most 50;
  overage_fee_per_incident = 100_000;
  default_provider = "whatsapp";
  has_dlq_access = false;
  has_claude_decision = true;
  has_voice_escalation = false;
  has_custom_thresholds = false;
  has_slack = false;
}

abbrev pub compliance : TenantPlan
compliance = record {
  name = "compliance";
  max_services = at_most 10;
  included_incidents = at_most 200;
  overage_fee_per_incident = 50_000;
  default_provider = "whatsapp";
  has_dlq_access = true;
  has_claude_decision = true;
  has_voice_escalation = true;
  has_custom_thresholds = false;
  has_slack = true;
}

abbrev pub platform : TenantPlan
platform = record {
  name = "platform";
  max_services = at_most 20;
  included_incidents = at_most 1000;
  overage_fee_per_incident = 20_000;
  default_provider = "whatsapp";
  has_dlq_access = true;
  has_claude_decision = true;
  has_voice_escalation = true;
  has_custom_thresholds = true;
  has_slack = true;
}

abbrev pub enterprise : TenantPlan
enterprise = record {
  name = "enterprise";
  max_services = unlimited;
  included_incidents = unlimited;
  overage_fee_per_incident = 0;
  default_provider = "whatsapp";
  has_dlq_access = true;
  has_claude_decision = true;
  has_voice_escalation = true;
  has_custom_thresholds = true;
  has_slack = true;
}

-- `PLANS`
abbrev pub plans : List (String × TenantPlan)
plans =
    ("starter", starter)
    ∷ ("growth", growth)
    ∷ ("team", team)
    ∷ ("compliance", compliance)
    ∷ ("platform", platform)
    ∷ ("enterprise", enterprise)
    ∷ []

-- `PLAN_ALIASES`
abbrev pub plan_aliases : List (String × String)
plan_aliases =
    ("hobby", "starter")
    ∷ ("developer", "growth")
    ∷ ("solo", "team")
    ∷ ("startup", "compliance")
    ∷ ("scale", "platform")
    ∷ ("teams", "platform")
    ∷ []

-- `DEFAULT_PLAN`
abbrev pub default_plan : String
default_plan = "team"

-- `dict.get(key, default)`
unfoldable pub get {ℓ} : {A : Type ℓ} → List (String × A) → String → A → A
get [] key d = d
get ((k, a) ∷ rest) key d = if str_eq k key then a else get rest key d

unfoldable pub get_plan : String → TenantPlan
unfolding get
get_plan plan_name = get plans (get plan_aliases plan_name plan_name) team

-- The value under `service_count` or `services_monitored`: a list of services or a number.
pub data Services : Type 0 where
  services : List String → Services
  count : ℕ → Services

-- The fields of a tenant that this module reads or writes.
pub record Tenant : Type 0 where
  pub plan : Option String
  pub service_count : Option Services
  pub services_monitored : Option Services
  pub incident_count : Option ℕ
  pub incidents_this_month : Option ℕ
  pub last_updated : Option ℕ

unfoldable pub get_tenant_plan : Tenant → TenantPlan
get_tenant_plan tenant = get_plan (or_default tenant.plan default_plan)

abbrev pub number_of : Services → ℕ
number_of (services l) = length l
number_of (count n) = n

-- `tenant.get("service_count", tenant.get("services_monitored", []))`, counted
unfoldable pub service_total : Tenant → ℕ
service_total tenant =
    number_of (or_default tenant.service_count (or_default tenant.services_monitored (services [])))

unfoldable pub can_monitor_more_services : Tenant → Bool
unfolding service_total
can_monitor_more_services tenant = elim (get_tenant_plan tenant).max_services [
  | unlimited ↦ true
  | at_most n ↦ ltb (service_total tenant) n
]

-- `tenant.get("incident_count", tenant.get("incidents_this_month", 0))`
unfoldable pub used_incidents : Tenant → ℕ
used_incidents tenant = or_default tenant.incident_count (or_default tenant.incidents_this_month 0)

-- `max(included - used, 0)` is the subtraction that stops at 0.
unfoldable pub incident_quota_remaining : Tenant → Limit
unfolding used_incidents
incident_quota_remaining tenant = elim (get_tenant_plan tenant).included_incidents [
  | unlimited ↦ unlimited
  | at_most n ↦ at_most (n - used_incidents tenant)
]

unfoldable pub increment_incident_count : ℕ → Tenant → Tenant
unfolding used_incidents
increment_incident_count now tenant = record tenant {
  incident_count = some (used_incidents tenant + 1);
  incidents_this_month = some (used_incidents tenant + 1);
  last_updated = some now;
}
