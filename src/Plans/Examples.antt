-- ===== src/Plans/Examples.antt =====
-- The theorem about the quota at a tenant of the growth plan.
use fastapi_alertengine.Prelude.{ℕ, ◌≡◌, none, some, List, [], ◌∷◌}
use fastapi_alertengine.Plans.{Tenant, incident_quota_remaining}
use fastapi_alertengine.Plans.Quota.{after_incidents, left_of, quota_after_incidents}

abbrev customer : Tenant
customer = record {
  plan = some "developer";
  service_count = none;
  services_monitored = none;
  incident_count = none;
  incidents_this_month = some 8;
  last_updated = none;
}

-- Three incidents, each of them more than a month after the one before.
abbrev times : List ℕ
times = 3_000_000 ∷ 6_000_000 ∷ 9_000_000 ∷ []

quota_after_incidents_example :
    incident_quota_remaining (after_incidents times customer)
    ≡ left_of (incident_quota_remaining customer) 3
quota_after_incidents_example = quota_after_incidents times customer
