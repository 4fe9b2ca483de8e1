-- ===== src/Plans/Quota.antt =====
-- The incident quota over a history of incidents, and the resolution of plan names.
use fastapi_alertengine.Prelude.{ℕ, ◌+◌, ◌-◌, ◌≡◌, refl, ap, sym, ◌∙◌, List, [], ◌∷◌, arith, length}
use fastapi_alertengine.Plans.{
  Limit, unlimited, at_most, Tenant, get_tenant_plan, used_incidents, incident_quota_remaining,
  increment_incident_count,
}

-- The tenant after incidents at the given times, with nothing else done to it.
pub after_incidents : List ℕ → Tenant → Tenant
after_incidents [] tenant = tenant
after_incidents (now ∷ ts) tenant = after_incidents ts (increment_incident_count now tenant)

used-increment :
    (now : ℕ) (tenant : Tenant)
    → used_incidents (increment_incident_count now tenant) ≡ used_incidents tenant + 1
unfolding used_incidents increment_incident_count
used-increment now tenant = refl

used-after :
    (ts : List ℕ) (tenant : Tenant)
    → used_incidents (after_incidents ts tenant) ≡ used_incidents tenant + length ts
unfolding after_incidents
used-after [] tenant = omega arith
used-after (now ∷ ts) tenant =
    omega (arith, used-after ts (increment_incident_count now tenant), used-increment now tenant)

plan-increment :
    (now : ℕ) (tenant : Tenant)
    → get_tenant_plan (increment_incident_count now tenant) ≡ get_tenant_plan tenant
unfolding get_tenant_plan increment_incident_count
plan-increment now tenant = refl

plan-after :
    (ts : List ℕ) (tenant : Tenant)
    → get_tenant_plan (after_incidents ts tenant) ≡ get_tenant_plan tenant
unfolding after_incidents
plan-after [] tenant = refl
plan-after (now ∷ ts) tenant =
    plan-after ts (increment_incident_count now tenant) ∙ plan-increment now tenant

-- what is left of a quota after a number of incidents
abbrev pub left_of : Limit → ℕ → Limit
left_of unlimited k = unlimited
left_of (at_most n) k = at_most (n - k)

left_of_used : (l : Limit) (used k : ℕ) → left_of l (used + k) ≡ left_of (left_of l used) k
left_of_used unlimited used k = refl
left_of_used (at_most n) used k = ap at_most (omega arith)

quota_lem :
    (tenant : Tenant)
    → incident_quota_remaining tenant
      ≡ left_of (get_tenant_plan tenant).included_incidents (used_incidents tenant)
unfolding incident_quota_remaining
quota_lem tenant = ground arith

-- What is left of a quota after incidents is what was left before, less one for each of them and
-- never below zero, and an unlimited quota stays unlimited. The times of the incidents play no part:
-- the counter that the quota is taken from gets no reset when a month has passed.
pub quota_after_incidents :
    (ts : List ℕ) (tenant : Tenant)
    → incident_quota_remaining (after_incidents ts tenant)
      ≡ left_of (incident_quota_remaining tenant) (length ts)
quota_after_incidents ts tenant =
    rw (quota_lem, plan-after ts tenant, used-after ts tenant)
      (left_of_used _ (used_incidents tenant) (length ts)
        ∙ ap (λ l. left_of l (length ts)) (sym (quota_lem tenant)))
