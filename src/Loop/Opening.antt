-- ===== src/Loop/Opening.antt =====
-- How a tick opens an incident.
use Prim.Native.String.{◌++◌ as append}
use fastapi_alertengine.Prelude.{
  ℕ, ◌≡◌, refl, sym, String, true, false, Option, none, some, List, [], ◌∷◌, or_default,
}
use fastapi_alertengine.Degraded.{can_mutate_state, can_send_notifications}
use fastapi_alertengine.Lock.{Lease}
use fastapi_alertengine.Plans.{increment_incident_count}
use fastapi_alertengine.Policy.{should_open_new_incident}
use fastapi_alertengine.Pipeline.Stage.{detected}
use fastapi_alertengine.Pipeline.Incident.{Incident, new_incident}
use fastapi_alertengine.Pipeline.Decide as Decide
use fastapi_alertengine.Pipeline.Decide.{
  Health, HealthStatus, score_of, error_rate_of, Claude, ClaudeAction, number, Decision,
  decide_new_incident, schema_of, validate_decision_schema,
}
use fastapi_alertengine.Loop.Step.{
  Effect, leases, claims, asks, stores, activates, counts_incident, records, notifies, send, Step,
  Exit, go, ◌>>=◌,
}
use fastapi_alertengine.Loop.Services.{Services, Settings, TenantRecord}
use fastapi_alertengine.Loop.Actions.{fire, run_action, send_action, execute_actions}
use fastapi_alertengine.Loop.Tenant.{
  is_critical, is_healthy, opens, admits, with_lease, store_new, open_decided, open_leased,
  open_new, is_ok, process_incident, learn, process_health, process_report, process_tenant,
}
use fastapi_alertengine.Loop.Safety.{fresh}
use fastapi_alertengine.Loop.Traces.{
  Traces, Traces-pure, Traces-return, Traces-call, Traces-answer, Traces-emit, Traces-emit_any,
  Traces-item, Traces-require, Traces-assoc,
}

module _ (V : Services) (c : Settings) (tenant : TenantRecord) where
  open V use {State}

  pub with_lease-Traces :
      {R : Exit (Unit {0}) → List Effect → Type 0} (key : String) (ttl : ℕ)
      (body : Option Lease → Step State (Unit {0})) (lease : Lease)
      → ((s : State) → (V.acquire key ttl s).0 ≡ some lease)
      → Traces (λ x es. R x (leases key ∷ es)) (body (some lease))
      → Traces R (with_lease V c tenant key ttl body)
  unfolding with_lease
  with_lease-Traces {R} key ttl body lease acquired t = record { at = λ s. held s _ (acquired s) }
    where
      held :
          (s : State) (l : Option Lease)
          → l ≡ some lease
          → R (body l (V.acquire key ttl s).1).0 (leases key ∷ (body l (V.acquire key ttl s).1).1)
      held s l e = rw e (t.at (V.acquire key ttl s).1)

module _ (V : Services) (c : Settings) (tenant : TenantRecord) (health : Health) where
  open V use {State}

  -- What the services answer where an incident is opened.
  pub record Answers (lease : Lease) (claude : Claude) (action : ClaudeAction) (n : ℕ)
      : Type 0 where
    pub fetched : (s : State) → (V.fetch_health tenant.health_url s).0 ≡ some health
    pub closed : (s : State) → (V.get_tenant_incident tenant.tenant_id s).0 ≡ none
    pub mutable : (s : State) → can_mutate_state (V.degraded_mode s) ≡ true
    pub sending : (s : State) → can_send_notifications (V.degraded_mode s) ≡ true
    pub acquired :
        (s : State) → (V.acquire (append "creating-" tenant.tenant_id) 10 s).0 ≡ some lease
    pub valid : (s : State) → (V.is_valid lease s).0 ≡ true
    pub claimed : (key : String) (s : State) → (V.claim_action key s).0 ≡ true
    pub answered : (s : State) → (V.claude_decide health none tenant.tenant_id s).0 ≡ some claude
    pub action_is : claude.action ≡ some action
    pub opening : opens action ≡ true
    pub confidence_is : claude.confidence ≡ some (number n)
    pub saved : (i : Incident) (s : State) → (V.save_incident i s).0 ≡ true

  -- The effects of opening: the lease and the action are claimed, the model is asked, the incident is stored, made the active one,
  -- counted, logged, and its detection notified, in this order.
  abbrev pub Opening : ℕ → Exit (Unit {0}) → List Effect → Type 0
  Opening now x es =
      (x ≡ go tt)
      × ((started : ℕ) × (counted : ℕ) × (es
            ≡ leases (append "creating-" tenant.tenant_id)
              ∷ claims (c.creation_key (c.incident_id tenant.tenant_id now))
              ∷ asks none
              ∷ stores (fresh V c tenant health (c.incident_id tenant.tenant_id now) started)
              ∷ activates (c.incident_id tenant.tenant_id now)
              ∷ counts_incident (increment_incident_count counted tenant.plan)
              ∷ records (record {
                incident_id = c.incident_id tenant.tenant_id now;
                stage = some detected;
                shadow = false;
              })
              ∷ notifies (c.incident_id tenant.tenant_id now) (some detected) (send Decide.critical)
              ∷ []))

  -- the claims of the lease and of the action, before other effects
  abbrev prefixed : ℕ → List Effect → List Effect
  prefixed now es =
      leases (append "creating-" tenant.tenant_id)
      ∷ claims (c.creation_key (c.incident_id tenant.tenant_id now))
      ∷ es

  module _ (lease : Lease) (claude : Claude) (action : ClaudeAction) (n : ℕ)
      (A : Answers lease claude action n) (live : tenant.shadow_mode ≡ false) where
    -- the notification of the detection
    detect-Traces :
        {B : Type 0} {R : Exit B → List Effect → Type 0} (i : Incident)
        (g : Incident → Step State B)
        → Traces (λ x es. R x (notifies i.incident_id i.stage (send Decide.critical) ∷ es)) (g i)
        → Traces R
            (execute_actions V c tenant (Decide.send_notification Decide.critical ∷ []) i >>= g)
    unfolding execute_actions run_action send_action fire
    detect-Traces i g t = rw live (
        Traces-assoc _ _ _ (
          Traces-assoc _ _ _ (
            Traces-assoc _ _ _ (
              Traces-answer _ _ true A.sending
                (Traces-emit_any _ _ _ λ _. Traces-return _ _ (Traces-return _ _ t))))))

    store_new-Traces :
        (now started : ℕ) (d : Decision)
        → d.actions ≡ Decide.send_notification Decide.critical ∷ []
        → Traces
            (λ x es. Opening now x (prefixed now (asks none ∷ es)))
            (store_new V c tenant health (c.incident_id tenant.tenant_id now) d started)
    unfolding store_new new_incident
    store_new-Traces now started d e = rw e (
        Traces-emit _ _ _ true (A.saved _) (
          Traces-require true _ refl (
            Traces-emit_any _ _ _ λ _.
              Traces-call _ _ (λ _. Unit) (λ s. tt)
                λ counted _. Traces-emit_any _ _ _ λ _.
                  Traces-emit_any _ _ _
                    λ _. detect-Traces _ _ (Traces-pure tt (refl, (started, counted, refl))))))

    new_IsOk :
        (now : ℕ)
        → is_ok (
            validate_decision_schema (
              schema_of (
                decide_new_incident c.summary
                  (c.incident_id tenant.tenant_id now)
                  (score_of health)
                  (or_default health.p95 0)
                  (error_rate_of health)
                  n)))
          ≡ true
    unfolding decide_new_incident validate_decision_schema schema_of
    new_IsOk now = refl

    open_decided-Traces :
        (now : ℕ)
        → Traces
            (λ x es. Opening now x (prefixed now es))
            (open_decided V c tenant health (c.incident_id tenant.tenant_id now))
    unfolding open_decided decide_new_incident
    open_decided-Traces now = Traces-assoc _ _ _ (
        Traces-emit _ _ _ (some claude) A.answered (
          Traces-return _ _ (
            Traces-item _ _ action A.action_is (
              Traces-require _ _ A.opening (
                Traces-item _ _ (number n) A.confidence_is (
                  Traces-return _ _ (
                    Traces-require _ _ (new_IsOk now) (
                      Traces-call _ _ (λ _. Unit) (λ s. tt)
                        λ started _. store_new-Traces now started _ refl))))))))

    open_leased-Traces :
        (now : ℕ)
        → admits V c tenant health ≡ true
        → Traces
            (λ x es. Opening now x (leases (append "creating-" tenant.tenant_id) ∷ es))
            (open_leased V c tenant health now (some lease))
    unfolding open_leased should_open_new_incident
    open_leased-Traces now e = Traces-answer _ _ none A.closed (
        Traces-require _ _ refl (
          Traces-emit _ _ _ true (A.claimed _) (
            Traces-require _ _ refl (
              Traces-require _ _ e (
                Traces-assoc _ _ _ (
                  Traces-answer _ _ true A.valid
                    (Traces-require _ _ refl (open_decided-Traces now))))))))

    open_new-Traces :
        (now : ℕ)
        → admits V c tenant health ≡ true
        → Traces (Opening now) (open_new V c tenant health now)
    unfolding open_new
    open_new-Traces now e = Traces-assoc _ _ _ (
        Traces-answer _ _ true A.mutable (
          Traces-require _ _ refl
            (with_lease-Traces V c tenant _ _ _ lease A.acquired (open_leased-Traces now e))))

    critical_not_healthy :
        (st : Option HealthStatus) → is_critical st ≡ true → is_healthy st ≡ false
    critical_not_healthy none h = cc h
    critical_not_healthy (some Decide.healthy) h = sym h
    critical_not_healthy (some Decide.degraded) h = refl
    critical_not_healthy (some Decide.critical) h = refl
    critical_not_healthy (some (Decide.other t)) h = refl

    process_health-Traces :
        is_critical health.status ≡ true
        → admits V c tenant health ≡ true
        → Traces (λ x es. (now : ℕ) × Opening now x es) (process_health V c tenant health)
    unfolding process_health process_incident learn
    process_health-Traces h e = rw (critical_not_healthy health.status h) (
        Traces-call _ _ (λ _. Unit) (λ s. tt)
          λ now _. Traces-return _ _ (
            Traces-answer _ _ none A.closed
              (rw h (record { at = λ s. (now, (open_new-Traces now e).at s) }))))

    -- On a critical report that warrants an incident, where none is open, the services answer and the tenant is not in shadow mode,
    -- a tick returns after exactly these effects: it takes the lease, claims the opening, asks the model, stores the incident, makes it the active one, counts it, logs
    -- DETECTED, and notifies it.
    pub opens_incident :
        is_critical health.status ≡ true
        → admits V c tenant health ≡ true
        → (s : State)
        → (now : ℕ) × Opening now (process_tenant V c tenant s).0 (process_tenant V c tenant s).1
    unfolding process_tenant process_report
    opens_incident h e s =
        (Traces-answer _ _ (some health) A.fetched (process_health-Traces h e)).at s
