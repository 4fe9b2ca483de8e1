-- ===== src/Loop/Safety.antt =====
-- The effects of a tick, each with what must hold where it happens. A property of all effects follows
-- from what `Allows` asks of each kind.
use fastapi_alertengine.Prelude.{
  ℕ, ◌≡◌, ◌⊎◌, refl, ◌∙◌, String, Bool, true, false, Option, none, some, List, [], ◌∷◌, or_default,
}
use fastapi_alertengine.Degraded.{can_mutate_state}
use fastapi_alertengine.Pipeline.Stage.{Stage}
use fastapi_alertengine.Pipeline.Incident.{Incident, Clock, new_incident, transition}
use fastapi_alertengine.Pipeline.Decide.{
  Health, critical, Claude, Notification, Action, send_notification, generate_token, escalate,
  score_of, error_rate_of, decide,
}
use fastapi_alertengine.Plans.{get_tenant_plan, increment_incident_count}
use fastapi_alertengine.Loop.Step.{
  Effect, stores, learns, leases, claims, asks, activates, counts_incident, records, notifies,
  calls_voice, Notice, send,
}
use fastapi_alertengine.Loop.Services.{Services, Settings, TenantRecord}
use fastapi_alertengine.Loop.Actions.{
  fire, record_shadow, if_open, send_action, token_for, token_action, call_action, run_action,
  execute_actions,
}
use fastapi_alertengine.Loop.Tenant.{admits}
use fastapi_alertengine.Loop.Ensures.{
  Ensures, Anything, Ensures-pure, Ensures-call, Ensures-emit, Ensures-bind, Ensures-weaken,
}

-- Two dicts with the same id, stage, history and resolution.
abbrev pub SameLife : Incident → Incident → Type 0
SameLife a b =
    (a.incident_id ≡ b.incident_id)
    × (a.stage ≡ b.stage)
    × (a.history ≡ b.history)
    × (a.resolved_at ≡ b.resolved_at)

pub SameLife-trans : (a b d : Incident) → SameLife a b → SameLife b d → SameLife a d
SameLife-trans a b d (p, q, r, s) (p', q', r', s') = (p ∙ p', q ∙ q', r ∙ r', s ∙ s')

module _ (V : Services) (c : Settings) (tenant : TenantRecord) where
  open V use {State}

  -- changes were allowed when the tick looked
  abbrev pub Mutable : Type 0
  Mutable = (s : State) × (can_mutate_state (V.degraded_mode s) ≡ true)

  abbrev pub Loaded : Incident → Type 0
  Loaded i = (s : State) × ((V.get_tenant_incident tenant.tenant_id s).0 ≡ some i)

  -- a transition to a stage that `decide` proposes, from the incident that was loaded
  abbrev pub Moved : Incident → Incident → Type 0
  Moved i u =
      (health : Health) × (claude : Claude) × (t : Stage) × (clock : Clock) × ((decide c.policy i
          health claude).next_stage
        ≡ some t)
      × SameLife (transition c.gates i t none clock) u

  abbrev pub Fetched : Health → Type 0
  Fetched health = (s : State) × ((V.fetch_health tenant.health_url s).0 ≡ some health)

  -- a critical report was fetched, of a tenant that may have one more incident
  abbrev pub Opens : Health → Type 0
  Opens health =
      Fetched health × (health.status ≡ some critical) × (admits V c tenant health ≡ true) × Mutable

  abbrev pub fresh : Health → String → ℕ → Incident
  fresh health incident_id started =
      record (new_incident incident_id (score_of health) (or_default health.p95 0)
        (error_rate_of health) started) { tenant_id = some tenant.tenant_id }

  pub record Allows (P : Effect → Type 0) : Type 0 where
    pub learning : P (learns tenant.tenant_id)
    pub leasing :
        (key : String)
        → Mutable ⊎ ((i : Incident) × Loaded i × (key ≡ i.incident_id))
        → P (leases key)
    pub asking :
        (o : Option String)
        → Mutable ⊎ ((i : Incident) × Loaded i × (o ≡ some i.incident_id))
        → P (asks o)
    pub claiming : (key : String) → Mutable → P (claims key)
    pub storing_new :
        (health : Health) (i : String) (at : ℕ) → Opens health → P (stores (fresh health i at))
    pub activating : (health : Health) (i : String) → Opens health → P (activates i)
    pub counting :
        (health : Health) (now : ℕ)
        → Opens health
        → P (counts_incident (increment_incident_count now tenant.plan))
    pub storing : (i u : Incident) → Loaded i → Moved i u → Mutable → P (stores u)
    pub recording :
        (i : String) (stage : Option Stage)
        → Mutable
        → P (records (record { incident_id = i; stage = stage; shadow = false }))
    pub shadowing :
        (i : String) (stage : Option Stage)
        → tenant.shadow_mode ≡ true
        → Mutable
        → P (records (record { incident_id = i; stage = stage; shadow = true }))
    pub notifying :
        (i : String) (stage : Option Stage) (n : Notice)
        → tenant.shadow_mode ≡ false
        → Mutable
        → P (notifies i stage n)
    pub calling :
        (i : String)
        → tenant.shadow_mode ≡ false
        → (get_tenant_plan tenant.plan).has_voice_escalation ≡ true
        → Mutable
        → P (calls_voice i)

  module _ {P : Effect → Type 0} (A : Allows P) (m : Mutable) where
    send_action-Ensures :
        (n : Notification) (i : String) (stage : Option Stage)
        → tenant.shadow_mode ≡ false
        → Ensures P Anything (send_action V c tenant n i stage)
    unfolding send_action fire
    send_action-Ensures n i stage live =
        Ensures-bind _ _ (Ensures-call {Q = Anything} _ (λ s. tt)) λ is_open _. guarded is_open
      where
        guarded :
            (b : Bool)
            → Ensures P Anything
                (if_open V c tenant b (fire V c tenant (notifies i stage (send n))))
        guarded true = Ensures-emit _ _ (A.notifying i stage (send n) live m) (λ s. tt)
        guarded false = Ensures-pure tt tt

    pub record_shadow-Ensures :
        (i : String) (stage : Option Stage)
        → tenant.shadow_mode ≡ true
        → Ensures P Anything (record_shadow V c tenant i stage)
    unfolding record_shadow
    record_shadow-Ensures i stage on = Ensures-emit _ _ (A.shadowing i stage on m) (λ s. tt)

    token_action-Ensures : (i : Incident) → Ensures P (SameLife i) (token_action V c tenant i)
    unfolding token_action token_for
    token_action-Ensures i =
        Ensures-bind _ _ (Ensures-call {Q = Anything} _ (λ s. tt)) λ is_open _. issued is_open
      where
        issued : (b : Bool) → Ensures P (SameLife i) (token_for V c tenant i b)
        issued false = Ensures-pure i (refl, refl, refl, refl)
        issued true =
            Ensures-bind _ _ (Ensures-call {Q = Anything} _ (λ s. tt))
              λ token _. Ensures-pure _ (refl, refl, refl, refl)

    call_action-Ensures :
        (i : Incident)
        → tenant.shadow_mode ≡ false
        → (b : Bool) → (get_tenant_plan tenant.plan).has_voice_escalation ≡ b
        → Ensures P Anything (call_action V c tenant b i)
    unfolding call_action fire
    call_action-Ensures i live false e = Ensures-pure tt tt
    call_action-Ensures i live true e =
        Ensures-bind _ _ (Ensures-call {Q = Anything} _ (λ s. tt)) λ is_open _. guarded is_open
      where
        guarded :
            (b : Bool)
            → Ensures P Anything
                (if_open V c tenant b (fire V c tenant (calls_voice i.incident_id)))
        guarded true = Ensures-emit _ _ (A.calling i.incident_id live e m) (λ s. tt)
        guarded false = Ensures-pure tt tt

    run_action-Ensures :
        (b : Bool)
        → tenant.shadow_mode ≡ b
        → (a : Action) (i : Incident) → Ensures P (SameLife i) (run_action V c tenant b a i)
    unfolding run_action
    run_action-Ensures true on (send_notification n) i =
        Ensures-bind _ _ (record_shadow-Ensures i.incident_id i.stage on)
          λ _ _. Ensures-pure i (refl, refl, refl, refl)
    run_action-Ensures false live (send_notification n) i =
        Ensures-bind _ _ (send_action-Ensures n i.incident_id i.stage live)
          λ _ _. Ensures-pure i (refl, refl, refl, refl)
    run_action-Ensures true on generate_token i =
        Ensures-bind _ _ (record_shadow-Ensures i.incident_id i.stage on)
          λ _ _. Ensures-pure i (refl, refl, refl, refl)
    run_action-Ensures false live generate_token i = token_action-Ensures i
    run_action-Ensures true on escalate i =
        Ensures-bind _ _ (record_shadow-Ensures i.incident_id i.stage on)
          λ _ _. Ensures-pure i (refl, refl, refl, refl)
    run_action-Ensures false live escalate i =
        Ensures-bind _ _ (call_action-Ensures i live _ refl)
          λ _ _. Ensures-pure i (refl, refl, refl, refl)

    pub execute_actions-Ensures :
        (actions : List Action) (i : Incident)
        → Ensures P (SameLife i) (execute_actions V c tenant actions i)
    unfolding execute_actions
    execute_actions-Ensures [] i = Ensures-pure i (refl, refl, refl, refl)
    execute_actions-Ensures (a ∷ actions) i =
        Ensures-bind _ _ (run_action-Ensures tenant.shadow_mode refl a i) λ u same.
          Ensures-weaken _ (λ e p. p) (λ v h. SameLife-trans i u v same h)
            (execute_actions-Ensures actions u)
