-- ===== src/Loop/Serving.antt =====
-- What a tick does with an open incident: how a recovery ends, and the voice call of AUTHORIZED.
use fastapi_alertengine.Prelude.{
  ℕ, ◌*◌, ◌≡◌, refl, inl, Bool, true, false, Option, none, some, List, [], ◌∷◌, ◌++◌, ◌&&◌, leb,
  if◌then◌else◌,
}
use fastapi_alertengine.Degraded.{can_mutate_state, can_escalate}
use fastapi_alertengine.Lock.{Lease}
use fastapi_alertengine.Plans.{get_tenant_plan}
use fastapi_alertengine.Pipeline.Stage.{
  validated, authorized, recovered, stage_eq, allowed_transitions,
}
use fastapi_alertengine.Pipeline.Incident.{Incident, Clock, is_stage, transition, enter}
use fastapi_alertengine.Pipeline.Lifecycle.{transition_cases}
use fastapi_alertengine.IncidentPolicy.{unit}
use fastapi_alertengine.Pipeline.Diagram.{◌⟶◌, ⟶-guards, can_transition_iff}
use fastapi_alertengine.Pipeline.Decide as Decide
use fastapi_alertengine.Pipeline.Decide.{
  Health, HealthStatus, score_of, error_rate_of, Claude, ClaudeAction, number, Decision, decide,
  decide_with, recovered_by, actions_for, schema_of, validate_decision_schema, escalate,
}
use fastapi_alertengine.Loop.Step.{
  Effect, learns, leases, asks, stores, records, calls_voice, Exit, crashed, call, ◌>>=◌, ◌>>◌,
}
use fastapi_alertengine.Loop.Services.{Services, Settings, TenantRecord}
use fastapi_alertengine.Loop.Actions.{fire, run_action, call_action, execute_actions}
use fastapi_alertengine.Loop.Tenant.{
  is_calm, is_healthy, is_ok, close, recover_incident, move, advance_to, advance_incident,
  process_leased, process_incident, learn, process_health, process_report, process_tenant,
}
use fastapi_alertengine.Loop.Opening.{with_lease-Traces}
use fastapi_alertengine.Loop.Traces.{
  Traces, Traces-crash, Traces-any, Traces-return, Traces-call, Traces-answer, Traces-emit,
  Traces-emit_any, Traces-item, Traces-require, Traces-assoc,
}

schema-IsOk : (d : Decision) → is_ok (validate_decision_schema (schema_of d)) ≡ true
unfolding validate_decision_schema schema_of
schema-IsOk d = refl

module _ (V : Services) (c : Settings) (tenant : TenantRecord) (health : Health)
    (incident : Incident) where
  open V use {State}

  -- What the services answer where an open incident is looked at.
  pub record Serves (lease : Lease) (claude : Claude) : Type 0 where
    pub fetched : (s : State) → (V.fetch_health tenant.health_url s).0 ≡ some health
    pub active : (s : State) → (V.get_tenant_incident tenant.tenant_id s).0 ≡ some incident
    pub mutable : (s : State) → can_mutate_state (V.degraded_mode s) ≡ true
    pub acquired : (ttl : ℕ) (s : State) → (V.acquire incident.incident_id ttl s).0 ≡ some lease
    pub valid : (s : State) → (V.is_valid lease s).0 ≡ true
    pub answered :
        (s : State) → (V.claude_decide health (some incident) tenant.tenant_id s).0 ≡ some claude

  -- the write of the baseline, which only a good report causes
  abbrev pub learning : Bool → List Effect
  learning good = if good then learns tenant.tenant_id ∷ [] else []

  abbrev pub is_good : Bool
  is_good = is_healthy health.status && leb (80 * unit) (score_of health)

  -- The tick ends by an exception; before it the baseline may be learnt, the lease is taken, the model asked, and the incident
  -- stored in RECOVERED with one entry more, and nothing else happens.
  abbrev pub RecoveryTick : Exit (Unit {0}) → List Effect → Type 0
  RecoveryTick x es =
      (x ≡ crashed)
      × ((u : Incident) × (at : ℕ) × (u.stage ≡ some recovered)
          × (u.history
              ≡ incident.history ++ record { stage = recovered; at = at; meta = none } ∷ [])
          × (es
              ≡ learning is_good
                ++ leases incident.incident_id ∷ asks (some incident.incident_id) ∷ stores u ∷ []))

  -- the effects of a tick in VALIDATED: the lease, a question to the model, a voice call, the incident stored, AUTHORIZED logged, and perhaps more
  abbrev pub VoiceTick : Exit (Unit {0}) → List Effect → Type 0
  VoiceTick x es =
      (clock : Clock) × (rest : List Effect) × (es
        ≡ leases incident.incident_id
          ∷ asks (some incident.incident_id)
          ∷ calls_voice incident.incident_id
          ∷ stores (transition c.gates incident authorized none clock)
          ∷ records (record {
            incident_id = incident.incident_id;
            stage = some authorized;
            shadow = false;
          })
          ∷ rest)

  module _ (lease : Lease) (claude : Claude) (A : Serves lease claude) where
    -- a tick comes to the incident under its lease, whatever is learnt before
    leased-Traces :
        (R : Exit (Unit {0}) → List Effect → Type 0)
        → ((now : ℕ)
            → Traces
                (λ x es. R x (learning is_good ++ leases incident.incident_id ∷ es))
                (process_leased V c tenant health now incident (some lease)))
        → (s : State) → R (process_tenant V c tenant s).0 (process_tenant V c tenant s).1
    unfolding process_tenant process_report process_health process_incident learn
    leased-Traces R t s = (Traces-answer _ _ (some health) A.fetched served).at s
      where
        found :
            (now : ℕ)
            → Traces
                (λ x es. R x (learning is_good ++ es))
                (call (V.get_tenant_incident tenant.tenant_id)
                  >>= process_incident V c tenant health now)
        found now =
            Traces-answer _ _ (some incident) A.active
              (with_lease-Traces V c tenant _ _ _ lease (A.acquired _) (t now))

        learnt :
            (now : ℕ) (b : Bool)
            → Traces
                (λ x es. R x (learning b ++ es))
                (call (V.get_tenant_incident tenant.tenant_id)
                  >>= process_incident V c tenant health now)
            → Traces R (
                learn V c tenant health b
                >> (call (V.get_tenant_incident tenant.tenant_id)
                    >>= process_incident V c tenant health now))
        learnt now true t = Traces-emit_any _ _ _ λ _. t
        learnt now false t = Traces-return _ _ t

        served : Traces R (process_health V c tenant health)
        served = Traces-call _ _ (λ _. Unit) (λ s. tt) λ now _. learnt now is_good (found now)

    recovery_stored :
        (clock : Clock)
        → (incident.stage ⟶ recovered)
        → RecoveryTick crashed (
            learning is_good
            ++ leases incident.incident_id
              ∷ asks (some incident.incident_id)
              ∷ stores (transition c.gates incident recovered none clock)
              ∷ [])
    unfolding transition enter
    recovery_stored clock arrow =
        let same =
          (can_transition_iff c.gates incident recovered clock.now clock.fallback).1
            (arrow, inl refl) in
        (
          refl,
          (
            transition c.gates incident recovered none clock,
            clock.at,
            rw (same, transition) refl,
            rw (same, transition) refl,
            refl,
          ),
        )

    recovery-Traces :
        (now : ℕ)
        → is_calm health.status ≡ true
        → (incident.stage ⟶ recovered)
        → is_stage (decide c.policy incident health claude).next_stage recovered ≡ true
        → Traces
            (λ x es. RecoveryTick x (learning is_good ++ leases incident.incident_id ∷ es))
            (process_leased V c tenant health now incident (some lease))
    unfolding process_leased recover_incident close
    recovery-Traces now calm arrow r =
        rw (calm, (⟶-guards arrow).0)
          (Traces-assoc _ _ _ (
            Traces-answer _ _ true A.valid (
              Traces-require _ _ refl (
                Traces-assoc _ _ _ (
                  Traces-emit _ _ _ (some claude) A.answered (
                    Traces-return _ _ (
                      Traces-require _ _ (schema-IsOk (decide c.policy incident health claude)) (
                        Traces-require _ _ r (
                          Traces-assoc _ _ _ (
                            Traces-answer _ _ true A.mutable (
                              Traces-require _ _ refl (
                                Traces-call _ _ (λ _. Unit) (λ s. tt)
                                  λ clock _.
                                    Traces-emit_any _ _ _
                                      λ _. Traces-crash _ (recovery_stored clock arrow)))))))))))))

    -- Where an incident in an active stage has recovered, a tick stores it in RECOVERED with one entry more and then ends by an
    -- exception: the call that would free the tenant for its next incident raises, and nothing is logged or
    -- notified. Before, it learns the baseline from a healthy report with a score of at least 80, takes the lease
    -- and asks the model.
    pub recovery_crashes :
        is_calm health.status ≡ true
        → (incident.stage ⟶ recovered)
        → is_stage (decide c.policy incident health claude).next_stage recovered ≡ true
        → (s : State) → RecoveryTick (process_tenant V c tenant s).0 (process_tenant V c tenant s).1
    recovery_crashes calm arrow r =
        leased-Traces RecoveryTick λ now. recovery-Traces now calm arrow r

    authorizes :
        (n : ℕ)
        → incident.stage ≡ some validated
        → recovered_by c.policy (score_of health) (error_rate_of health) ≡ false
        → claude.confidence ≡ some (number n)
        → ((decide c.policy incident health claude).next_stage ≡ some authorized)
          × ((decide c.policy incident health claude).actions ≡ escalate ∷ [])
    unfolding decide decide_with recovered_by actions_for allowed_transitions stage_eq
    authorizes n e r k = rw (k, e, r) (refl, refl)

    calm_healthy : (st : Option HealthStatus) → is_calm st ≡ false → is_healthy st ≡ false
    calm_healthy none h = cc
    calm_healthy (some Decide.healthy) h = cc
    calm_healthy (some Decide.degraded) h = cc
    calm_healthy (some Decide.critical) h = refl
    calm_healthy (some (Decide.other t)) h = refl

    not_good : is_calm health.status ≡ false → is_good ≡ false
    not_good calm = rw (calm_healthy health.status calm) refl

    same_id :
        (clock : Clock)
        → (transition c.gates incident authorized none clock).incident_id ≡ incident.incident_id
    unfolding enter
    same_id clock =
        transition_cases (λ u. u.incident_id ≡ incident.incident_id) c.gates incident
          (record { target = authorized; metadata = none; clock = clock }) refl (λ arrow. refl)

    module _ (live : tenant.shadow_mode ≡ false)
        (plan : (get_tenant_plan tenant.plan).has_voice_escalation ≡ true)
        (open_gate : (s : State) → can_escalate (V.degraded_mode s) ≡ true) (a : ClaudeAction)
        (named : claude.action ≡ some a) where
      move-Traces :
          (now : ℕ) (d : Decision)
          → d.actions ≡ escalate ∷ []
          → Traces
              (λ x es.
                VoiceTick x (leases incident.incident_id ∷ asks (some incident.incident_id) ∷ es))
              (move V c tenant health now incident claude d authorized)
      unfolding move execute_actions run_action call_action fire
      move-Traces now d acts =
          Traces-call _ _ (λ _. Unit) (λ s. tt)
            λ clock _.
              rw (acts, live, plan)
                (Traces-assoc _ _ _ (
                  Traces-assoc _ _ _ (
                    Traces-assoc _ _ _ (
                      Traces-answer _ _ true open_gate (
                        Traces-emit_any _ _ _ λ _. Traces-return _ _ (
                          Traces-return _ _ (
                            Traces-emit_any _ _ _ λ _. Traces-item _ _ a named (
                              Traces-emit_any _ _ _ λ _.
                                Traces-any _ λ x es. (clock, es, rw (same_id clock) refl)))))))))

      advance-Traces :
          (now : ℕ)
          → is_calm health.status ≡ false
          → (decide c.policy incident health claude).next_stage ≡ some authorized
          → (decide c.policy incident health claude).actions ≡ escalate ∷ []
          → Traces
              (λ x es. VoiceTick x (leases incident.incident_id ∷ es))
              (process_leased V c tenant health now incident (some lease))
      unfolding process_leased advance_incident advance_to
      advance-Traces now calm next acts = rw calm (
          Traces-assoc _ _ _ (
            Traces-answer _ _ true A.valid (
              Traces-require _ _ refl (
                Traces-assoc _ _ _ (
                  Traces-emit _ _ _ (some claude) A.answered (
                    Traces-return _ _ (
                      Traces-require _ _ (schema-IsOk (decide c.policy incident health claude)) (
                        rw next (
                          Traces-assoc _ _ _ (
                            Traces-answer _ _ true A.mutable (
                              Traces-require _ _ refl (
                                Traces-assoc _ _ _ (
                                  Traces-answer _ _ true A.valid
                                    (Traces-require _ _ refl (move-Traces now _ acts)))))))))))))))

      -- While an incident is in VALIDATED, its metrics are bad, escalations are allowed, the plan has voice and the
      -- tenant is not in shadow mode, each tick takes the lease, asks the model, makes a voice call and logs AUTHORIZED, also where the gate of the
      -- stage keeps the incident in VALIDATED.
      pub calls_each_tick :
          (n : ℕ)
          → is_calm health.status ≡ false
          → incident.stage ≡ some validated
          → recovered_by c.policy (score_of health) (error_rate_of health) ≡ false
          → claude.confidence ≡ some (number n)
          → (s : State) → VoiceTick (process_tenant V c tenant s).0 (process_tenant V c tenant s).1
      calls_each_tick n calm e r k =
          let (next, acts) = authorizes n e r k in
          leased-Traces VoiceTick λ now. rw (not_good calm) (advance-Traces now calm next acts)
