-- ===== src/Loop/Process.antt =====
-- A whole tick guarantees of its effects what `Allows` asks for.
use fastapi_alertengine.Prelude.{
  ℕ, ◌≡◌, ◌⊎◌, inl, inr, refl, ap, ◌∙◌, String, Bool, true, false, Option, none, some,
  if◌then◌else◌,
}
use fastapi_alertengine.Degraded.{can_mutate_state}
use fastapi_alertengine.Lock.{Lease}
use fastapi_alertengine.Pipeline.Stage.{Stage, detected, recovered, stage_eq_iff}
use fastapi_alertengine.Pipeline.Incident.{Incident, is_stage, transition}
use fastapi_alertengine.Pipeline.Decide.{
  Health, HealthStatus, critical, Claude, Number, number, not_a_number, Decision, decide,
}
use fastapi_alertengine.Loop.Step.{
  Effect, notifies, Notice, voice, secondary, Step, pure, leave, ◌>>◌,
}
use fastapi_alertengine.Loop.Services.{Services, Settings, TenantRecord}
use fastapi_alertengine.Loop.Actions.{fire, record_shadow}
use fastapi_alertengine.Loop.Tenant.{
  id_of, is_critical, admits, with_lease, may_mutate, lease_holds, ask, record_event, numeric,
  store_new, open_decided, open_leased, open_new, close, recover_incident, escalate_once,
  escalate_if, escalate_due, move, advance_to, advance_incident, process_leased, process_incident,
  learn, process_health, process_report, process_tenant,
}
use fastapi_alertengine.Loop.Ensures.{
  Ensures, Anything, Ensures-pure, Ensures-leave, Ensures-crash, Ensures-call, Ensures-emit,
  Ensures-item, Ensures-require, Ensures-bind, Ensures-weaken,
}
use fastapi_alertengine.Loop.Safety.{
  SameLife, SameLife-trans, Mutable, Loaded, Moved, Fetched, Opens, fresh, Allows,
  record_shadow-Ensures, execute_actions-Ensures,
}

is_stage-some : (o : Option Stage) (t : Stage) → is_stage o t ≡ true → o ≡ some t
unfolding is_stage
is_stage-some none t h = cc
is_stage-some (some s) t h = ap some ((stage_eq_iff s t).0 h)

is_critical-some : (st : Option HealthStatus) → is_critical st ≡ true → st ≡ some critical
is_critical-some none h = cc
is_critical-some (some critical) h = refl
is_critical-some (some _) h = cc

module _ (V : Services) (c : Settings) (tenant : TenantRecord) {P : Effect → Type 0}
    (A : Allows V c tenant P) where
  open V use {State}

  with_lease-Ensures :
      (key : String) (ttl : ℕ) (body : Option Lease → Step State (Unit {0}))
      → Mutable V c tenant ⊎ ((i : Incident) × Loaded V c tenant i × (key ≡ i.incident_id))
      → ((l : Option Lease) → Ensures P Anything (body l))
      → Ensures P Anything (with_lease V c tenant key ttl body)
  unfolding with_lease
  with_lease-Ensures key ttl body reason h = record {
    at = λ s.
        let (effects, ends) = (h (V.acquire key ttl s).0).at (V.acquire key ttl s).1 in
        ((A.leasing key reason, effects), ends);
  }

  may_mutate-Ensures : Ensures P (λ _. Mutable V c tenant) (may_mutate V c tenant)
  may_mutate-Ensures =
      Ensures-bind _ _
        (Ensures-call {Q = λ b. (s : State) × (can_mutate_state (V.degraded_mode s) ≡ b)} _
          (λ s. (s, refl)))
        λ b (s, e). Ensures-weaken _ (λ x p. p) (λ _ q. (s, e ∙ q)) (Ensures-require b)

  lease_holds-Ensures : (lease : Lease) → Ensures P Anything (lease_holds V c tenant lease)
  lease_holds-Ensures lease =
      Ensures-bind _ _ (Ensures-call {Q = Anything} _ (λ s. tt))
        λ b _. Ensures-weaken _ (λ x p. p) (λ _ q. tt) (Ensures-require b)

  ask-Ensures :
      (health : Health) (incident : Option Incident)
      → Mutable V c tenant
        ⊎ ((i : Incident) × Loaded V c tenant i × (id_of incident ≡ some i.incident_id))
      → Ensures P Anything (ask V c tenant health incident)
  ask-Ensures health incident reason =
      Ensures-bind _ _ (Ensures-emit {Q = Anything} _ _ (A.asking _ reason) (λ s. tt))
        λ o _. Ensures-weaken _ (λ x p. p) (λ _ q. tt) (Ensures-item o)

  numeric-Ensures : (n : Number) → Ensures P Anything (numeric V c tenant n)
  numeric-Ensures (number n) = Ensures-pure n tt
  numeric-Ensures not_a_number = Ensures-leave

  record_event-Ensures :
      (i : String) (stage : Option Stage)
      → Mutable V c tenant
      → Ensures P Anything (record_event V c tenant i stage)
  record_event-Ensures i stage m = Ensures-emit _ _ (A.recording i stage m) (λ s. tt)

  store_new-Ensures :
      (health : Health) (i : String) (d : Decision) (started : ℕ)
      → Opens V c tenant health
      → Ensures P Anything (store_new V c tenant health i d started)
  unfolding store_new
  store_new-Ensures health i d started (fetched, bad, admitted, m) =
      let o : Opens V c tenant health = (fetched, bad, admitted, m) in
      Ensures-bind _ _
        (Ensures-emit {Q = Anything} _ _ (A.storing_new health i started o) (λ s. tt))
        λ saved _. Ensures-bind _ _ (Ensures-require saved) λ _ _.
          Ensures-bind _ _ (Ensures-emit {Q = Anything} _ _ (A.activating health i o) (λ s. tt))
            λ _ _. Ensures-bind _ _ (Ensures-call {Q = Anything} _ (λ s. tt)) λ now _.
              Ensures-bind _ _ (Ensures-emit {Q = Anything} _ _ (A.counting health now o) (λ s. tt))
                λ _ _. Ensures-bind _ _ (record_event-Ensures i (some detected) m) λ _ _.
                  Ensures-bind _ _
                    (execute_actions-Ensures V c tenant A m d.actions
                      (fresh V c tenant health i started))
                    λ _ _. Ensures-pure tt tt

  open_decided-Ensures :
      (health : Health) (i : String)
      → Opens V c tenant health
      → Ensures P Anything (open_decided V c tenant health i)
  unfolding open_decided
  open_decided-Ensures health i o = Ensures-bind _ _ (ask-Ensures health none (inl o.3)) λ claude _.
      Ensures-bind _ _ (Ensures-item claude.action) λ action _.
        Ensures-bind _ _ (Ensures-require _) λ _ _.
          Ensures-bind _ _ (Ensures-item claude.confidence) λ confidence _.
            Ensures-bind _ _ (numeric-Ensures confidence) λ n _.
              Ensures-bind _ _ (Ensures-require _) λ _ _.
                Ensures-bind _ _ (Ensures-call {Q = Anything} _ (λ s. tt))
                  λ started _. store_new-Ensures health i _ started o

  open_leased-Ensures :
      (health : Health) (now : ℕ)
      → Fetched V c tenant health
      → is_critical health.status ≡ true
      → Mutable V c tenant
      → (l : Option Lease) → Ensures P Anything (open_leased V c tenant health now l)
  unfolding open_leased
  open_leased-Ensures health now fetched bad m none = Ensures-leave
  open_leased-Ensures health now fetched bad m (some lease) =
      Ensures-bind _ _ (Ensures-call {Q = Anything} _ (λ s. tt)) λ existing _.
        Ensures-bind _ _ (Ensures-require _) λ _ _.
          Ensures-bind _ _ (Ensures-emit {Q = Anything} _ _ (A.claiming _ m) (λ s. tt)) λ claimed _.
            Ensures-bind _ _ (Ensures-require claimed) λ _ _.
              Ensures-bind _ _ (Ensures-require (admits V c tenant health)) λ _ admitted.
                Ensures-bind _ _ (lease_holds-Ensures lease) λ _ _.
                  open_decided-Ensures health _
                    (fetched, is_critical-some health.status bad, admitted, m)

  open_new-Ensures :
      (health : Health) (now : ℕ)
      → Fetched V c tenant health
      → is_critical health.status ≡ true
      → Ensures P Anything (open_new V c tenant health now)
  unfolding open_new
  open_new-Ensures health now fetched bad =
      Ensures-bind _ _ may_mutate-Ensures
        λ _ m. with_lease-Ensures _ 10 _ (inl m) (open_leased-Ensures health now fetched bad m)

  -- what is known of the incident that was loaded
  module _ (i : Incident) (loaded : Loaded V c tenant i) where
    close-Ensures :
        (health : Health) (claude : Claude)
        → is_stage (decide c.policy i health claude).next_stage recovered ≡ true
        → Ensures P Anything (close V c tenant health i claude (decide c.policy i health claude))
    unfolding close
    close-Ensures health claude proposed = Ensures-bind _ _ may_mutate-Ensures λ _ m.
        Ensures-bind _ _ (Ensures-call {Q = Anything} _ (λ s. tt)) λ clock _.
          Ensures-bind _ _
            (Ensures-emit {Q = Anything} _ _
              (A.storing i _ loaded
                (
                  health,
                  claude,
                  recovered,
                  clock,
                  is_stage-some _ recovered proposed,
                  (refl, refl, refl, refl),
                )
                m)
              (λ s. tt))
            λ _ _. Ensures-bind {Q = λ _. ⊥} _ _ Ensures-crash (λ _ no. absurd no)

    recover_incident-Ensures :
        (health : Health) → Ensures P Anything (recover_incident V c tenant health i)
    unfolding recover_incident
    recover_incident-Ensures health =
        Ensures-bind _ _ (ask-Ensures health (some i) (inr (i, loaded, refl))) λ claude _.
          Ensures-bind _ _ (Ensures-require _) λ _ _.
            Ensures-bind _ _ (Ensures-require _) λ _ proposed. close-Ensures health claude proposed

    escalate_once-Ensures :
        (n : Notice) (t : Stage) (u : Incident)
        → Moved V c tenant i u
        → Mutable V c tenant
        → (b : Bool) → Ensures P (SameLife u) (escalate_once V c tenant n i.incident_id t u b)
    unfolding escalate_once fire
    escalate_once-Ensures n t u moved m false = Ensures-pure u (refl, refl, refl, refl)
    escalate_once-Ensures n t u moved m true =
        Ensures-bind _ _ (Ensures-emit {Q = Anything} _ _ (A.storing i u loaded moved m) (λ s. tt))
          λ _ _. told tenant.shadow_mode refl
      where
        told :
            (b : Bool)
            → tenant.shadow_mode ≡ b
            → Ensures P (SameLife u) (
                if b
                then record_shadow V c tenant i.incident_id (some t) >> pure u
                else fire V c tenant (notifies i.incident_id (some t) n) >> pure u)
        told true on =
            Ensures-bind _ _ (record_shadow-Ensures V c tenant A m i.incident_id (some t) on)
              λ _ _. Ensures-pure u (refl, refl, refl, refl)
        told false live =
            Ensures-bind _ _
              (Ensures-emit {Q = Anything} _ _ (A.notifying i.incident_id (some t) n live m)
                (λ s. tt))
              λ _ _. Ensures-pure u (refl, refl, refl, refl)

    Moved-SameLife : (u v : Incident) → Moved V c tenant i u → SameLife u v → Moved V c tenant i v
    Moved-SameLife u v (health, claude, t, clock, proposed, same) also = (
      health,
      claude,
      t,
      clock,
      proposed,
      SameLife-trans (transition c.gates i t none clock) u v same also,
    )

    escalate_if-Ensures :
        (n : Notice) (t : Stage) (u marked : Incident)
        → Moved V c tenant i u
        → SameLife u marked
        → Mutable V c tenant
        → (b : Bool) → Ensures P (SameLife u) (escalate_if V c tenant n i.incident_id t u marked b)
    unfolding escalate_if
    escalate_if-Ensures n t u marked moved same m false = Ensures-pure u (refl, refl, refl, refl)
    escalate_if-Ensures n t u marked moved same m true =
        Ensures-bind _ _ (Ensures-call {Q = Anything} _ (λ s. tt)) λ is_open _. chosen is_open
      where
        chosen :
            (b : Bool)
            → Ensures P
                (SameLife u)
                (escalate_once V c tenant n i.incident_id t (if b then marked else u) b)
        chosen true =
            Ensures-weaken _ (λ e p. p) (λ v h. SameLife-trans u marked v same h)
              (escalate_once-Ensures n t marked (Moved-SameLife u marked moved same) m true)
        chosen false = escalate_once-Ensures n t u moved m false

    escalate_due-Ensures :
        (health : Health) (t : Stage) (duration : ℕ) (u : Incident)
        → Moved V c tenant i u
        → Mutable V c tenant
        → Ensures P Anything (escalate_due V c tenant health i t duration u)
    unfolding escalate_due
    escalate_due-Ensures health t duration u moved m =
        Ensures-bind _ _ (escalate_if-Ensures voice t u _ moved (refl, refl, refl, refl) m _)
          λ v same.
            Ensures-bind _ _
              (escalate_if-Ensures secondary t v _ (Moved-SameLife u v moved same)
                (refl, refl, refl, refl) m _)
              λ _ _. Ensures-pure tt tt

    move-Ensures :
        (health : Health) (now : ℕ) (claude : Claude) (t : Stage)
        → (decide c.policy i health claude).next_stage ≡ some t
        → Mutable V c tenant
        → Ensures P Anything
            (move V c tenant health now i claude (decide c.policy i health claude) t)
    unfolding move
    move-Ensures health now claude t proposed m =
        Ensures-bind _ _ (Ensures-call {Q = Anything} _ (λ s. tt)) λ clock _.
          Ensures-bind _ _
            (execute_actions-Ensures V c tenant A m _ (transition c.gates i t none clock))
            λ u same.
              let moved : Moved V c tenant i u = (health, claude, t, clock, proposed, same) in
              Ensures-bind _ _
                (Ensures-emit {Q = Anything} _ _ (A.storing i u loaded moved m) (λ s. tt))
                λ _ _. Ensures-bind _ _ (Ensures-item claude.action) λ _ _.
                  Ensures-bind _ _ (record_event-Ensures i.incident_id (some t) m)
                    λ _ _. escalate_due-Ensures health t _ u moved m

    advance_to-Ensures :
        (health : Health) (now : ℕ) (lease : Lease) (claude : Claude) (o : Option Stage)
        → (decide c.policy i health claude).next_stage ≡ o
        → Ensures P Anything
            (advance_to V c tenant health now i lease claude (decide c.policy i health claude) o)
    unfolding advance_to
    advance_to-Ensures health now lease claude none e = Ensures-leave
    advance_to-Ensures health now lease claude (some t) e =
        Ensures-bind _ _ may_mutate-Ensures λ _ m.
          Ensures-bind _ _ (lease_holds-Ensures lease) λ _ _. move-Ensures health now claude t e m

    advance_incident-Ensures :
        (health : Health) (now : ℕ) (lease : Lease)
        → Ensures P Anything (advance_incident V c tenant health now i lease)
    unfolding advance_incident
    advance_incident-Ensures health now lease =
        Ensures-bind _ _ (ask-Ensures health (some i) (inr (i, loaded, refl))) λ claude _.
          Ensures-bind _ _ (Ensures-require _)
            λ _ _. advance_to-Ensures health now lease claude _ refl

    process_leased-Ensures :
        (health : Health) (now : ℕ) (l : Option Lease)
        → Ensures P Anything (process_leased V c tenant health now i l)
    unfolding process_leased
    process_leased-Ensures health now none = Ensures-leave
    process_leased-Ensures health now (some lease) =
        Ensures-bind _ _ (lease_holds-Ensures lease) λ _ _. chosen _
      where
        chosen :
            (b : Bool)
            → Ensures P Anything (
                if b
                then recover_incident V c tenant health i
                else advance_incident V c tenant health now i lease)
        chosen true = recover_incident-Ensures health
        chosen false = advance_incident-Ensures health now lease

  process_incident-Ensures :
      (health : Health) (now : ℕ) (o : Option Incident)
      → Fetched V c tenant health
      → ((i : Incident) → o ≡ some i → Loaded V c tenant i)
      → Ensures P Anything (process_incident V c tenant health now o)
  unfolding process_incident
  process_incident-Ensures health now none fetched h = chosen (is_critical health.status) refl
    where
      chosen :
          (b : Bool)
          → is_critical health.status ≡ b
          → Ensures P Anything (if b then open_new V c tenant health now else leave)
      chosen true bad = open_new-Ensures health now fetched bad
      chosen false _ = Ensures-leave
  process_incident-Ensures health now (some i) fetched h =
      with_lease-Ensures _ _ _ (inr (i, h i refl, refl))
        (process_leased-Ensures i (h i refl) health now)

  learn-Ensures : (health : Health) (b : Bool) → Ensures P Anything (learn V c tenant health b)
  unfolding learn
  learn-Ensures health true = Ensures-emit _ _ A.learning (λ s. tt)
  learn-Ensures health false = Ensures-pure tt tt

  process_report-Ensures :
      (o : Option Health)
      → ((health : Health) → o ≡ some health → Fetched V c tenant health)
      → Ensures P Anything (process_report V c tenant o)
  unfolding process_report process_health
  process_report-Ensures none f = Ensures-leave
  process_report-Ensures (some health) f =
      Ensures-bind _ _ (Ensures-call {Q = Anything} _ (λ s. tt)) λ now _.
        Ensures-bind _ _ (learn-Ensures health _) λ _ _.
          Ensures-bind _ _
            (Ensures-call
              {Q = λ o. (s : State) × ((V.get_tenant_incident tenant.tenant_id s).0 ≡ o)} _
              (λ s. (s, refl)))
            λ o (s, e). process_incident-Ensures health now o (f health refl) (λ i q. (s, e ∙ q))

  -- Every effect of a tick has the property.
  pub process_tenant-Ensures : Ensures P Anything (process_tenant V c tenant)
  unfolding process_tenant
  process_tenant-Ensures =
      Ensures-bind _ _
        (Ensures-call {Q = λ o. (s : State) × ((V.fetch_health tenant.health_url s).0 ≡ o)} _
          (λ s. (s, refl)))
        λ report (s, e). process_report-Ensures report (λ health q. (s, e ∙ q))
