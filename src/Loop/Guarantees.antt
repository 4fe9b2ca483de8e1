-- ===== src/Loop/Guarantees.antt =====
-- What a tick guarantees, whatever the services answer.
use fastapi_alertengine.Prelude.{
  ℕ, ◌≡◌, ◌≢◌, arith, ◌⊎◌, inl, inr, refl, sym, ◌∙◌, String, true, false, Option, none, some, [],
  ◌∷◌, ◌++◌, All, or_default,
}
use fastapi_alertengine.Degraded.{can_mutate_state}
use fastapi_alertengine.Pipeline.Stage.{Stage, StageGates}
use fastapi_alertengine.Pipeline.Incident.{Incident, Entry, Clock, enter, transition, new_incident}
use fastapi_alertengine.Pipeline.Lifecycle.{
  advance, advance-IsLogged, IsLogged, new_incident-IsLogged, transition_cases,
}
use fastapi_alertengine.Pipeline.Decide.{Health, critical, score_of, error_rate_of}
use fastapi_alertengine.Plans.{
  Limit, unlimited, at_most, get_tenant_plan, can_monitor_more_services, incident_quota_remaining,
}
use fastapi_alertengine.Policy.{should_alert}
use fastapi_alertengine.Loop.Step.{
  Effect, stores, learns, leases, asks, activates, clears, counts_incident, notifies, calls_voice,
}
use fastapi_alertengine.Loop.Services.{Services, Settings, TenantRecord}
use fastapi_alertengine.Loop.Tenant.{has_quota, admits, process_tenant}
use fastapi_alertengine.Loop.Safety.{SameLife, Mutable, Loaded, Fetched, Opens, fresh, Allows}
use fastapi_alertengine.Loop.Process.{process_tenant-Ensures}

SameLife-IsLogged : (a b : Incident) → SameLife a b → IsLogged a → IsLogged b
SameLife-IsLogged a b (i, s, h, r) v = record {
  path = rw h at v.path;
  ends = rw (h, s) at v.ends;
  dated = rw (s, r) at v.dated;
  open_undated = rw (s, r) at v.open_undated;
}

transition-IsLogged :
    (gates : StageGates) (i : Incident) (t : Stage) (clock : Clock)
    → IsLogged i
    → IsLogged (transition gates i t none clock)
unfolding advance
transition-IsLogged gates i t clock v =
    advance-IsLogged gates i (record { target = t; metadata = none; clock = clock } ∷ []) v

-- an incident that is stored is logged
abbrev pub StoresLogged : Effect → Type 0
StoresLogged (stores i) = IsLogged i
StoresLogged e = Unit

-- the effects that reach the outside: messages and calls
abbrev pub IsInternal : Effect → Type 0
IsInternal (notifies i stage n) = ⊥
IsInternal (calls_voice i) = ⊥
IsInternal e = Unit

abbrev pub KeepsActive : Effect → Type 0
KeepsActive (clears i) = ⊥
KeepsActive e = Unit

-- the same history, or one entry more
abbrev pub Extends : Incident → Incident → Type 0
Extends i u = (u.history ≡ i.history) ⊎ ((e : Entry) × (u.history ≡ i.history ++ e ∷ []))

transition-Extends :
    (gates : StageGates) (i : Incident) (t : Stage) (clock : Clock)
    → Extends i (transition gates i t none clock)
unfolding enter
transition-Extends gates i t clock =
    transition_cases (Extends i) gates i (record { target = t; metadata = none; clock = clock })
      (inl refl) (λ arrow. inr (_, refl))

SameLife-Extends : (i a b : Incident) → SameLife a b → Extends i a → Extends i b
SameLife-Extends i a b (_, _, h, _) (inl e) = inl (sym h ∙ e)
SameLife-Extends i a b (_, _, h, _) (inr (x, e)) = inr (x, sym h ∙ e)

module _ (V : Services) (c : Settings) (tenant : TenantRecord) where
  open V use {State}

  -- The tests on the tenant and the metrics, one by one.
  abbrev pub MayOpen : Health → Type 0
  MayOpen health =
      (should_alert c.thresholds (score_of health) (error_rate_of health) ≡ true)
      × (can_monitor_more_services tenant.plan ≡ true)
      × (incident_quota_remaining tenant.plan ≢ at_most 0)
      × ((get_tenant_plan tenant.plan).has_claude_decision ≡ true)

  -- The report that the tick fetched is critical, and its tenant may have one more incident.
  abbrev pub Warrants : Health → Type 0
  Warrants health = Fetched V c tenant health × (health.status ≡ some critical) × MayOpen health

  quota_left : (l : Limit) → has_quota l ≡ true → l ≢ at_most 0
  quota_left unlimited h e = cc
  quota_left (at_most n) h e = ground (arith, h, e)

  admits-MayOpen : (health : Health) → admits V c tenant health ≡ true → MayOpen health
  unfolding admits
  admits-MayOpen health h = (
    ground (arith, h),
    ground (arith, h),
    quota_left (incident_quota_remaining tenant.plan) (ground (arith, h)),
    ground (arith, h),
  )

  Opens-Warrants : (health : Health) → Opens V c tenant health → Warrants health
  Opens-Warrants health (fetched, bad, admitted, m) = (fetched, bad, admits-MayOpen health admitted)

  -- where a stored incident comes from, and when one is opened
  abbrev pub IsWarranted : Effect → Type 0
  IsWarranted (stores u) =
      ((health : Health) × Warrants health
        × ((i : String) × (at : ℕ) × (u ≡ fresh V c tenant health i at)))
      ⊎ ((i : Incident) × Loaded V c tenant i × Extends i u)
  IsWarranted (activates i) = (health : Health) × Warrants health
  IsWarranted (counts_incident plan) = (health : Health) × Warrants health
  IsWarranted e = Unit

  -- what a tick may do before it looks at the mode: learn the baseline, and, of the open incident, take the lease and ask the model
  abbrev pub IsPrelude : Effect → Type 0
  IsPrelude (learns id) = id ≡ tenant.tenant_id
  IsPrelude (leases key) = (i : Incident) × Loaded V c tenant i × (key ≡ i.incident_id)
  IsPrelude (asks o) = (i : Incident) × Loaded V c tenant i × (o ≡ some i.incident_id)
  IsPrelude e = ⊥

  -- If the incidents that the tick loads are logged, so are all that it stores: each is a way through the
  -- diagram from the opening to its stage, with `resolved_at` set exactly in RESOLVED, whatever
  -- the model answers, whichever calls fail, and whatever other workers do between the calls.
  pub process_tenant_logged :
      ((s : State) (i : Incident)
        → (V.get_tenant_incident tenant.tenant_id s).0 ≡ some i
        → IsLogged i)
      → (s : State) → All StoresLogged (process_tenant V c tenant s).1
  process_tenant_logged loaded s = ((process_tenant-Ensures V c tenant allowed).at s).0
    where
      allowed : Allows V c tenant StoresLogged
      allowed = record {
        learning = tt;
        leasing = λ key why. tt;
        asking = λ o why. tt;
        claiming = λ key m. tt;
        storing_new = λ health i at o.
            SameLife-IsLogged
              (new_incident i (score_of health) (or_default health.p95 0) (error_rate_of health) at)
              _ (refl, refl, refl, refl) (new_incident-IsLogged i _ _ _ at);
        activating = λ health i o. tt;
        counting = λ health now o. tt;
        storing = λ i u (s', q) (health, claude, t, clock, proposed, same) m.
            SameLife-IsLogged (transition c.gates i t none clock) u same
              (transition-IsLogged c.gates i t clock (loaded s' i q));
        recording = λ i stage m. tt;
        shadowing = λ i stage on m. tt;
        notifying = λ i stage n live m. tt;
        calling = λ i live p m. tt;
      }

  -- In shadow mode a tick sends no notification and makes no call.
  pub shadow_mode_silent :
      tenant.shadow_mode ≡ true → (s : State) → All IsInternal (process_tenant V c tenant s).1
  shadow_mode_silent on s = ((process_tenant-Ensures V c tenant allowed).at s).0
    where
      allowed : Allows V c tenant IsInternal
      allowed = record {
        learning = tt;
        leasing = λ key why. tt;
        asking = λ o why. tt;
        claiming = λ key m. tt;
        storing_new = λ health i at o. tt;
        activating = λ health i o. tt;
        counting = λ health now o. tt;
        storing = λ i u q moved m. tt;
        recording = λ i stage m. tt;
        shadowing = λ i stage on' m. tt;
        notifying = λ i stage n live m. cc (on, live);
        calling = λ i live p m. cc (on, live);
      }

  -- While state may not be changed, all that a tick does is to write the baseline of its tenant, and, for an incident that
  -- it loaded, to take the lease and to ask the model: it opens, stores and claims no incident, logs nothing
  -- and sends nothing.
  pub emergency_silent :
      ((s : State) → can_mutate_state (V.degraded_mode s) ≡ false)
      → (s : State) → All IsPrelude (process_tenant V c tenant s).1
  emergency_silent closed s = ((process_tenant-Ensures V c tenant allowed).at s).0
    where
      never : Mutable V c tenant → ⊥
      never (s', q) = cc (closed s', q)

      leased :
          (key : String)
          → Mutable V c tenant ⊎ ((i : Incident) × Loaded V c tenant i × (key ≡ i.incident_id))
          → IsPrelude (leases key)
      leased key (inl m) = absurd (never m)
      leased key (inr held) = held

      asked :
          (o : Option String)
          → Mutable V c tenant ⊎ ((i : Incident) × Loaded V c tenant i × (o ≡ some i.incident_id))
          → IsPrelude (asks o)
      asked o (inl m) = absurd (never m)
      asked o (inr held) = held

      allowed : Allows V c tenant IsPrelude
      allowed = record {
        learning = refl;
        leasing = leased;
        asking = asked;
        claiming = λ key m. never m;
        storing_new = λ health i at (fetched, bad, admitted, m). never m;
        activating = λ health i (fetched, bad, admitted, m). never m;
        counting = λ health now (fetched, bad, admitted, m). never m;
        storing = λ i u q moved m. never m;
        recording = λ i stage m. never m;
        shadowing = λ i stage on m. never m;
        notifying = λ i stage n live m. never m;
        calling = λ i live p m. never m;
      }

  -- An incident that a tick stores is a new one of the report that it fetched, or the loaded one with at most one entry
  -- more in its history; and one is opened, made active and counted only where that report is critical, at
  -- metrics that warrant an alert, for a tenant below its limit of services, with quota left and a plan with
  -- decisions.
  pub process_tenant-IsWarranted : (s : State) → All IsWarranted (process_tenant V c tenant s).1
  process_tenant-IsWarranted s = ((process_tenant-Ensures V c tenant allowed).at s).0
    where
      allowed : Allows V c tenant IsWarranted
      allowed = record {
        learning = tt;
        leasing = λ key why. tt;
        asking = λ o why. tt;
        claiming = λ key m. tt;
        storing_new = λ health i at o. inl (health, Opens-Warrants health o, (i, at, refl));
        activating = λ health i o. (health, Opens-Warrants health o);
        counting = λ health now o. (health, Opens-Warrants health o);
        storing = λ i u q (health, claude, t, clock, proposed, same) m. inr (
          i,
          q,
          SameLife-Extends i (transition c.gates i t none clock) u same
              (transition-Extends c.gates i t clock),
        );
        recording = λ i stage m. tt;
        shadowing = λ i stage on m. tt;
        notifying = λ i stage n live m. tt;
        calling = λ i live p m. tt;
      }

  -- No tick removes the active incident of a tenant: the call that would is never reached.
  pub active_never_cleared : (s : State) → All KeepsActive (process_tenant V c tenant s).1
  active_never_cleared s = ((process_tenant-Ensures V c tenant allowed).at s).0
    where
      allowed : Allows V c tenant KeepsActive
      allowed = record {
        learning = tt;
        leasing = λ key why. tt;
        asking = λ o why. tt;
        claiming = λ key m. tt;
        storing_new = λ health i at o. tt;
        activating = λ health i o. tt;
        counting = λ health now o. tt;
        storing = λ i u q moved m. tt;
        recording = λ i stage m. tt;
        shadowing = λ i stage on m. tt;
        notifying = λ i stage n live m. tt;
        calling = λ i live p m. tt;
      }
