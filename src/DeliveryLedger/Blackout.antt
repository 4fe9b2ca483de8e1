-- ===== src/DeliveryLedger/Blackout.antt =====
-- When the ledger reports that no delivery of an incident has succeeded.
use fastapi_alertengine.Prelude.{
  ℕ, ◌≡◌, ◌≢◌, ◌↔◌, refl, sym, ap, ◌∙◌, String, Bool, true, false, List, [], ◌∷◌, map, not, ◌&&◌,
}
use fastapi_alertengine.Redis.Client.{got, handle, World, pure, send, catch, continue}
use fastapi_alertengine.Redis.Lists.{RedisLists}
use fastapi_alertengine.Redis.ListCalls.{range}
use fastapi_alertengine.Redis.Texts.{
  JsonOf, load_each, reply_with, InTime, Reads, load_each-map, push_each, Pushed, push_each_items,
}
use fastapi_alertengine.DeliveryLedger.{
  Attempt, Entry, entry_of, none_succeeded, is_blackout, ledger_key, ledger_ttl, record_attempt,
  parse, get_delivery_log, all_failed,
}

-- an attempt with its time
abbrev pub Timed : Type 0
Timed = Attempt × ℕ

-- None of the attempts succeeded.
abbrev pub Failed : List Timed → Type 0
Failed [] = Unit
Failed ((a, now) ∷ xs) = (a.success ≡ false) × Failed xs

and_true : (b c : Bool) → (not b && c) ≡ true → (b ≡ false) × (c ≡ true)
and_true true c h = cc h
and_true false c h = (refl, h)

got_inj : {b c : Bool} → got b ≡ got c → b ≡ c
got_inj h = cc h

module _ (incident_id : String) where
  -- the entries of attempts
  abbrev pub entries : List Timed → List (Entry × ℕ)
  entries [] = []
  entries ((a, now) ∷ xs) = (entry_of incident_id a now, now) ∷ entries xs

  abbrev pub values : List Timed → List Entry
  values xs = map (λ x. x.0) (entries xs)

  none_succeeded_iff : (xs : List Timed) → (none_succeeded (values xs) ≡ true) ↔ Failed xs
  unfolding none_succeeded entry_of
  none_succeeded_iff [] = (λ h. tt, λ h. refl)
  none_succeeded_iff ((a, now) ∷ xs) =
      let rest = none_succeeded_iff xs in
      (λ h. let (b, c) = and_true a.success _ h in (b, rest.0 c), λ (b, h). rw (b, rest.1 h) refl)

  is_blackout_iff : (xs : List Timed) → (is_blackout (values xs) ≡ true) ↔ ((xs ≢ []) × Failed xs)
  unfolding is_blackout
  is_blackout_iff [] = (λ h. cc, λ h. absurd (h.0 refl))
  is_blackout_iff ((a, now) ∷ xs) = (
    λ h. (λ q. cc, (none_succeeded_iff ((a, now) ∷ xs)).0 h),
    λ h. (none_succeeded_iff ((a, now) ∷ xs)).1 h.1,
  )

module _ (R : RedisLists) (J : JsonOf Entry) (incident_id : String) where
  open R use {Server, items}

  -- the calls of `record`, one after the other
  abbrev pub record_each : List Timed → World Server → World Server
  record_each [] w = w
  record_each ((a, now) ∷ xs) w = record_each xs (record_attempt R J incident_id a now w).1

  -- each of them returned True
  abbrev pub Recorded : List Timed → World Server → Type 0
  Recorded [] w = Unit
  Recorded ((a, now) ∷ xs) w =
      ((record_attempt R J incident_id a now w).0 ≡ got true)
      × Recorded xs (record_attempt R J incident_id a now w).1

  Recorded-pushes :
      (xs : List Timed) (w : World Server)
      → Recorded xs w
      → Pushed J R (ledger_key incident_id) ledger_ttl (entries incident_id xs) w
        × (record_each xs w
            ≡ push_each J R (ledger_key incident_id) ledger_ttl (entries incident_id xs) w)
  unfolding record_attempt
  Recorded-pushes [] w h = (tt, refl)
  Recorded-pushes ((a, now) ∷ xs) w (h, hs) =
      let (pushed, same) = Recorded-pushes xs (record_attempt R J incident_id a now w).1 hs in
      ((h, pushed), same)

  -- The log read without faults is the attempts that were recorded in time on an empty list.
  log_read :
      (xs : List Timed) (w : World Server) (from t : ℕ)
      → Reads J (values incident_id xs)
      → ((u : ℕ) → items w.server u (ledger_key incident_id) ≡ [])
      → InTime ledger_ttl from (entries incident_id xs) t
      → Recorded xs w
      → (get_delivery_log R J incident_id t
          (record { server = (record_each xs w).server; faults = [] }))
        ≡ (got (values incident_id xs), record { server = (record_each xs w).server; faults = [] })
  unfolding get_delivery_log parse range send catch
  log_read xs w from t back empty timely h =
      let (pushed, same) = Recorded-pushes xs w h in
      let w' : World Server = record { server = (record_each xs w).server; faults = [] } in
      let texts =
        ap (λ v. items v.server t (ledger_key incident_id)) same
        ∙ push_each_items J R (ledger_key incident_id) ledger_ttl (entries incident_id xs) w from t
            [] (λ u a b. empty u) timely pushed in
      ap (λ o. handle {S = Server} (reply_with o) (pure []) w')
        (ap (load_each J) texts ∙ load_each-map J (values incident_id xs) back)

  -- After attempts that were recorded in time on an incident without a log, all_failed returns True exactly where there was
  -- an attempt and none succeeded, if JSON gives the entries back and Redis answers.
  pub blackout_exact :
      (xs : List Timed) (w : World Server) (from t : ℕ)
      → Reads J (values incident_id xs)
      → ((u : ℕ) → items w.server u (ledger_key incident_id) ≡ [])
      → InTime ledger_ttl from (entries incident_id xs) t
      → Recorded xs w
      → ((all_failed R J incident_id t
            (record { server = (record_each xs w).server; faults = [] })).0
          ≡ got true)
        ↔ ((xs ≢ []) × Failed xs)
  unfolding all_failed
  blackout_exact xs w from t back empty timely h =
      let found =
        ap (λ r. (continue {S = Server} r.0 (λ log. pure (is_blackout log)) r.1).0)
          (log_read xs w from t back empty timely h) in
      let exact = is_blackout_iff incident_id xs in
      (λ q. exact.0 (got_inj (sym found ∙ q)), λ q. found ∙ ap got (exact.1 q))
