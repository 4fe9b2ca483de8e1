-- ===== src/Audit/Log.antt =====
-- The log in Redis: what is appended is read back, after what was there.
use fastapi_alertengine.Prelude.{
  ℕ, ◌+◌, ◌≤◌, ◌<◌, ◌≡◌, refl, ap, ◌∙◌, String, true, Option, none, some, List, [], ◌∷◌, ◌++◌,
}
use fastapi_alertengine.Redis.Client.{got, handle, World, pure, send, catch}
use fastapi_alertengine.Redis.Lists.{RedisLists}
use fastapi_alertengine.Redis.ListCalls.{range, push_for-true}
use fastapi_alertengine.Audit.{
  Event, Json, Decided, event_of, loads_all, cons_loaded, reply_of, audit_key, audit_ttl,
  append_event, parse, get_audit_log,
}

cons_inv :
    (o : Option Event) (os : Option (List Event)) {es : List Event}
    → cons_loaded o os ≡ some es
    → (y : Event) × (ys : List Event) × (o ≡ some y) × (os ≡ some ys) × (y ∷ ys ≡ es)
cons_inv none os h = cc
cons_inv (some y) none h = cc
cons_inv (some y) (some ys) h = (y, ys, refl, refl, cc h)

loads_all-append :
    (J : Json) (ts : List String) (es : List Event) (t : String) (e : Event)
    → loads_all J ts ≡ some es
    → J.loads t ≡ some e
    → loads_all J (ts ++ t ∷ []) ≡ some (es ++ e ∷ [])
unfolding loads_all
loads_all-append json [] es t e h q =
    let none_there : [] ≡ es = cc h in rw q (ap (λ zs. some (zs ++ e ∷ [])) none_there)
loads_all-append json (x ∷ ts) es t e h q =
    let (y, ys, l, ls, same) = cons_inv (json.loads x) (loads_all json ts) h in
    rw (l, loads_all-append json ts ys t e ls q) (ap (λ zs. some (zs ++ e ∷ [])) same)

module _ (R : RedisLists) (J : Json) where
  open R use {Server, items}

  -- An appended event is read after those that the log had, while it lives, if JSON gives the texts back.
  append_event_read :
      (incident_id : String) (d : Decided) (now : ℕ) (w : World Server) (log : List Event) (t : ℕ)
      → J.loads (J.dumps (event_of incident_id d now)) ≡ some (event_of incident_id d now)
      → loads_all J (items w.server now (audit_key incident_id)) ≡ some log
      → (append_event R J incident_id d now w).0 ≡ got true
      → now ≤ t
      → t < now + audit_ttl
      → (get_audit_log R J incident_id t
          (record { server = (append_event R J incident_id d now w).1.server; faults = [] })).0
        ≡ got (log ++ event_of incident_id d now ∷ [])
  unfolding append_event get_audit_log parse range send catch
  append_event_read incident_id d now w log t back before h a b =
      let w' : World Server = record {
        server = (append_event R J incident_id d now w).1.server;
        faults = [];
      } in
      let pushed =
        push_for-true R now (audit_key incident_id) (J.dumps (event_of incident_id d now)) audit_ttl
          w h t a b in
      let whole =
        loads_all-append J _ log (J.dumps (event_of incident_id d now)) (event_of incident_id d now)
          before back in
      ap (λ o. (handle {S = Server} (reply_of o) (pure []) w').0) (ap (loads_all J) pushed ∙ whole)
