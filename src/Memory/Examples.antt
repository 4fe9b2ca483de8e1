-- ===== src/Memory/Examples.antt =====
-- The theorems about the incident store on a table with deadlines.
use fastapi_alertengine.Prelude.{
  ℕ, ◌+◌, ◌≤◌, ◌<◌, ◌≡◌, refl, String, true, none, some, List, [], ◌∷◌, arith,
}
use fastapi_alertengine.Redis.{text, plain}
use fastapi_alertengine.Redis.Client.{got, World, send, catch}
use fastapi_alertengine.Redis.Table.{Table, table, peek}
use fastapi_alertengine.Memory.{
  incident_ttl, Document, Json, incident_key, save_incident, save_with, write_active, write,
  resolve_incident, delete_key, get_incident, get_active_incident, append_audit,
}
use fastapi_alertengine.Memory.Saved.{Stores, save_incident_found}

abbrev incident : Document
incident = record {
  incident_id = some "inc-1";
  id = none;
  history = none;
  rest = ("stage", "DETECTED") ∷ [];
}

-- The text of this one document is read.
abbrev one : Json
one = record { dumps = λ d. "{incident}"; loads = λ t. some incident }

abbrev empty : World Table
empty = record { server = λ k. none; faults = [] }

abbrev saved : World Table
saved = (save_incident table one incident (some "acme") 100 empty).1

is_saved : (save_incident table one incident (some "acme") 100 empty).0 ≡ got true
unfolding save_incident save_with write_active write send catch
is_saved = refl

save_incident_found_example :
    ((i : String) × (some "inc-1" ≡ some i)
      × ((get_incident table one i 500 (record { server = saved.server; faults = [] })).0
          ≡ got (some incident)))
    × ((get_active_incident table one "acme" 500 (record { server = saved.server; faults = [] })).0
        ≡ got (some incident))
save_incident_found_example =
    save_incident_found table one incident "acme" 100 empty (refl, refl) refl is_saved 500
      (omega arith) (omega arith)

is_resolved : (resolve_incident table one "inc-1" "acme" 200 saved).0 ≡ got true
unfolding save_incident save_with write_active write resolve_incident delete_key send catch
is_resolved = refl

abbrev closed : Table
closed = (resolve_incident table one "inc-1" "acme" 200 saved).1.server

still_stored :
    (t : ℕ)
    → 100 ≤ t
    → t < 100 + incident_ttl
    → peek saved.server t (incident_key "inc-1") ≡ some (plain (text "{incident}"))
unfolding save_incident save_with write_active write send catch
still_stored t a b = ground (arith, a, b)

is_stored : Stores table one "inc-1" incident 200 300 saved.server
is_stored t a b = still_stored t (omega arith) (omega arith)

is_there : peek saved.server 150 (incident_key "inc-1") ≡ some (plain (text "{incident}"))
unfolding save_incident save_with write_active write send catch
is_there = refl

abbrev appended : List (String × String) → ℕ → Table
appended entry now =
    (append_audit table one "inc-1" entry now
      (record { server = saved.server; faults = [] })).1.server
