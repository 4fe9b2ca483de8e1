-- ===== src/Memory.antt =====
-- orchestrator/memory.py: the incidents that are kept in Redis.
--
-- JSON is an interface: `loads` is none where it raises. A document is the keys that the code reads,
-- and the others.
pub mod Keys
pub mod Saved
mod Examples
use Prim.Native.String.{◌++◌ as append}
use fastapi_alertengine.Prelude.{
  ℕ, ◌≡◌, String, Bool, true, false, Option, none, some, List, [], ◌∷◌, ◌++◌, str_eq, or_default,
  is_some, not, ◌&&◌, if◌then◌else◌,
}
use fastapi_alertengine.Redis.{Redis, Item, text, number, Value, plain, hash}
use fastapi_alertengine.Redis.Client.{
  Reply, got, raised, World, Call, pure, send, catch, ◌>>=◌, ◌>>◌,
}

-- `INCIDENT_TTL`
abbrev pub incident_ttl : ℕ
incident_ttl = 86_400

-- An entry of the history, with its time where it has one.
pub record AuditEntry : Type 0 where
  pub fields : List (String × String)
  pub at : Option ℕ

pub record Document : Type 0 where
  pub incident_id : Option String
  pub id : Option String
  pub history : Option (List AuditEntry)
  pub rest : List (String × String)

-- `json.dumps` and `json.loads`
pub record Json : Type 0 where
  pub dumps : Document → String
  pub loads : String → Option Document

-- A document whose text is read back as it was, as JSON does for the values that it has.
abbrev pub RoundTrips : Json → Document → Type 0
RoundTrips J d = (J.loads (J.dumps d) ≡ some d) × (str_eq (J.dumps d) "" ≡ false)

abbrev pub incident_key : String → String
incident_key incident_id = append "orchestrator:incident:" incident_id

abbrev pub active_key : String → String
active_key tenant_id = append "orchestrator:active_incident:" tenant_id

-- a text that is there and not empty
abbrev pub truthy : Option String → Option String
truthy none = none
truthy (some s) = if str_eq s "" then none else some s

-- `incident.get("incident_id") or incident.get("id")`
abbrev pub or_else : Option String → Option String → Option String
or_else none b = b
or_else (some a) b = some a

abbrev pub id_of : Document → Option String
id_of d = or_else (truthy d.incident_id) (truthy d.id)

abbrev no_items : List (String × String) → Bool
no_items [] = true
no_items (x ∷ xs) = false

-- `not incident`: a document with no keys
abbrev pub is_empty : Document → Bool
is_empty d =
    not (is_some d.incident_id) && not (is_some d.id) && not (is_some d.history) && no_items d.rest

-- `{**entry, "at": time.time()}`, and `incident.setdefault("history", [])` before it
abbrev pub with_entry : Document → List (String × String) → ℕ → Document
with_entry d entry now = record d {
  history = some (or_default d.history [] ++ (record { fields = entry; at = some now } ∷ []));
}

module _ (R : Redis) (J : Json) where
  open R use {Server, peek, setex, del}
  open J use {dumps, loads}

  unfoldable pub write : ℕ → String → String → Server → Reply Bool × Server
  write now k v s = (got true, setex now k incident_ttl (text v) s)

  -- GET
  abbrev pub text_at : Option Value → Reply (Option String)
  text_at none = got none
  text_at (some (plain (text t))) = got (some t)
  text_at (some (plain (number n))) = raised
  text_at (some (hash m)) = raised

  unfoldable pub read : ℕ → String → Server → Reply (Option String) × Server
  read now k s = (text_at (peek s now k), s)

  unfoldable pub delete_key : ℕ → String → Server → Reply Bool × Server
  delete_key now k s = (got true, del now k s)

  -- the second SETEX, for a tenant that is there and not empty
  unfoldable pub write_active : Option String → String → ℕ → Call Server Bool
  write_active none incident_id now = pure true
  write_active (some tenant_id) incident_id now =
      send (write now (active_key tenant_id) incident_id) >> pure true

  unfoldable pub save_with : Document → Option String → ℕ → Option String → Call Server Bool
  save_with incident tenant_id now none = pure false
  save_with incident tenant_id now (some incident_id) =
      catch
        (send (write now (incident_key incident_id) (dumps incident))
          >> write_active (truthy tenant_id) incident_id now)
        (pure false)

  unfoldable pub save_incident : Document → Option String → ℕ → Call Server Bool
  save_incident incident tenant_id now = save_with incident tenant_id now (id_of incident)

  unfoldable pub resolve_incident : String → String → ℕ → Call Server Bool
  resolve_incident incident_id tenant_id now =
      catch (send (delete_key now (active_key tenant_id)) >> pure true) (pure false)

  -- `json.loads` of a text that is not empty
  unfoldable pub parse : Option String → Call Server (Option Document)
  parse none = pure none
  parse (some t) = λ w. (elim (loads t) [ none ↦ raised | some d ↦ got (some d) ], w)

  unfoldable pub get_incident : String → ℕ → Call Server (Option Document)
  get_incident incident_id now =
      catch (send (read now (incident_key incident_id)) >>= λ t. parse (truthy t)) (pure none)

  unfoldable pub load_active : Option String → ℕ → Call Server (Option Document)
  load_active none now = pure none
  load_active (some incident_id) now = get_incident incident_id now

  unfoldable pub get_active_incident : String → ℕ → Call Server (Option Document)
  get_active_incident tenant_id now =
      catch (send (read now (active_key tenant_id)) >>= λ t. load_active (truthy t) now) (pure none)

  unfoldable pub append_to : List (String × String) → ℕ → Option Document → Call Server Bool
  append_to entry now none = pure false
  append_to entry now (some d) =
      if is_empty d then pure false else save_incident (with_entry d entry now) none now

  unfoldable pub append_audit : String → List (String × String) → ℕ → Call Server Bool
  append_audit incident_id entry now = get_incident incident_id now >>= append_to entry now
