-- ===== src/Audit.antt =====
-- orchestrator/audit.py: the log of an incident's decisions, and the incident that is rebuilt from it.
--
-- JSON is an interface: `loads` is none where it raises. A stage is read as the stage of that text;
-- the empty text is `other ""`.
pub mod Replay
pub mod Log
mod Examples
use Prim.Native.String.{◌++◌ as append}
use fastapi_alertengine.Prelude.{
  ℕ, ◌≡◌, String, Bool, true, false, Option, none, some, List, [], ◌∷◌, ◌++◌, str_eq, or_default,
  not, ◌&&◌, ◌||◌, if◌then◌else◌,
}
use fastapi_alertengine.Redis.Client.{
  Reply, got, raised, World, Call, pure, send, catch, ◌>>=◌, ◌>>◌,
}
use fastapi_alertengine.Redis.Lists.{RedisLists}
use fastapi_alertengine.Redis.ListCalls.{range, push_for}
use fastapi_alertengine.Pipeline.Stage.{
  Stage, recovered, webhook_failed, expired, failed, other, stage_eq, allowed_transitions,
}
use fastapi_alertengine.Pipeline.Incident.{Metadata, is_stage}

abbrev pub audit_ttl : ℕ
audit_ttl = 604_800

abbrev pub audit_key : String → String
audit_key incident_id = append "orchestrator:audit:" incident_id

-- An entry of the log; a reader takes each field with `get`.
pub record Event : Type 0 where
  pub timestamp : Option ℕ
  pub incident_id : Option String
  pub stage : Option Stage
  pub decision : Option String
  pub actor : Option String
  pub reason : Option String
  pub confidence : Option ℕ
  pub tenant_id : Option String
  pub action_id : Option String
  pub metadata : Option Metadata

-- `json.dumps` and `json.loads`
pub record Json : Type 0 where
  pub dumps : Event → String
  pub loads : String → Option Event

-- the arguments of `append_event`
pub record Decided : Type 0 where
  pub stage : Stage
  pub decision : String
  pub reason : String
  pub confidence : ℕ
  pub actor : String
  pub action_id : Option String
  pub metadata : Option Metadata
  pub tenant_id : Option String

-- `if action_id:`, and `if metadata:`
abbrev pub text_or_none : Option String → Option String
text_or_none none = none
text_or_none (some s) = if str_eq s "" then none else some s

abbrev pub dict_or_none : Option Metadata → Option Metadata
dict_or_none none = none
dict_or_none (some []) = none
dict_or_none (some (m ∷ ms)) = some (m ∷ ms)

unfoldable pub event_of : String → Decided → ℕ → Event
event_of incident_id d now = record {
  timestamp = some now;
  incident_id = some incident_id;
  stage = some d.stage;
  decision = some d.decision;
  actor = some d.actor;
  reason = some d.reason;
  confidence = some d.confidence;
  tenant_id = d.tenant_id;
  action_id = text_or_none d.action_id;
  metadata = dict_or_none d.metadata;
}

abbrev pub cons_loaded : Option Event → Option (List Event) → Option (List Event)
cons_loaded (some e) (some es) = some (e ∷ es)
cons_loaded _ _ = none

-- `[json.loads(e) for e in events]`
unfoldable pub loads_all : Json → List String → Option (List Event)
loads_all J [] = some []
loads_all J (t ∷ ts) = cons_loaded (J.loads t) (loads_all J ts)

abbrev pub reply_of : Option (List Event) → Reply (List Event)
reply_of none = raised
reply_of (some es) = got es

module _ (R : RedisLists) (J : Json) where
  open R use {Server}

  unfoldable pub append_event : String → Decided → ℕ → Call Server Bool
  append_event incident_id d now =
      push_for R now (audit_key incident_id) (J.dumps (event_of incident_id d now)) audit_ttl

  unfoldable pub parse : List String → Call Server (List Event)
  parse ts = λ w. (reply_of (loads_all J ts), w)

  unfoldable pub get_audit_log : String → ℕ → Call Server (List Event)
  get_audit_log incident_id now =
      catch (send (range R now (audit_key incident_id)) >>= parse) (pure [])

-- An entry of the rebuilt history.
pub record Step : Type 0 where
  pub stage : Stage
  pub at : Option ℕ
  pub actor : String

pub record Warning : Type 0 where
  pub from : Option Stage
  pub target : Stage
  pub expected : Option Stage

-- The variables of the loop of `replay_incident_state`.
pub record Walk : Type 0 where
  pub current_stage : Option Stage
  pub last_updated : Option ℕ
  pub history : List Step
  pub warnings : List Warning

-- `stage in ("RECOVERED", "FAILED", "EXPIRED", "WEBHOOK_FAILED")`
unfoldable pub is_exit : Stage → Bool
is_exit recovered = true
is_exit failed = true
is_exit expired = true
is_exit webhook_failed = true
is_exit s = false

-- whether a transition is one that the log should have
unfoldable pub is_expected : Option Stage → Stage → Bool
is_expected current stage = is_stage (allowed_transitions current) stage || is_exit stage

abbrev pub warn : Option Stage → Stage → List Warning
warn current stage =
    if is_expected current stage
    then []
    else record { from = current; target = stage; expected = allowed_transitions current } ∷ []

-- `entry.get("timestamp", last_updated)`
abbrev pub or_last : Option ℕ → Option ℕ → Option ℕ
or_last none last = last
or_last (some t) last = some t

-- one entry whose stage is there
unfoldable pub step : Walk → Event → Stage → Walk
step w e stage = record {
  current_stage = some stage;
  last_updated = or_last e.timestamp w.last_updated;
  history =
      w.history
      ++ record { stage = stage; at = e.timestamp; actor = or_default e.actor "unknown" } ∷ [];
  warnings = w.warnings ++ warn w.current_stage stage;
}

-- `entry.get("stage")`, where it is there and not the empty text
abbrev pub stage_of : Event → Option Stage
stage_of e = elim e.stage [ none ↦ none | some s ↦ if stage_eq s (other "") then none else some s ]

abbrev pub visit : Walk → Event → Option Stage → Walk
visit w e none = w
visit w e (some stage) = step w e stage

unfoldable pub walk : Walk → List Event → Walk
walk w [] = w
walk w (e ∷ es) = walk (visit w e (stage_of e)) es

-- The reconstructed incident. The rest of it is constant: no token and no link, no escalation sent,
-- and zeros for the metrics.
pub record Replayed : Type 0 where
  pub stage : Stage
  pub stage_at : Option ℕ
  pub started_at : Option ℕ
  pub is_healthy : Bool
  pub voice_sent : Bool
  pub secondary_sent : Bool
  pub resolved_at : Option ℕ
  pub history : List Step
  pub warnings : List Warning
  pub is_clean : Bool

abbrev pub no_warnings : List Warning → Bool
no_warnings [] = true
no_warnings (w ∷ ws) = false

abbrev pub rebuild : Option ℕ → Walk → Option Stage → Option Replayed
rebuild started w none = none
rebuild started w (some stage) = some (record {
  stage = stage;
  stage_at = w.last_updated;
  started_at = started;
  is_healthy = stage_eq stage recovered;
  voice_sent = false;
  secondary_sent = false;
  resolved_at = if stage_eq stage recovered then w.last_updated else none;
  history = w.history;
  warnings = w.warnings;
  is_clean = no_warnings w.warnings;
})

abbrev pub start_walk : Option ℕ → Walk
start_walk started = record {
  current_stage = none;
  last_updated = started;
  history = [];
  warnings = [];
}

-- `now` is the reading of the clock for a first entry with no time
unfoldable pub replay_log : ℕ → List Event → Option Replayed
replay_log now [] = none
replay_log now (e ∷ es) =
    let started = some (or_default e.timestamp now) in
    let w = walk (start_walk started) (e ∷ es) in rebuild started w w.current_stage

abbrev pub last_event : Event → List Event → Event
last_event e [] = e
last_event e (x ∷ xs) = last_event x xs

abbrev pub latest_stage : List Event → Option Stage
latest_stage [] = none
latest_stage (e ∷ es) = (last_event e es).stage

module _ (R : RedisLists) (J : Json) where
  open R use {Server}

  unfoldable pub get_latest_stage : String → ℕ → Call Server (Option Stage)
  get_latest_stage incident_id now =
      get_audit_log R J incident_id now >>= λ log. pure (latest_stage log)

  unfoldable pub replay_incident_state : String → ℕ → Call Server (Option Replayed)
  replay_incident_state incident_id now =
      get_audit_log R J incident_id now >>= λ log. pure (replay_log now log)
