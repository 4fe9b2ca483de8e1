-- ===== src/DeliveryLedger.antt =====
-- orchestrator/delivery_ledger.py: the list of an incident's delivery attempts.
--
-- JSON is a parameter. An entry is the keys that the code writes; `success` may be missing in a text.
pub mod Blackout
mod Examples
use Prim.Native.String.{◌++◌ as append}
use fastapi_alertengine.Prelude.{
  ℕ, String, Bool, true, false, Option, none, some, List, [], ◌∷◌, not, ◌&&◌, or_default,
}
use fastapi_alertengine.Redis.Client.{Call, pure, send, catch, ◌>>=◌}
use fastapi_alertengine.Redis.Lists.{RedisLists}
use fastapi_alertengine.Redis.ListCalls.{push_for, range}
use fastapi_alertengine.Redis.Texts.{JsonOf, load_each, reply_with}

-- `LEDGER_TTL`
abbrev pub ledger_ttl : ℕ
ledger_ttl = 604_800

abbrev pub ledger_key : String → String
ledger_key incident_id = append "orchestrator:delivery:" incident_id

-- the arguments of `record` after the incident
pub record Attempt : Type 0 where
  pub provider : String
  pub channel : String
  pub tenant_id : String
  pub success : Bool
  pub error : Option String
  pub message_id : Option String

pub record Entry : Type 0 where
  pub incident_id : String
  pub provider : String
  pub channel : String
  pub tenant_id : String
  pub success : Option Bool
  pub error : Option String
  pub message_id : Option String
  pub attempted_at : ℕ

unfoldable pub entry_of : String → Attempt → ℕ → Entry
entry_of incident_id a now = record {
  incident_id = incident_id;
  provider = a.provider;
  channel = a.channel;
  tenant_id = a.tenant_id;
  success = some a.success;
  error = a.error;
  message_id = a.message_id;
  attempted_at = now;
}

-- `all(not e.get("success") for e in log)`
unfoldable pub none_succeeded : List Entry → Bool
none_succeeded [] = true
none_succeeded (e ∷ es) = not (or_default e.success false) && none_succeeded es

unfoldable pub is_blackout : List Entry → Bool
is_blackout [] = false
is_blackout (e ∷ es) = none_succeeded (e ∷ es)

module _ (R : RedisLists) (J : JsonOf Entry) where
  open R use {Server}

  unfoldable pub record_attempt : String → Attempt → ℕ → Call Server Bool
  record_attempt incident_id a now =
      push_for R now (ledger_key incident_id) (J.dumps (entry_of incident_id a now)) ledger_ttl

  unfoldable pub parse : List String → Call Server (List Entry)
  parse ts = λ w. (reply_with (load_each J ts), w)

  unfoldable pub get_delivery_log : String → ℕ → Call Server (List Entry)
  get_delivery_log incident_id now =
      catch (send (range R now (ledger_key incident_id)) >>= parse) (pure [])

  unfoldable pub all_failed : String → ℕ → Call Server Bool
  all_failed incident_id now = get_delivery_log incident_id now >>= λ log. pure (is_blackout log)
