-- ===== src/DeadLetters.antt =====
-- orchestrator/dlq.py: the list of actions that failed for good.
--
-- JSON is a parameter. The keys and values of a payload are texts.
pub mod Latest
mod Examples
use fastapi_alertengine.Prelude.{
  ℕ, zero, suc, ◌-◌, String, Bool, true, false, Option, none, some, List, [], ◌∷◌, length,
}
use fastapi_alertengine.Redis.Client.{Reply, got, Call, pure, send, catch, ◌>>=◌, ◌>>◌}
use fastapi_alertengine.Redis.Lists.{RedisLists}
use fastapi_alertengine.Redis.ListCalls.{push_for, range, remove}
use fastapi_alertengine.Redis.Texts.{JsonOf, load_each, reply_with}

-- `DLQ_KEY` and `DLQ_TTL`
abbrev pub dlq_key : String
dlq_key = "orchestrator:dlq"

abbrev pub dlq_ttl : ℕ
dlq_ttl = 1_209_600

abbrev pub Payload : Type 0
Payload = List (String × String)

-- the arguments of `push`
pub record Failure : Type 0 where
  pub incident_id : String
  pub action_type : String
  pub error : String
  pub stage : Option String
  pub action_id : Option String
  pub payload : Option Payload

pub record Entry : Type 0 where
  pub incident_id : String
  pub action : String
  pub stage : Option String
  pub action_id : Option String
  pub error : String
  pub payload : Payload
  pub timestamp : ℕ

-- `payload or {}`
abbrev pub or_empty : Option Payload → Payload
or_empty none = []
or_empty (some p) = p

unfoldable pub entry_of : Failure → ℕ → Entry
entry_of f now = record {
  incident_id = f.incident_id;
  action = f.action_type;
  stage = f.stage;
  action_id = f.action_id;
  error = f.error;
  payload = or_empty f.payload;
  timestamp = now;
}

abbrev pub drop : {A : Type 0} → ℕ → List A → List A
drop zero xs = xs
drop (suc n) [] = []
drop (suc n) (x ∷ xs) = drop n xs

-- LRANGE from `-limit` to -1: a start before the first item is the first one, and -0 is 0
abbrev pub from_end : {A : Type 0} → ℕ → List A → List A
from_end zero xs = xs
from_end (suc n) xs = drop (length xs - suc n) xs

module _ (R : RedisLists) (J : JsonOf Entry) where
  open R use {Server, items}

  unfoldable pub push : Failure → ℕ → Call Server Bool
  push f now = push_for R now dlq_key (J.dumps (entry_of f now)) dlq_ttl

  unfoldable pub parse : List String → Call Server (List Entry)
  parse ts = λ w. (reply_with (load_each J ts), w)

  unfoldable pub get_all : ℕ → ℕ → Call Server (List Entry)
  get_all limit now =
      catch (send (range R now dlq_key) >>= λ ts. parse (from_end limit ts)) (pure [])

  -- `llen`
  unfoldable pub count_items : ℕ → Server → Reply ℕ × Server
  count_items now s = (got (length (items s now dlq_key)), s)

  -- none is the -1 that stands for a failure
  unfoldable pub get_count : ℕ → Call Server (Option ℕ)
  get_count now = catch (send (count_items now) >>= λ n. pure (some n)) (pure none)

  unfoldable pub clear : ℕ → Call Server Bool
  clear now = catch (send (remove R now dlq_key) >> pure true) (pure false)
