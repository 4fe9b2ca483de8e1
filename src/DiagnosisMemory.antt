-- ===== src/DiagnosisMemory.antt =====
-- orchestrator/diagnosis_memory.py: the last decisions of the model about an incident, and the messages
-- that are built from them.
--
-- JSON is an interface: `loads` is none where it raises or where a key is missing that is read.
pub mod Turns
mod Examples
use Prim.Native.String.{◌++◌ as append}
use fastapi_alertengine.Prelude.{ℕ, String, Option, none, some, List, [], ◌∷◌, ◌++◌}
use fastapi_alertengine.Redis.Client.{Reply, got, World, Call, pure, send, catch, ◌>>=◌, ◌>>◌}
use fastapi_alertengine.Redis.Lists.{RedisLists}
use fastapi_alertengine.Redis.ListCalls.{keep_for, range, remove}

-- `MAX_HISTORY` and `HISTORY_TTL`
abbrev pub max_history : ℕ
max_history = 3

abbrev pub history_ttl : ℕ
history_ttl = 86_400

abbrev pub history_key : String → String
history_key incident_id = append "orchestrator:diagnosis_history:" incident_id

-- the fields of a decision that are kept
pub record Kept : Type 0 where
  pub action : Option String
  pub reason : Option String
  pub confidence : Option ℕ

pub record Entry : Type 0 where
  pub decision : Kept
  pub health_summary : String

pub record Json : Type 0 where
  pub dumps : Entry → String
  pub loads : String → Option Entry
  pub dumps_decision : Kept → String

pub data Role : Type 0 where
  assistant user : Role

pub record Message : Type 0 where
  pub role : Role
  pub content : String

-- `reversed`
unfoldable pub reverse {ℓ} : {A : Type ℓ} → List A → List A
reverse [] = []
reverse (x ∷ xs) = reverse xs ++ x ∷ []

module _ (R : RedisLists) (J : Json) where
  open R use {Server, lpush, ltrim}

  unfoldable pub push_front : ℕ → String → String → Server → Reply (Unit {0}) × Server
  push_front now k x s = (got tt, lpush now k x s)

  unfoldable pub trim : ℕ → String → ℕ → Server → Reply (Unit {0}) × Server
  trim now k n s = (got tt, ltrim now k n s)

  unfoldable pub record_turn : String → Entry → ℕ → Call Server (Unit {0})
  record_turn incident_id entry now =
      catch
        (send (push_front now (history_key incident_id) (J.dumps entry))
          >> (send (trim now (history_key incident_id) max_history)
              >> send (keep_for R now (history_key incident_id) history_ttl)))
        (pure tt)

  abbrev pub messages_for : Option Entry → List Message
  messages_for none = []
  messages_for (some e) =
      record { role = assistant; content = J.dumps_decision e.decision }
      ∷ record { role = user; content = append "Update: " e.health_summary }
      ∷ []

  -- the loop over the entries; one that does not parse is left out
  unfoldable pub messages_of : List String → List Message
  messages_of [] = []
  messages_of (t ∷ ts) = messages_for (J.loads t) ++ messages_of ts

  unfoldable pub build_history_messages : String → ℕ → Call Server (List Message)
  build_history_messages incident_id now =
      catch (send (range R now (history_key incident_id)) >>= λ ts. pure (messages_of (reverse ts)))
        (pure [])

  unfoldable pub clear_history : String → ℕ → Call Server (Unit {0})
  clear_history incident_id now = catch (send (remove R now (history_key incident_id))) (pure tt)
