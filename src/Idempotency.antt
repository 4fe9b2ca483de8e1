-- ===== src/Idempotency.antt =====
-- orchestrator/idempotency.py: actions that are claimed in Redis before they are executed.
--
-- `digest` stands for the first 24 characters of the SHA-256 hex digest, and `meta` for the JSON text
-- of the metadata. The commands of one call share one reading of the clock.
pub mod Claims
pub mod AtMostOnce
pub mod Race
mod Examples
use Prim.Native.String.{◌++◌ as append}
use fastapi_alertengine.Prelude.{
  ℕ, ◌*◌, String, Bool, true, false, Option, none, some, List, [], ◌∷◌, ◌++◌, is_some,
  if◌then◌else◌, str_eq,
}
use fastapi_alertengine.Redis.{Redis, Item, text, number, Hash, Value, plain, hash}
use fastapi_alertengine.Redis.Client.{
  Call, Reply, got, raised, World, send, catch, pure, ◌>>=◌, ◌>>◌,
}

-- `ACTION_TTL`, in seconds
abbrev pub action_ttl : ℕ
action_ttl = 86400

-- `_marker_key`
abbrev pub marker_key : String → String
marker_key action_id = append "orchestrator:executed_action:" action_id

unfoldable pub make_action_id : (String → String) → String → String → String → String
make_action_id digest incident_id stage action_type =
    digest (append incident_id (append ":" (append stage (append ":" action_type))))

-- The hash that a claim writes.
abbrev pub claim_payload : String → String → ℕ → List (String × Item)
claim_payload action_id meta now =
    ("action_id", text action_id)
    ∷ ("status", text "claimed")
    ∷ ("claimed_at", number now)
    ∷ ("completed_at", text "")
    ∷ ("error", text "")
    ∷ ("meta", text meta)
    ∷ []

-- `updates` of `update_status`; an empty error text is left out
abbrev pub status_updates : String → Option String → ℕ → List (String × Item)
status_updates status none now = ("status", text status) ∷ ("completed_at", number now) ∷ []
status_updates status (some error) now =
    ("status", text status)
    ∷ ("completed_at", number now)
    ∷ (if str_eq error "" then [] else ("error", text error) ∷ [])

-- whether a hash command answers with WRONGTYPE
abbrev pub is_plain : Option Value → Bool
is_plain (some (plain x)) = true
is_plain _ = false

-- What `execute_once` comes to: it returns False, it returns True, or it raises what `fn` raised.
pub data Outcome : Type 0 where
  skipped executed : Outcome
  failed : String → Outcome

module _ (R : Redis) where
  open R use {Server, peek, set_nx, del, expire, hset}

  module _ (now : ℕ) (key : String) where
    -- SET key __claimed__ NX EX ttl
    unfoldable pub place : Server → Reply Bool × Server
    place s = let (b, s') = set_nx now key (text "__claimed__") action_ttl s in (got b, s')

    unfoldable pub remove : Server → Reply (Unit {0}) × Server
    remove s = (got tt, del now key s)

    unfoldable pub write : List (String × Item) → Server → Reply (Unit {0}) × Server
    write fs s = if is_plain (peek s now key) then (raised, s) else (got tt, hset now key fs s)

    unfoldable pub keep_for : ℕ → Server → Reply (Unit {0}) × Server
    keep_for ttl s = (got tt, expire now key ttl s)

    unfoldable pub exists : Server → Reply Bool × Server
    exists s = (got (is_some (peek s now key)), s)

    -- HGETALL: no fields for a key that is not there
    unfoldable pub read_all : Server → Reply (Option Hash) × Server
    read_all s = elim (peek s now key) [
      | none ↦ (got none, s)
      | some v ↦ (elim v [ plain x ↦ (raised, s) | hash m ↦ (got (some m), s) ])
    ]

  unfoldable pub is_executed : String → ℕ → Call Server Bool
  is_executed action_id now = catch (send (exists now (marker_key action_id))) (pure false)

  -- what follows SET NX in the `try` of `claim_action`
  unfoldable pub convert : String → String → ℕ → Bool → Call Server Bool
  convert action_id meta now false = pure false
  convert action_id meta now true = do
    send (remove now (marker_key action_id))
    send (write now (marker_key action_id) (claim_payload action_id meta now))
    send (keep_for now (marker_key action_id) action_ttl)
    pure true

  unfoldable pub claim_action : String → String → ℕ → Call Server Bool
  claim_action action_id meta now =
      catch (send (place now (marker_key action_id)) >>= convert action_id meta now) (pure false)

  -- what follows EXISTS in the `try` of `update_status`
  unfoldable pub update_existing : String → String → Option String → ℕ → Bool → Call Server Bool
  update_existing action_id status error now false = pure false
  update_existing action_id status error now true = do
    send (write now (marker_key action_id) (status_updates status error now))
    pure true

  unfoldable pub update_status : String → String → Option String → ℕ → Call Server Bool
  update_status action_id status error now =
      catch
        (send (exists now (marker_key action_id)) >>= update_existing action_id status error now)
        (pure false)

  unfoldable pub get_marker : String → ℕ → Call Server (Option Hash)
  get_marker action_id now = catch (send (read_all now (marker_key action_id))) (pure none)

  -- `fn` acts on the state of its callers, and returns the text of the exception that it raises, if it
  -- raises one.
  module _ {E : Type 0} (fn : E → Option String × E) where
    -- `execute_once` from the result of the claim on; `later` is the time at which `fn` ends.
    unfoldable pub after_claim :
        String → ℕ → Reply Bool → E → World Server → Outcome × E × World Server
    after_claim action_id later (got true) e w =
        let (error, e') = fn e in
        elim error [
          | none ↦ (executed, e', (update_status action_id "success" none later w).1)
          | some cause ↦
              (failed cause, e', (update_status action_id "failed" (some cause) later w).1)
        ]
    after_claim action_id later _ e w = (skipped, e, w)

    unfoldable pub execute_once :
        (String → String)
        → String
        → String
        → String
        → String
        → ℕ
        → ℕ
        → E
        → World Server
        → Outcome × E × World Server
    execute_once digest incident_id stage action_type meta now later e w =
        let action_id = make_action_id digest incident_id stage action_type in
        let (claimed, w') = claim_action action_id meta now w in
        after_claim action_id later claimed e w'
