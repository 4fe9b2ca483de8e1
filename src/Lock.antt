-- ===== src/Lock.antt =====
-- orchestrator/lock.py: the renewable lease on an incident, kept in Redis.
--
-- The token of a lease is `uuid.uuid4()`, an argument here, and so are the times at which the calls
-- reach the server; the commands of one call share one reading of the clock. The lease object that
-- `renew_lock` may invalidate is returned beside its result. Both Lua scripts of the file run as one
-- command of the server.
pub mod Foreign
pub mod Exclusion
pub mod Renewal
mod Examples
use Prim.Native.String.{◌++◌ as append}
use fastapi_alertengine.Prelude.{
  ℕ, String, Bool, true, false, Option, none, some, List, [], ◌∷◌, str_eq, if◌then◌else◌,
}
use fastapi_alertengine.Redis.{Redis, Value, text, plain, hash}
use fastapi_alertengine.Redis.Client.{
  Call, Reply, got, raised, World, send, catch, pure, ◌>>=◌, ◌>>◌,
}

pub record Lease : Type 0 where
  pub incident_id : String
  pub token : String
  pub valid : Bool

-- `Lease.invalidate`
unfoldable pub invalidate : Lease → Lease
invalidate lease = record lease { valid = false }

-- `LOCK_PREFIX` and an incident's id
abbrev pub lock_key : String → String
lock_key incident_id = append "orchestrator:lock:" incident_id

-- whether what a key holds is a text, and this one
abbrev pub is_token : Option Value → String → Bool
is_token (some (plain (text v))) token = str_eq v token
is_token _ token = false

module _ (R : Redis) where
  open R use {Server, peek, set_nx, del, expire}

  -- GET, whose reply to a key that holds a hash is an error
  get_item : ℕ → String → Call Server (Option String)
  get_item now key = send λ s. elim (peek s now key) [
    | some (plain (text v)) ↦ (got (some v), s)
    | some (hash m) ↦ (raised, s)
    | _ ↦ (got none, s)
  ]

  -- what follows SET NX EX; the holder that GET returns is only logged
  after_set : String → String → ℕ → Bool → Call Server (Option Lease)
  unfolding get_item
  after_set incident_id token now true =
      pure (some (record { incident_id = incident_id; token = token; valid = true }))
  after_set incident_id token now false = do get_item now (lock_key incident_id); pure none

  set_command : ℕ → String → String → ℕ → Server → Reply Bool × Server
  set_command now key token ttl s =
      let (acquired, s') = set_nx now key (text token) ttl s in (got acquired, s')

  -- the body of the `try` of `acquire_lock`
  try_acquire : String → String → ℕ → ℕ → Call Server (Option Lease)
  unfolding set_command after_set
  try_acquire incident_id token ttl now = do
    acquired ← send (set_command now (lock_key incident_id) token ttl)
    after_set incident_id token now acquired

  unfoldable pub acquire_lock : String → String → ℕ → ℕ → Call Server (Option Lease)
  unfolding try_acquire
  acquire_lock incident_id token ttl now = catch (try_acquire incident_id token ttl now) (pure none)

  -- whether GET of a key would return the token
  unfoldable pub owns : Server → ℕ → String → String → Bool
  owns s now key token = is_token (peek s now key) token

  -- whether GET of a key would raise
  unfoldable pub wrong_type : Server → ℕ → String → Bool
  wrong_type s now key = elim (peek s now key) [ some (hash m) ↦ true | _ ↦ false ]

  -- `RELEASE_LOCK_SCRIPT`: whether it returned 1
  unfoldable pub release_script : ℕ → String → String → Server → Reply Bool × Server
  unfolding owns wrong_type
  release_script now key token s =
      if wrong_type s now key
      then (raised, s)
      else if owns s now key token
      then (got true, del now key s)
      else (got false, s)

  unfoldable pub release_lock : Lease → ℕ → Call Server Bool
  unfolding release_script
  release_lock lease now =
      catch (send (release_script now (lock_key lease.incident_id) lease.token)) (pure false)

  -- `RENEW_LOCK_SCRIPT`: whether it returned 1
  unfoldable pub renew_script : ℕ → String → String → ℕ → Server → Reply Bool × Server
  unfolding owns wrong_type
  renew_script now key token ttl s =
      if wrong_type s now key
      then (raised, s)
      else if owns s now key token
      then (got true, expire now key ttl s)
      else (got false, s)

  -- the lease after the call, and the result
  unfoldable pub renew_lock : Lease → ℕ → ℕ → Call Server (Lease × Bool)
  unfolding renew_script invalidate
  renew_lock lease ttl now =
      catch
        (do
          renewed ← send (renew_script now (lock_key lease.incident_id) lease.token ttl)
          pure (if renewed then (lease, true) else (invalidate lease, false)))
        (pure (invalidate lease, false))

  unfoldable pub is_locked : String → ℕ → Call Server Bool
  is_locked incident_id now =
      catch
        (send
          λ s. (got (elim (peek s now (lock_key incident_id)) [ none ↦ false | some v ↦ true ]), s))
        (pure false)

  -- what the loop does with the result of `renew_lock`; `rest` is its next round
  abbrev pub after_renewal :
      Reply (Lease × Bool) → Lease → (Lease → Call Server Lease) → Call Server Lease
  after_renewal (got (lease', true)) lease rest w = rest lease' w
  after_renewal (got (lease', false)) lease rest w = (got lease', w)
  after_renewal raised lease rest w = (got (invalidate lease), w)

  -- `_auto_renew_loop` over the times at which its sleep returns; the task is cancelled at the end of
  -- the list.
  unfoldable pub auto_renew_loop : Lease → ℕ → List ℕ → Call Server Lease
  auto_renew_loop lease ttl [] w = (got lease, w)
  auto_renew_loop lease ttl (now ∷ wakes) w = elim lease.valid [
    | false ↦ (got lease, w)
    | true ↦
        let (r, w') = renew_lock lease ttl now w in
        after_renewal r lease (λ l. auto_renew_loop l ttl wakes) w'
  ]
