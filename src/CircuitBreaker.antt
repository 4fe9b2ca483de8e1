-- ===== src/CircuitBreaker.antt =====
-- orchestrator/circuit_breaker.py: the circuit breaker of a provider and tenant, kept in Redis.
--
-- The fields are numbers; a field or key of another kind makes `int`, `float` or the command raise.
pub mod Opening
mod Examples
use Prim.Native.String.{◌++◌ as append}
use fastapi_alertengine.Prelude.{
  ℕ, ◌+◌, String, Bool, true, false, Option, none, some, List, [], ◌∷◌, ltb, leb, ◌&&◌,
  if◌then◌else◌,
}
use fastapi_alertengine.Redis.{Redis, Item, text, number, Value, plain, hash, Hash, fields_of}
use fastapi_alertengine.Redis.Client.{
  Reply, got, raised, World, Call, pure, send, catch, ◌>>=◌, ◌>>◌,
}

-- `CB_TTL`, and `CB_THRESHOLD` and `CB_COOLDOWN_S` by default
abbrev pub cb_ttl : ℕ
cb_ttl = 3_600

abbrev pub cb_threshold : ℕ
cb_threshold = 3

abbrev pub cb_cooldown : ℕ
cb_cooldown = 60

-- `_key`
abbrev pub breaker_key : String → String → String
breaker_key provider tenant_id = append "orchestrator:cb:" (append provider (append ":" tenant_id))

-- `int(raw.get(f, 0))`
abbrev pub parse : Option Item → Reply ℕ
parse none = got 0
parse (some (number n)) = got n
parse (some (text t)) = raised

-- the hash at a key, or the error for a key of another kind
abbrev pub hash_at : Option Value → Reply (Option Hash)
hash_at none = got none
hash_at (some (hash m)) = got (some m)
hash_at (some (plain x)) = raised

-- `tonumber(redis.call('hget', key, 'disabled_until')) or 0`
abbrev pub deadline : Option Value → ℕ
deadline (some (hash m)) = elim (m "disabled_until") [ some (number n) ↦ n | _ ↦ 0 ]
deadline _ = 0

module _ (R : Redis) where
  open R use {Server, peek, del, expire, hset, hincrby}

  -- HGETALL, which finds no hash where the key is not there
  unfoldable pub hgetall : ℕ → String → Server → Reply (Option Hash) × Server
  hgetall now k s = (hash_at (peek s now k), s)

  -- HINCRBY of 1, refused where the key or the field is of another kind
  abbrev pub can_count : Reply (Option Hash) → String → Reply ℕ
  can_count raised f = raised
  can_count (got none) f = got 0
  can_count (got (some m)) f = parse (m f)

  abbrev pub count_if : Reply ℕ → ℕ → String → String → Server → Reply ℕ × Server
  count_if raised now k f s = (raised, s)
  count_if (got n) now k f s = let (m, s') = hincrby now k f s in (got m, s')

  unfoldable pub increment : ℕ → String → String → Server → Reply ℕ × Server
  increment now k f s = count_if (can_count (hash_at (peek s now k)) f) now k f s

  unfoldable pub expire_key : ℕ → String → ℕ → Server → Reply Bool × Server
  expire_key now k ttl s = (got true, expire now k ttl s)

  unfoldable pub set_field : ℕ → String → String → ℕ → Server → Reply Bool × Server
  set_field now k f n s = (got true, hset now k ((f, number n) ∷ []) s)

  unfoldable pub delete_key : ℕ → String → Server → Reply Bool × Server
  delete_key now k s = (got true, del now k s)

  -- `RESET_SCRIPT_LUA`
  unfoldable pub reset_script : ℕ → String → Server → Reply ℕ × Server
  reset_script now k s =
      let until = deadline (peek s now k) in
      if ltb 0 until && ltb until now then (got 1, del now k s) else (got 0, s)

  -- the tests on the two fields, with the clock read at `now`, and at `later` for the script
  unfoldable pub check_fields : String → ℕ → ℕ → ℕ → ℕ → Call Server Bool
  check_fields key now later count until =
      if ltb count cb_threshold
      then pure false
      else if ltb now until
      then pure true
      else send (reset_script later key) >> pure false

  unfoldable pub check_hash : String → ℕ → ℕ → Option Hash → Call Server Bool
  check_hash key now later none = pure false
  check_hash key now later (some m) = do
    count ← (λ w. (parse (m "failure_count"), w))
    until ← (λ w. (parse (m "disabled_until"), w))
    check_fields key now later count until

  unfoldable pub is_open : String → String → ℕ → ℕ → Call Server Bool
  is_open provider tenant_id now later =
      let key = breaker_key provider tenant_id in
      catch (send (hgetall now key) >>= check_hash key now later) (pure false)

  -- what follows the two writes of `record_failure`
  unfoldable pub open_breaker : String → ℕ → ℕ → Call Server ℕ
  open_breaker key later count =
      if leb cb_threshold count
      then send (set_field later key "disabled_until" (later + cb_cooldown)) >> pure count
      else pure count

  unfoldable pub record_failure : String → String → ℕ → ℕ → Call Server ℕ
  record_failure provider tenant_id now later =
      let key = breaker_key provider tenant_id in
      catch
        (do
          count ← send (increment now key "failure_count")
          send (expire_key now key cb_ttl)
          open_breaker key later count)
        (pure 0)

  unfoldable pub delete_existing : String → ℕ → Option Hash → Call Server Bool
  delete_existing key now none = pure true
  delete_existing key now (some m) = send (delete_key now key)

  -- the result says only whether an exception was handled
  unfoldable pub record_success : String → String → ℕ → Call Server Bool
  record_success provider tenant_id now =
      let key = breaker_key provider tenant_id in
      catch (send (hgetall now key) >>= delete_existing key now) (pure false)
