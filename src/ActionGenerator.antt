-- ===== src/ActionGenerator.antt =====
-- orchestrator/action_generator.py: recovery tokens.
--
-- PyJWT and SHA-256 are no part of the repository: `Jwt` states what PyJWT documents, its tokens are
-- values of a type of its own, and the 16 hexadecimal digits of a token's hash are a function `digest`.
-- A claim is a text or an integer.
pub mod Replay
pub mod Fresh
mod Examples
use fastapi_alertengine.Prelude.{
  ℕ, ◌+◌, ◌≤◌, ◌<◌, ◌≡◌, String, Bool, true, false, Option, none, some, List, [], ◌∷◌, str_eq, not,
  ◌==◌, if◌then◌else◌,
}
use Prim.Native.String.{◌++◌ as append}
use fastapi_alertengine.Redis.{Redis, Item, text, number}
use fastapi_alertengine.Redis.Client.{Reply, got, World, Call, pure, send, catch, ◌>>=◌}

abbrev pub Claims : Type 0
Claims = List (String × Item)

-- `payload.get(name)`
abbrev pub claim : String → Claims → Option Item
claim name [] = none
claim name ((k, v) ∷ cs) = if str_eq k name then some v else claim name cs

-- `jwt.encode` and `jwt.decode` for HS256; `decode` takes the time, and is none where it raises.
pub record Jwt : Type 1 where
  pub Token : Type 0
  pub encode : Claims → String → Token
  pub decode : Token → String → ℕ → Option Claims
  -- What is decoded is what was encoded.
  pub decode_encoded :
      (c d : Claims) (secret : String) (now : ℕ)
      → decode (encode c secret) secret now ≡ some d
      → d ≡ c
  -- A token is refused from its `exp` on.
  pub decode_expired :
      (token : Token) (secret : String) (now e : ℕ) (c : Claims)
      → decode token secret now ≡ some c
      → claim "exp" c ≡ some (number e)
      → now < e
  -- A token is decoded from its `iat` on and before its `exp`.
  pub decode_fresh :
      (c : Claims) (secret : String) (now i e : ℕ)
      → claim "iat" c ≡ some (number i)
      → i ≤ now
      → claim "exp" c ≡ some (number e)
      → now < e
      → decode (encode c secret) secret now ≡ some c

-- `TTL_S` by default, and `USED_TTL`
abbrev pub ttl_s : ℕ
ttl_s = 300

abbrev pub used_ttl : ℕ
used_ttl = 600

-- `ttl or TTL_S`
abbrev pub lifetime : Option ℕ → ℕ
lifetime none = ttl_s
lifetime (some t) = if t == 0 then ttl_s else t

-- the payload; the clock is read twice
abbrev pub payload_of : String → String → String → ℕ → ℕ → ℕ → Claims
payload_of incident_id tenant_id action ttl now later =
    ("incident_id", text incident_id)
    ∷ ("tenant_id", text tenant_id)
    ∷ ("action", text action)
    ∷ ("iat", number now)
    ∷ ("exp", number (later + ttl))
    ∷ []

abbrev pub used_key : {T : Type 0} → (T → String) → T → String
used_key digest token = append "orchestrator:used_token:" (digest token)

-- `not payload`
abbrev pub is_empty : Claims → Bool
is_empty [] = true
is_empty (c ∷ cs) = false

-- `payload.get("tenant_id") != expected`
abbrev pub is_tenant : Option Item → String → Bool
is_tenant (some (text t)) expected = str_eq t expected
is_tenant _ expected = false

-- `expected_tenant_id and payload.get("tenant_id") != expected_tenant_id`
abbrev pub crosses_tenant : Option String → Claims → Bool
crosses_tenant none c = false
crosses_tenant (some expected) c =
    if str_eq expected "" then false else not (is_tenant (claim "tenant_id" c) expected)

module _ (J : Jwt) (secret : String) where
  open J use {Token, encode, decode}

  unfoldable pub generate_recovery_token : String → String → String → Option ℕ → ℕ → ℕ → Token
  generate_recovery_token incident_id tenant_id action ttl now later =
      encode (payload_of incident_id tenant_id action (lifetime ttl) now later) secret

  -- `jwt.decode`; the exceptions give None
  unfoldable pub verify_recovery_token : Token → ℕ → Option Claims
  verify_recovery_token token now = decode token secret now

  module _ (R : Redis) (digest : Token → String) where
    open R use {Server, set_nx}

    unfoldable pub set_command : Token → ℕ → Server → Reply Bool × Server
    set_command token now s =
        let (won, s') = set_nx now (used_key digest token) (text "1") used_ttl s in (got won, s')

    abbrev pub after_set : Bool → Bool × String
    after_set true = (true, "ok")
    after_set false = (false, "Token already used")

    -- the `try` block of `consume_token` and its handler
    unfoldable pub replay_protection : Token → ℕ → Call Server (Bool × String)
    replay_protection token now =
        catch (send (set_command token now) >>= λ won. pure (after_set won))
          (pure (false, "Token validation unavailable. Try again."))

    -- the tenant check, and the replay protection
    unfoldable pub consume_verified :
        Token → Option String → ℕ → Option Claims → Call Server (Bool × String)
    consume_verified token expected now none = pure (false, "Invalid or expired token")
    consume_verified token expected now (some c) =
        if is_empty c
        then pure (false, "Invalid or expired token")
        else if crosses_tenant expected c
        then pure (false, "Token belongs to different tenant")
        else replay_protection token now

    unfoldable pub consume_token : Token → Option String → ℕ → Call Server (Bool × String)
    consume_token token expected now =
        consume_verified token expected now (verify_recovery_token token now)

    abbrev pub result_of : Claims → Bool × String → Bool × Option Claims × String
    result_of c (true, reason) = (true, some c, "ok")
    result_of c (false, reason) = (false, none, reason)

    -- The token is verified at `now`, and consumed at `later`.
    unfoldable pub validate_and_consume :
        Token → Option String → ℕ → ℕ → Call Server (Bool × Option Claims × String)
    validate_and_consume token expected now later = elim (verify_recovery_token token now) [
      | none ↦ pure (false, none, "Invalid or expired token")
      | some c ↦
          if is_empty c
          then pure (false, none, "Invalid or expired token")
          else consume_token token expected later >>= λ r. pure (result_of c r)
    ]
