-- ===== src/ActionGenerator/Fresh.antt =====
-- A fresh recovery token is accepted.
use fastapi_alertengine.Prelude.{
  ℕ, ◌+◌, ◌≤◌, ◌<◌, ◌≡◌, refl, String, true, false, Option, none, some, [], arith,
}
use fastapi_alertengine.Redis.{Redis, text}
use fastapi_alertengine.Redis.Client.{got, send, catch}
use fastapi_alertengine.ActionGenerator.{
  Jwt, lifetime, payload_of, used_key, crosses_tenant, generate_recovery_token,
  verify_recovery_token, set_command, replay_protection, consume_verified, consume_token,
  validate_and_consume,
}

module _ (J : Jwt) (secret : String) (R : Redis) (digest : J.Token → String) where
  open R use {Server, peek, set_nx_free}
  open J use {decode_fresh}

  -- A token that is generated, not used yet, presented before it expires and for its own tenant, or
  -- for no tenant in particular, is accepted with the payload that it was made from, if Redis answers.
  pub fresh_accepted :
      (incident_id tenant_id action : String) (ttl : Option ℕ) (issued issued' now later : ℕ)
      (s : Server) (expected : Option String)
      → issued ≤ now
      → now ≤ later
      → later < issued' + lifetime ttl
      → crosses_tenant expected
          (payload_of incident_id tenant_id action (lifetime ttl) issued issued')
        ≡ false
      → peek s later (
          used_key digest
            (generate_recovery_token J secret incident_id tenant_id action ttl issued issued'))
        ≡ none
      → let token =
          generate_recovery_token J secret incident_id tenant_id action ttl issued issued' in
        (validate_and_consume J secret R digest token expected now later
          (record { server = s; faults = [] })).0
        ≡ got (
          true,
          some (payload_of incident_id tenant_id action (lifetime ttl) issued issued'),
          "ok",
        )
  unfolding generate_recovery_token verify_recovery_token validate_and_consume consume_token
      consume_verified replay_protection set_command send catch
  fresh_accepted incident_id tenant_id action ttl issued issued' now later s expected a b c same
        free =
      let p = payload_of incident_id tenant_id action (lifetime ttl) issued issued' in
      let early =
        decode_fresh p secret now issued (issued' + lifetime ttl) refl a refl (omega arith) in
      let late =
        decode_fresh p secret later issued (issued' + lifetime ttl) refl (omega arith) refl c in
      ground (
        arith,
        early,
        late,
        same,
        set_nx_free later (used_key digest (J.encode p secret)) (text "1") 600 s free,
      )
