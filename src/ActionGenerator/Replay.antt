-- ===== src/ActionGenerator/Replay.antt =====
-- A recovery token is accepted at most once, by its own tenant, and in time.
use fastapi_alertengine.Prelude.{
  ℕ, ◌≤◌, ◌<◌, ◌≡◌, ◌⊎◌, refl, ap, ◌+◌, String, Bool, true, false, Option, none, some, List, [],
  ◌∷◌, arith, Option-cases, Bool-cases, inl, inr, eq_iff,
}
use fastapi_alertengine.Redis.{Redis, text, plain}
use fastapi_alertengine.Redis.Client.{
  Fault, fine, lost_request, lost_reply, Reply, got, raised, World, send, catch,
}
use fastapi_alertengine.Redis.Keeps.{CommandKeeps, Keeps, keeps_rules}
use fastapi_alertengine.ActionGenerator.{
  Claims, claim, Jwt, used_ttl, lifetime, used_key, is_empty, crosses_tenant,
  generate_recovery_token, verify_recovery_token, set_command, replay_protection, consume_verified,
  consume_token,
}

module _ (J : Jwt) (secret : String) (R : Redis) (digest : J.Token → String) where
  open R use {Server, peek, set_nx, set_nx_taken, set_nx_free, set_nx_live, set_nx_frame}
  open J use {Token, decode_encoded, decode_expired, decode_fresh}

  -- The key of a used token is there from a time up to another.
  abbrev pub Used : Token → ℕ → ℕ → Server → Type 0
  Used token from upto s =
      (t : ℕ) → from ≤ t → t < upto → peek s t (used_key digest token) ≡ some (plain (text "1"))

  module _ (token : Token) (now upto : ℕ) (later : now < upto) where
    set_command-Used :
        (other : Token)
        → CommandKeeps (Used token now upto) (set_command J secret R digest other now)
    unfolding set_command
    set_command-Used other s h t a b = ground (
      arith,
      eq_iff (used_key digest other) (used_key digest token),
      h now (omega arith) later,
      h t a b,
      set_nx_taken now (used_key digest other) (text "1") used_ttl s {v = plain (text "1")},
      set_nx_frame now (used_key digest other) (text "1") used_ttl s t (used_key digest token),
    )

    consume_verified-Used :
        (other : Token) (expected : Option String) (c : Option Claims)
        → Keeps (Used token now upto) (consume_verified J secret R digest other expected now c)
    unfolding consume_verified replay_protection
    consume_verified-Used other expected none = search keeps_rules
    consume_verified-Used other expected (some c) = elim (Bool-cases (is_empty c)) [
      | inl e ↦ rw e (search keeps_rules)
      | inr e ↦ elim (Bool-cases (crosses_tenant expected c)) [
        | inl x ↦ rw (e, x) (search keeps_rules)
        | inr x ↦ rw (e, x) (search (keeps_rules, set_command-Used))
      ]
    ]

  -- A SET NX that wrote found no key.
  set_granted :
      (token : Token) (now : ℕ) (s : Server)
      → (set_nx now (used_key digest token) (text "1") used_ttl s).0 ≡ true
      → (peek s now (used_key digest token) ≡ none)
        × Used token now
            (now + used_ttl)
            (set_nx now (used_key digest token) (text "1") used_ttl s).1
  set_granted token now s g = elim (Option-cases (peek s now (used_key digest token))) [
    | inl e ↦ (e, λ t a b. set_nx_live now (used_key digest token) (text "1") used_ttl s t e a b)
    | inr (v, e) ↦ cc (set_nx_taken now (used_key digest token) (text "1") used_ttl s e)
  ]

  replay_granted_from :
      (token : Token) (now : ℕ) (s : Server) (fs : List Fault) (reason : String)
      → (replay_protection J secret R digest token now (record { server = s; faults = fs })).0
        ≡ got (true, reason)
      → (peek s now (used_key digest token) ≡ none)
        × Used token now
            (now + used_ttl)
            (replay_protection J secret R digest token now
              (record { server = s; faults = fs })).1.server
  unfolding replay_protection set_command send catch
  replay_granted_from token now s [] reason g = set_granted token now s (ground (arith, g))
  replay_granted_from token now s (fine ∷ fs) reason g = set_granted token now s (ground (arith, g))
  replay_granted_from token now s (lost_request ∷ fs) reason g = cc
  replay_granted_from token now s (lost_reply ∷ fs) reason g = cc

  consume_verified_granted :
      (token : Token) (expected : Option String) (now : ℕ) (o : Option Claims) (w : World Server)
      (reason : String)
      → (consume_verified J secret R digest token expected now o w).0 ≡ got (true, reason)
      → ((c : Claims) × (o ≡ some c) × (is_empty c ≡ false) × (crosses_tenant expected c ≡ false))
        × (peek w.server now (used_key digest token) ≡ none)
        × Used token now
            (now + used_ttl)
            (consume_verified J secret R digest token expected now o w).1.server
  unfolding consume_verified
  consume_verified_granted token expected now none w reason g = cc
  consume_verified_granted token expected now (some c) w reason g = elim (Bool-cases (is_empty c)) [
    | inl e ↦ ground (arith, e, g)
    | inr e ↦ elim (Bool-cases (crosses_tenant expected c)) [
      | inl x ↦ ground (arith, e, x, g)
      | inr x ↦
          let h : (replay_protection J secret R digest token now w).0 ≡ got (true, reason) =
            rw (e, x) at g in
          let (free, marks) = replay_granted_from token now w.server w.faults reason h in
          ((c, refl, e, x), free, rw (e, x) marks)
    ]
  ]

  -- A token that `consume_token` accepts has a valid signature, has not expired, is for the expected
  -- tenant where one is given, was not used before, and is marked as used for `USED_TTL`.
  pub consume_token_granted :
      (token : Token) (expected : Option String) (now : ℕ) (w : World Server) (reason : String)
      → (consume_token J secret R digest token expected now w).0 ≡ got (true, reason)
      → ((c : Claims) × (verify_recovery_token J secret token now ≡ some c)
          × (is_empty c ≡ false)
          × (crosses_tenant expected c ≡ false))
        × (peek w.server now (used_key digest token) ≡ none)
        × Used token now
            (now + used_ttl)
            (consume_token J secret R digest token expected now w).1.server
  unfolding consume_token
  consume_token_granted token expected now w reason g =
      consume_verified_granted token expected now (verify_recovery_token J secret token now) w
        reason g

  -- A call of `consume_token` for one token, or for another.
  pub data Consumption : Type 0 where
    own : Option String → ℕ → Consumption
    other : Token → Option String → ℕ → Consumption

  -- The calls are in the order of time.
  abbrev pub InOrder : ℕ → List Consumption → Type 0
  InOrder from [] = Unit
  InOrder from (own expected now ∷ cs) = (from ≤ now) × InOrder now cs
  InOrder from (other u expected now ∷ cs) = (from ≤ now) × InOrder now cs

  abbrev pub counts : Reply (Bool × String) → ℕ
  counts (got (true, reason)) = 1
  counts _ = 0

  -- How often the calls accept the token.
  pub accepted : Token → List Consumption → World Server → ℕ
  accepted token [] w = 0
  accepted token (own expected now ∷ cs) w =
      let (r, w') = consume_token J secret R digest token expected now w in
      counts r + accepted token cs w'
  accepted token (other u expected now ∷ cs) w =
      accepted token cs (consume_token J secret R digest u expected now w).1

  counts_cases :
      (r : Reply (Bool × String))
      → (counts r ≡ 0) ⊎ ((counts r ≡ 1) × ((reason : String) × (r ≡ got (true, reason))))
  counts_cases (got (true, reason)) = inr (refl, (reason, refl))
  counts_cases (got (false, reason)) = inl refl
  counts_cases raised = inl refl

  module _ (token : Token) (upto : ℕ)
      (expires : (now : ℕ) (c : Claims)
        → verify_recovery_token J secret token now ≡ some c
        → now < upto) where
    consume-Used :
        (u : Token) (expected : Option String) (now : ℕ) (w : World Server)
        → Used token now upto w.server
        → Used token now upto (consume_token J secret R digest u expected now w).1.server
    unfolding consume_token
    consume-Used u expected now w h t a b =
        (consume_verified-Used token now upto (omega arith) u expected
            (verify_recovery_token J secret u now)).at
          w h t a b

    Used-accepted_zero :
        (cs : List Consumption) (from : ℕ) (w : World Server)
        → InOrder from cs
        → Used token from upto w.server
        → accepted token cs w ≡ 0
    unfolding accepted
    Used-accepted_zero [] from w o h = refl
    Used-accepted_zero (other u expected now ∷ cs) from w (a, o) h =
        Used-accepted_zero cs now _ o (consume-Used u expected now w (λ t p q. h t (omega arith) q))
    Used-accepted_zero (own expected now ∷ cs) from w (a, o) h =
        let (r, w') = consume_token J secret R digest token expected now w in
        let used : Used token now upto w.server = λ t p q. h t (omega arith) q in
        elim (counts_cases r) [
          | inl z ↦
              omega
                (arith, z, Used-accepted_zero cs now w' o (consume-Used token expected now w used))
          | inr (z, (reason, g)) ↦
              let ((c, verified, full, same_tenant), free, marks) =
                consume_token_granted token expected now w reason g in
              cc (used now (omega arith) (expires now c verified), free)
        ]

    accepted_at_most_once_within :
        (cs : List Consumption) (from : ℕ) (w : World Server)
        → upto ≤ from + used_ttl
        → InOrder from cs
        → accepted token cs w ≤ 1
    unfolding accepted
    accepted_at_most_once_within [] from w l o = omega arith
    accepted_at_most_once_within (other u expected now ∷ cs) from w l (a, o) =
        accepted_at_most_once_within cs now _ (omega arith) o
    accepted_at_most_once_within (own expected now ∷ cs) from w l (a, o) =
        let (r, w') = consume_token J secret R digest token expected now w in
        elim (counts_cases r) [
          | inl z ↦ omega (arith, z, accepted_at_most_once_within cs now w' (omega arith) o)
          | inr (z, (reason, g)) ↦
              let (valid, free, marks) = consume_token_granted token expected now w reason g in
              omega (arith, z, Used-accepted_zero cs now w' o (λ t p q. marks t p (omega arith)))
        ]

  -- At most once: among any calls of `consume_token` in the order of time after a token is generated,
  -- for this and for other tokens, at most one accepts the token, however late the calls are and
  -- whatever requests and replies the network loses, if its lifetime is at most `USED_TTL`.
  pub accepted_at_most_once :
      (incident_id tenant_id action : String) (ttl : Option ℕ) (now later : ℕ)
      → lifetime ttl ≤ used_ttl
      → (cs : List Consumption) (w : World Server) → InOrder later cs
      → accepted (generate_recovery_token J secret incident_id tenant_id action ttl now later) cs w
        ≤ 1
  unfolding generate_recovery_token verify_recovery_token
  accepted_at_most_once incident_id tenant_id action ttl now later short cs w o =
      accepted_at_most_once_within _ (later + lifetime ttl)
        (λ t c v.
          decode_expired _ secret t (later + lifetime ttl) c v
            (ap (claim "exp") (decode_encoded _ c secret t v)))
        cs later w (omega arith) o
