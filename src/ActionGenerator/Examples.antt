-- ===== src/ActionGenerator/Examples.antt =====
-- The theorems about recovery tokens, where a token is its claims with the secret that signed them.
use fastapi_alertengine.Prelude.{
  ℕ, ◌≤◌, ◌<◌, ◌≡◌, refl, String, Bool, true, ◌&&◌, Option, none, some, List, [], ◌∷◌, arith,
  str_eq, eq_iff, leb, ltb, if◌then◌else◌,
}
use fastapi_alertengine.Redis.{Item, number}
use fastapi_alertengine.Redis.Client.{got, World}
use fastapi_alertengine.Redis.Table.{Table, table}
use fastapi_alertengine.ActionGenerator.{
  Claims, claim, Jwt, payload_of, generate_recovery_token, validate_and_consume,
}
use fastapi_alertengine.ActionGenerator.Replay.{
  Consumption, own, other, accepted, accepted_at_most_once,
}
use fastapi_alertengine.ActionGenerator.Fresh.{fresh_accepted}

-- `iat` and `exp`, where they are there
abbrev is_current : Option Item → Option Item → ℕ → Bool
is_current (some (number i)) (some (number e)) now = leb i now && ltb now e
is_current i (some (number e)) now = ltb now e
is_current i e now = true

abbrev decode_pair : Claims × String → String → ℕ → Option Claims
decode_pair (c, k) secret now =
    if str_eq k secret && is_current (claim "iat" c) (claim "exp" c) now then some c else none

decoded :
    (c d : Claims) (k secret : String) (now : ℕ)
    → decode_pair (c, k) secret now ≡ some d
    → (d ≡ c) × (is_current (claim "iat" c) (claim "exp" c) now ≡ true)
decoded c d k secret now h = ground (arith, h)

before_exp :
    (i x : Option Item) (now e : ℕ) → is_current i x now ≡ true → x ≡ some (number e) → now < e
before_exp i x now e h same = ground (arith, h, same)

current :
    (i e now : ℕ) → i ≤ now → now < e → is_current (some (number i)) (some (number e)) now ≡ true
current i e now a b = ground arith

decode_fresh :
    (c : Claims) (k : String) (now i e : ℕ)
    → claim "iat" c ≡ some (number i)
    → i ≤ now
    → claim "exp" c ≡ some (number e)
    → now < e
    → decode_pair (c, k) k now ≡ some c
decode_fresh c k now i e a b x d = rw (a, x, current i e now b d, (eq_iff k k).1 refl) refl

abbrev pairs : Jwt
pairs = record {
  Token = Claims × String;
  encode = λ c k. (c, k);
  decode = decode_pair;
  decode_encoded = λ c d k now h. (decoded c d k k now h).0;
  decode_expired = λ (c, k) secret now e d h x.
      before_exp (claim "iat" c) (claim "exp" c) now e (decoded c d k secret now h).1
        (rw (decoded c d k secret now h).0 at x);
  decode_fresh = decode_fresh;
}

abbrev token : Claims × String
token = generate_recovery_token pairs "secret" "inc-1" "acme" "restart" none 100 101

abbrev hash_of : Claims × String → String
hash_of (c, k) = k

abbrev presented : List (Consumption pairs "secret" table hash_of)
presented =
    own none 110 ∷ own (some "acme") 120 ∷ other token (some "other") 130 ∷ own none 900 ∷ []

abbrev empty : World Table
empty = record { server = λ k. none; faults = [] }

accepted_at_most_once_example : accepted pairs "secret" table hash_of token presented empty ≤ 1
accepted_at_most_once_example =
    accepted_at_most_once pairs "secret" table hash_of "inc-1" "acme" "restart" none 100 101
      (omega arith) presented empty (omega arith, (omega arith, (omega arith, (omega arith, tt))))

fresh_accepted_example :
    (validate_and_consume pairs "secret" table hash_of token (some "acme") 110 111 empty).0
    ≡ got (true, some (payload_of "inc-1" "acme" "restart" 300 100 101), "ok")
fresh_accepted_example =
    fresh_accepted pairs "secret" table hash_of "inc-1" "acme" "restart" none 100 101 110 111
      empty.server (some "acme") (omega arith) (omega arith) (omega arith) refl refl
