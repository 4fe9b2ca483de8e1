-- ===== src/CircuitBreaker/Opening.antt =====
-- When the circuit breaker is open.
use fastapi_alertengine.Prelude.{
  ℕ, ◌+◌, ◌≤◌, ◌<◌, ◌≡◌, ◌≢◌, ltb, ◌&&◌, refl, String, true, false, Option, none, some, [], ◌∷◌,
  arith, leb, Bool-cases, inl, inr, if◌then◌else◌,
}
use fastapi_alertengine.Redis.{Redis, number, Value, hash, Hash, write_field, fields_of, count_of}
use fastapi_alertengine.Redis.Client.{Reply, got, raised, World, pure, send, catch, ◌>>=◌, continue}
use fastapi_alertengine.Redis.Replies.{send_got, bind_got, catch-true}
use fastapi_alertengine.CircuitBreaker.{
  cb_ttl, cb_threshold, cb_cooldown, breaker_key, parse, hash_at, hgetall, increment, expire_key,
  set_field, delete_key, reset_script, check_fields, check_hash, is_open, open_breaker,
  record_failure, delete_existing, record_success, can_count, count_if,
}

-- The key holds a hash with a number of failures, or nothing and so none.
pub data Counts : Option Value → ℕ → Type 0 where
  no_failure : Counts none 0
  failures : (m : Hash) (n : ℕ) → m "failure_count" ≡ some (number n) → Counts (some (hash m)) n

module _ (R : Redis) (provider tenant_id : String) where
  open R use {
    Server, peek, del, expire, hset, hincrby, hincrby_count, hincrby_now, expire_live, hset_live,
    del_gone,
  }

  abbrev key : String
  key = breaker_key provider tenant_id

  -- A failed send
  abbrev after_failure : ℕ → ℕ → Server → World Server
  after_failure now later s =
      (record_failure R provider tenant_id now later (record { server = s; faults = [] })).1

  -- what `is_open` answers on a hash with two numbers
  is_open_fields :
      (s : Server) (now later n u : ℕ) (m : Hash)
      → peek s now key ≡ some (hash m)
      → m "failure_count" ≡ some (number n)
      → parse (m "disabled_until") ≡ got u
      → (is_open R provider tenant_id now later (record { server = s; faults = [] })).0
        ≡ got (leb cb_threshold n && ltb now u)
  unfolding is_open hgetall check_hash check_fields reset_script send catch
  is_open_fields s now later n u m h c d = ground (arith, h, c, d)

  is_open_below :
      (s : Server) (now later n : ℕ) (m : Hash)
      → peek s now key ≡ some (hash m)
      → m "failure_count" ≡ some (number n)
      → leb cb_threshold n ≡ false
      → (is_open R provider tenant_id now later (record { server = s; faults = [] })).0 ≡ got false
  unfolding is_open hgetall check_hash check_fields reset_script send catch
  is_open_below s now later n m h c d = ground (arith, h, c, d)

  -- `record_success` closes the breaker: if Redis answers, `is_open` returns False after it.
  pub record_success_closes :
      (s : Server) (now t t' : ℕ) (m : Hash)
      → peek s now key ≡ some (hash m)
      → let w = (record_success R provider tenant_id now (record { server = s; faults = [] })).1 in
        (is_open R provider tenant_id t t' w).0 ≡ got false
  unfolding is_open record_success delete_existing delete_key hgetall check_hash send catch
  record_success_closes s now t t' m h = ground (arith, h, del_gone now key s t)

  -- the hash after HINCRBY
  abbrev counted : Option Value → ℕ → Hash
  counted v n = write_field (fields_of v) "failure_count" (number (n + 1))

  increment-Counts :
      (s : Server) (now n : ℕ)
      → Counts (peek s now key) n
      → (increment R now key "failure_count" s
          ≡ (got (n + 1), (hincrby now key "failure_count" s).1))
        × (peek (hincrby now key "failure_count" s).1 now key
            ≡ some (hash (counted (peek s now key) n)))
  unfolding increment
  increment-Counts s now n c =
      from (peek s now key) n c (hincrby_count now key "failure_count" s)
        (hincrby_now now key "failure_count" s)
    where
      from :
          (v : Option Value) (n : ℕ)
          → Counts v n
          → (hincrby now key "failure_count" s).0 ≡ count_of (fields_of v "failure_count") + 1
          → peek (hincrby now key "failure_count" s).1 now key
            ≡ some (
                hash (
                  write_field
                    (fields_of v)
                    "failure_count"
                    (number (count_of (fields_of v "failure_count") + 1))))
          → (count_if R (can_count R (hash_at v) "failure_count") now key "failure_count" s
              ≡ (got (n + 1), (hincrby now key "failure_count" s).1))
            × (peek (hincrby now key "failure_count" s).1 now key ≡ some (hash (counted v n)))
      from _ _ no_failure a b = (ground (arith, a), b)
      from _ _ (failures m n e) a b = (ground (arith, a, e), rw e at b)

  -- the server after HINCRBY and EXPIRE, and after a further HSET
  abbrev expired : ℕ → Server → Server
  expired now s = expire now key cb_ttl (hincrby now key "failure_count" s).1

  abbrev opened : ℕ → ℕ → Server → Server
  opened now later s =
      hset later key (("disabled_until", number (later + cb_cooldown)) ∷ []) (expired now s)

  record_failure_runs :
      (s : Server) (now later n : ℕ)
      → Counts (peek s now key) n
      → record_failure R provider tenant_id now later (record { server = s; faults = [] }) ≡ (
        got (n + 1),
        record {
          server = if leb cb_threshold (n + 1) then opened now later s else expired now s;
          faults = [];
        },
      )
  unfolding record_failure open_breaker expire_key set_field send catch
  record_failure_runs s now later n c = ground (arith, increment-Counts s now n c)

  expired_at :
      (s : Server) (now n t : ℕ)
      → Counts (peek s now key) n
      → now ≤ t
      → t < now + cb_ttl
      → peek (expired now s) t key ≡ some (hash (counted (peek s now key) n))
  expired_at s now n t c a b = expire_live now key cb_ttl _ t (increment-Counts s now n c).1 a b

  -- A failure is counted, and opens the breaker from the third on: if Redis answers and the key holds
  -- `n` failures or is not there, `record_failure` returns `n + 1`, and until the cooldown has passed
  -- `is_open` returns whether that has reached `CB_THRESHOLD`.
  pub record_failure_opens :
      (s : Server) (now later n t t' : ℕ)
      → Counts (peek s now key) n
      → now ≤ later
      → later + cb_cooldown ≤ now + cb_ttl
      → later ≤ t
      → t < later + cb_cooldown
      → let (r, w) =
          record_failure R provider tenant_id now later (record { server = s; faults = [] }) in
        (r ≡ got (n + 1))
        × ((is_open R provider tenant_id t t' w).0 ≡ got (leb cb_threshold (n + 1)))
  record_failure_opens s now later n t t' c a b d e =
      let runs = record_failure_runs s now later n c in
      elim (Bool-cases (leb cb_threshold (n + 1))) [
        | inl high ↦
            let there =
              hset_live later key _ (expired now s) t (counted (peek s now key) n)
                (expired_at s now n later c a (omega arith)) d
                (expired_at s now n t c (omega arith) (omega arith)) in
            let answer =
              is_open_fields (opened now later s) t t' (n + 1) (later + cb_cooldown) _ there refl
                refl in
            ground (arith, runs, high, answer)
        | inr low ↦
            let answer =
              is_open_below (expired now s) t t' (n + 1) _
                (expired_at s now n t c (omega arith) (omega arith)) refl low in
            ground (arith, runs, low, answer)
      ]

  reset_false : (r : Reply ℕ) (w : World Server) → (continue r (λ n. pure false) w).0 ≢ got true
  reset_false (got n) w h = cc
  reset_false raised w h = cc

  check_fields-true :
      (now later n u : ℕ) (w : World Server)
      → (check_fields R key now later n u w).0 ≡ got true
      → (cb_threshold ≤ n) × (now < u)
  unfolding check_fields
  check_fields-true now later n u w h = ground (
    arith,
    h,
    reset_false (send (reset_script R later key) w).0 (send (reset_script R later key) w).1,
  )

  check_hash-true :
      (now later : ℕ) (o : Option Hash) (w : World Server)
      → (check_hash R key now later o w).0 ≡ got true
      → (m : Hash) × (n : ℕ) × (u : ℕ) × (o ≡ some m)
        × (parse (m "failure_count") ≡ got n)
        × (parse (m "disabled_until") ≡ got u)
        × (cb_threshold ≤ n)
        × (now < u)
  unfolding check_hash check_fields
  check_hash-true now later none w h = cc
  check_hash-true now later (some m) w h =
      let (n, count, e) = bind_got (λ w'. (parse (m "failure_count"), w')) _ w h in
      let (u, until, e') = bind_got (λ w'. (parse (m "disabled_until"), w')) _ _ (rw e at h) in
      let (high, early) = check_fields-true now later n u w (rw (e, e') at h) in
      (m, n, u, refl, count, until, high, early)

  hash_at-some : (v : Option Value) (m : Hash) → hash_at v ≡ got (some m) → v ≡ some (hash m)
  hash_at-some v m h = ground (arith, h)

  -- `is_open` returns True only where the key holds a hash with at least `CB_THRESHOLD` failures and a
  -- cooldown that has not passed; so where Redis does not answer, messages are sent.
  is_open-true :
      (now later : ℕ) (w : World Server)
      → (is_open R provider tenant_id now later w).0 ≡ got true
      → (m : Hash) × (n : ℕ) × (u : ℕ) × (peek w.server now key ≡ some (hash m))
        × (parse (m "failure_count") ≡ got n)
        × (parse (m "disabled_until") ≡ got u)
        × (cb_threshold ≤ n)
        × (now < u)
  unfolding is_open hgetall
  is_open-true now later w h =
      let (unguarded, same) =
        catch-true (send (hgetall R now key) >>= check_hash R key now later) w h in
      let (o, sent, e) =
        bind_got (send (hgetall R now key)) (check_hash R key now later) w unguarded in
      let (m, n, u, there, count, until, high, early) =
        check_hash-true now later o _ (rw e at unguarded) in
      let found = (send_got (hgetall R now key) w sent).0 in
      (
        m,
        n,
        u,
        hash_at-some (peek w.server now key) m (ground (arith, found, there)),
        count,
        until,
        high,
        early,
      )
