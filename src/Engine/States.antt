-- ===== src/Engine/States.antt =====
-- The states of the breaker, and what the buffer does in them.
use fastapi_alertengine.Prelude.{
  ℕ, ◌+◌, ◌≤◌, ◌<◌, ◌≡◌, refl, Option, none, some, List, [], ◌∷◌, arith, Bool-cases, inl, inr,
}
use fastapi_alertengine.Engine.Breaker.{
  CircuitState, closed, opened, half_open, Config, Storage, Breaker, keep, record_failure,
  should_attempt_write, is_closed, drain_list, drain_buffer, record_success, attempt, write_batch,
  write_batch_safe,
}

-- closed exactly without an opening time, and with few failures
abbrev pub Fits : CircuitState → Config → Option ℕ → ℕ → Type 0
Fits closed c o n = (o ≡ none) × (n < c.threshold)
Fits _ c o n = ((t : ℕ) × (o ≡ some t)) × (c.threshold ≤ n)

-- The state of the breaker fits its counters.
abbrev pub IsValid : {M : Type 0} → Config → Breaker M → Type 0
IsValid c b = Fits b.state c b.opened_at b.failure_count

module _ {M : Type 0} (W : Storage M) (c : Config) where
  open W use {Store}

  record_failure-IsValid :
      (st : CircuitState) (later : ℕ) (b : Breaker M)
      → b.state ≡ st
      → IsValid c b
      → IsValid c (record_failure c later b)
  unfolding record_failure
  record_failure-IsValid closed later b e v = ground (arith, e, v)
  record_failure-IsValid opened later b e v = ground (arith, e, v)
  record_failure-IsValid half_open later b e v = ground (arith, e, v)

  keep-IsValid : (batch : List M) (b : Breaker M) → IsValid c b → IsValid c (keep c batch b)
  unfolding keep
  keep-IsValid batch b v = v

  drain_list-IsValid :
      (buffered : List M) (b : Breaker M) (s : Store)
      → IsValid c b
      → IsValid c (drain_list W c buffered (b, s)).0
  unfolding drain_list keep
  drain_list-IsValid [] b s v = v
  drain_list-IsValid (m ∷ ms) b s v = ground (arith, v)

  record_success-IsValid :
      (b : Breaker M) (s : Store) → 1 ≤ c.threshold → IsValid c (record_success W c (b, s)).0
  unfolding record_success drain_buffer
  record_success-IsValid b s h =
      let b' = record b { state = closed; failure_count = 0; opened_at = none } in
      elim (Bool-cases (is_closed b.state)) [
        | inl e ↦ rw e (refl, omega arith)
        | inr e ↦ rw e (drain_list-IsValid b.buffer b' s (refl, omega arith))
      ]

  attempt-IsValid :
      (batch : List M) (later : ℕ) (b : Breaker M) (s : Store)
      → 1 ≤ c.threshold
      → IsValid c b
      → IsValid c (attempt W c batch later (b, s)).0
  unfolding attempt
  attempt-IsValid batch later b s h v = elim (Bool-cases (write_batch W batch s).0) [
    | inl e ↦ rw e (record_success-IsValid b (write_batch W batch s).1 h)
    | inr e ↦ rw e (
        keep-IsValid batch (record_failure c later b)
          (record_failure-IsValid b.state later b refl v))
  ]

  should_attempt_write-IsValid :
      (st : CircuitState) (now : ℕ) (b : Breaker M)
      → b.state ≡ st
      → IsValid c b
      → IsValid c (should_attempt_write c now b).1
  unfolding should_attempt_write
  should_attempt_write-IsValid closed now b e v = ground (arith, e, v)
  should_attempt_write-IsValid opened now b e v = ground (arith, e, v)
  should_attempt_write-IsValid half_open now b e v = ground (arith, e, v)

  -- `_cb_write_batch_safe` keeps the breaker well formed, if the threshold is not 0: CLOSED with fewer
  -- failures than the threshold and no opening time, or OPEN or HALF_OPEN with at least the threshold
  -- and an opening time.
  pub write_batch_safe-IsValid :
      (batch : List M) (now later : ℕ) (b : Breaker M) (s : Store)
      → 1 ≤ c.threshold
      → IsValid c b
      → IsValid c (write_batch_safe W c batch now later (b, s)).0
  unfolding write_batch_safe
  write_batch_safe-IsValid batch now later b s h v =
      let b' = (should_attempt_write c now b).1 in
      let v' = should_attempt_write-IsValid b.state now b refl v in
      elim (Bool-cases (should_attempt_write c now b).0) [
        | inl e ↦ rw e (attempt-IsValid batch later b' s h v')
        | inr e ↦ rw e (keep-IsValid batch b' v')
      ]

  -- While the breaker is OPEN and the cooldown has not passed, no write is attempted: the store and the
  -- state are as they were.
  pub open_skips_store :
      (batch : List M) (now later t : ℕ) (b : Breaker M) (s : Store)
      → b.state ≡ opened
      → b.opened_at ≡ some t
      → now < t + c.cooldown
      → 1 ≤ c.cooldown
      → ((write_batch_safe W c batch now later (b, s)).1 ≡ s)
        × ((write_batch_safe W c batch now later (b, s)).0.state ≡ opened)
  unfolding write_batch_safe should_attempt_write keep
  open_skips_store batch now later t b s e o a d = ground (arith, e, o)
