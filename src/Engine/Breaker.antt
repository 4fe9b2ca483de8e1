-- ===== src/Engine/Breaker.antt =====
-- `AlertEngine._cb_*`: the circuit breaker in front of `write_batch`, and the buffer behind it.
--
-- The Redis pipeline of a batch is an interface: it returns, or raises, which `write_batch` of storage.py
-- catches. A Bool beside a store says whether the call returned. Times are those of
-- `time.monotonic()`, read anew by each call that reads it.
use fastapi_alertengine.Prelude.{
  ℕ, ◌+◌, ◌-◌, Bool, true, false, Option, none, some, List, [], ◌∷◌, ◌++◌, ltb, leb, length,
  or_default, if◌then◌else◌,
}

-- `_CircuitState`; `opened` is OPEN
pub data CircuitState : Type 0 where
  closed opened half_open : CircuitState

abbrev pub is_closed : CircuitState → Bool
is_closed closed = true
is_closed _ = false

-- `circuit_breaker_threshold`, `circuit_breaker_cooldown_s` and `memory_buffer_maxlen`
pub record Config : Type 0 where
  pub threshold : ℕ
  pub cooldown : ℕ
  pub maxlen : ℕ

-- Redis: a pipeline of XADD commands for a batch, which returns or raises, with what it has written then.
pub record Storage (M : Type 0) : Type 1 where
  pub Store : Type 0
  pub execute : List M → Store → Bool × Store

pub record Breaker (M : Type 0) : Type 0 where
  pub state : CircuitState
  pub failure_count : ℕ
  pub opened_at : Option ℕ
  pub dropped_events : ℕ
  pub buffer : List M

module _ {M : Type 0} where
  abbrev pub initial : Breaker M
  initial = record {
    state = closed;
    failure_count = 0;
    opened_at = none;
    dropped_events = 0;
    buffer = [];
  }

  -- the loop that appends to the buffer or counts a drop
  unfoldable pub append_each : ℕ → List M → List M → ℕ → List M × ℕ
  append_each maxlen [] buffer dropped = (buffer, dropped)
  append_each maxlen (m ∷ ms) buffer dropped =
      let kept = append_each maxlen ms (buffer ++ (m ∷ [])) dropped in
      let lost = append_each maxlen ms buffer (dropped + 1) in
      if ltb (length buffer) maxlen then kept else lost

  unfoldable pub keep : Config → List M → Breaker M → Breaker M
  keep c batch b =
      let (buffer, dropped) = append_each c.maxlen batch b.buffer b.dropped_events in
      record b { buffer = buffer; dropped_events = dropped }

  -- `_cb_record_failure`
  unfoldable pub record_failure : Config → ℕ → Breaker M → Breaker M
  record_failure c now b =
      let n = b.failure_count + 1 in
      elim b.state [
        | closed ↦
            if leb c.threshold n
            then record b { failure_count = n; state = opened; opened_at = some now }
            else record b { failure_count = n }
        | half_open ↦ record b { failure_count = n; state = opened; opened_at = some now }
        | opened ↦ record b { failure_count = n }
      ]

  -- `_cb_should_attempt_write`
  unfoldable pub should_attempt_write : Config → ℕ → Breaker M → Bool × Breaker M
  should_attempt_write c now b = elim b.state [
    | closed ↦ (true, b)
    | opened ↦
        if leb c.cooldown (now - or_default b.opened_at 0)
        then (true, record b { state = half_open })
        else (false, b)
    | half_open ↦ (true, b)
  ]

  module _ (W : Storage M) where
    open W use {Store, execute}

    -- `except Exception`: the call returns
    abbrev caught : Bool × Store → Bool × Store
    caught (returned, s) = (true, s)

    -- `storage.write_batch`
    unfoldable pub write_batch : List M → Store → Bool × Store
    write_batch [] s = (true, s)
    write_batch (m ∷ ms) s = caught (execute (m ∷ ms) s)

  module _ (W : Storage M) (c : Config) where
    open W use {Store}

    abbrev after_drain : Bool → List M → Breaker M → Breaker M
    after_drain true buffered b = b
    after_drain false buffered b = keep c buffered b

    unfoldable pub drain_list : List M → Breaker M × Store → Breaker M × Store
    drain_list [] (b, s) = (b, s)
    drain_list (m ∷ ms) (b, s) =
        let (returned, s') = write_batch W (m ∷ ms) s in
        (after_drain returned (m ∷ ms) (record b { buffer = [] }), s')

    -- `_cb_drain_buffer`
    unfoldable pub drain_buffer : Breaker M × Store → Breaker M × Store
    drain_buffer (b, s) = drain_list b.buffer (b, s)

    -- `_cb_record_success`
    unfoldable pub record_success : Breaker M × Store → Breaker M × Store
    record_success (b, s) =
        let b' = record b { state = closed; failure_count = 0; opened_at = none } in
        if is_closed b.state then (b', s) else drain_buffer (b', s)

    abbrev after_write : Bool → List M → ℕ → Breaker M × Store → Breaker M × Store
    after_write true batch later (b, s) = record_success (b, s)
    after_write false batch later (b, s) = (keep c batch (record_failure c later b), s)

    -- the call of `write_batch` and what follows it
    unfoldable pub attempt : List M → ℕ → Breaker M × Store → Breaker M × Store
    attempt batch later (b, s) =
        let (returned, s') = write_batch W batch s in after_write returned batch later (b, s')

    -- `_cb_write_batch_safe`; `later` is the clock of `_cb_record_failure`
    unfoldable pub write_batch_safe : List M → ℕ → ℕ → Breaker M × Store → Breaker M × Store
    write_batch_safe batch now later (b, s) =
        let (go, b') = should_attempt_write c now b in
        if go then attempt batch later (b', s) else (keep c batch b', s)
