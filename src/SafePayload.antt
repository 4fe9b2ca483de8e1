-- ===== src/SafePayload.antt =====
-- orchestrator/safe_payload.py: values of any shape read with a default, and the fields that are kept inside.
--
-- A value is what a JSON text can hold: the numbers that a float has, and an int beyond the range of a
-- float, by its sign. `float` of a text and `str` are parameters. A conversion gives a number, is
-- refused by a TypeError or a ValueError, which are caught, or overflows: the OverflowError of `float`
-- and `int` is not caught. None of a safe extractor, and of a whole extraction, is that exception.
pub mod Extraction
mod Examples
use fastapi_alertengine.Prelude.{
  ℕ, zero, suc, String, Bool, true, false, Option, none, some, List, [], ◌∷◌, str_eq, ltb, not,
  ◌||◌, if◌then◌else◌,
}

pub data Number : Type 0 where
  -- the sign, the whole part and the rest in millionths
  finite : Bool → ℕ → ℕ → Number
  infinite : Bool → Number
  nan : Number

pub data ℤ : Type 0 where
  pos : ℕ → ℤ
  negsuc : ℕ → ℤ

mutual
  pub data Value : Type 0 where
    null : Value
    truth : Bool → Value
    number : Number → Value
    huge : Bool → Value
    text : String → Value
    list : Values → Value
    dict : Fields → Value

  pub data Values : Type 0 where
    no_values : Values
    value : Value → Values → Values

  pub data Fields : Type 0 where
    no_fields : Fields
    field : String → Value → Fields → Fields

-- `.get` of a dict
unfoldable pub get : String → Fields → Value
get k no_fields = null
get k (field j v fs) = if str_eq k j then v else get k fs

abbrev pub zero_number : Number
zero_number = finite false 0 0

-- `result != result`
abbrev pub unless_nan : Number → Number → Number
unless_nan default nan = default
unless_nan default n = n

-- what `float(value)` comes to
pub data Floated : Type 0 where
  floats : Number → Floated
  refused overflows : Floated

-- `int` of a float: an infinity raises OverflowError, and not a number a ValueError, which is caught
unfoldable pub truncate : ℤ → Number → Option ℤ
truncate default (finite false whole rest) = some (pos whole)
truncate default (finite true zero rest) = some (pos 0)
truncate default (finite true (suc n) rest) = some (negsuc n)
truncate default (infinite sign) = none
truncate default nan = some default

-- what `or` takes as false
unfoldable pub is_false : Value → Bool
is_false null = true
is_false (truth b) = not b
is_false (number (finite sign zero zero)) = true
is_false (text s) = str_eq s ""
is_false (list no_values) = true
is_false (dict no_fields) = true
is_false v = false

abbrev pub or_else : Value → Value → Value
or_else v w = if is_false v then w else v

unfoldable pub safe_dict : Value → Fields
safe_dict (dict fs) = fs
safe_dict v = no_fields

abbrev pub internal_fields : List String
internal_fields =
    "recovery_webhook" ∷ "internal_trace" ∷ "redis_key" ∷ "claude_prompt" ∷ "approval_token"
    ∷ "baseline_key" ∷ "diagnosis_history_key" ∷ "tenant_secret" ∷ "alert_secret"
    ∷ "twilio_auth_token" ∷ "sent_api_key" ∷ []

unfoldable pub contains : String → List String → Bool
contains k [] = false
contains k (x ∷ xs) = str_eq k x || contains k xs

unfoldable pub strip_internal_fields : Fields → Fields
strip_internal_fields no_fields = no_fields
strip_internal_fields (field k v fs) =
    let rest = strip_internal_fields fs in
    if contains k internal_fields then rest else field k v rest

pub record HealthSnapshot : Type 0 where
  pub status : String
  pub score : ℕ
  pub trend : String
  pub p95_ms : Number
  pub error_rate : Number
  pub anomaly_score : Number
  pub sample_size : ℤ
  pub alerts : Values
  pub is_degraded : Bool

abbrev pub default_snapshot : HealthSnapshot
default_snapshot = record {
  status = "healthy";
  score = 100;
  trend = "stable";
  p95_ms = zero_number;
  error_rate = zero_number;
  anomaly_score = zero_number;
  sample_size = pos 0;
  alerts = no_values;
  is_degraded = false;
}

unfoldable pub is_critical : HealthSnapshot → Bool
is_critical s = str_eq s.status "critical" || ltb s.score 40

-- `max(0, min(100, score))`
unfoldable pub clamp : ℤ → ℕ
clamp (negsuc n) = 0
clamp (pos n) = if ltb 100 n then 100 else n

unfoldable pub safe_list : Value → Values
safe_list (list vs) = vs
safe_list v = no_values

-- `float` of a text, and `str` of a value that is no text
module _ (float_of : String → Option Number) (str_of : Value → String) where
  abbrev pub read_text : Option Number → Floated
  read_text none = refused
  read_text (some n) = floats n

  -- `float(value)`
  unfoldable pub to_float : Value → Floated
  to_float (truth b) = floats (finite false (if b then 1 else 0) 0)
  to_float (number n) = floats n
  to_float (huge sign) = overflows
  to_float (text s) = read_text (float_of s)
  to_float v = refused

  abbrev pub or_number : Number → Floated → Option Number
  or_number default (floats n) = some (unless_nan default n)
  or_number default refused = some default
  or_number default overflows = none

  unfoldable pub safe_float : Number → Value → Option Number
  safe_float default v = or_number default (to_float v)

  abbrev pub or_int : ℤ → Floated → Option ℤ
  or_int default (floats n) = truncate default n
  or_int default refused = some default
  or_int default overflows = none

  unfoldable pub safe_int : ℤ → Value → Option ℤ
  safe_int default v = or_int default (to_float v)

  unfoldable pub safe_str : String → Value → String
  safe_str default null = default
  safe_str default (text s) = s
  safe_str default v = str_of v

  -- `m_block.get("overall_p95_ms") or m_block.get("p95_ms") or m_block.get("p95")`
  abbrev pub p95_of : Fields → Value
  p95_of m_block =
      or_else (or_else (get "overall_p95_ms" m_block) (get "p95_ms" m_block)) (get "p95" m_block)

  -- the snapshot once the five numbers are read
  unfoldable pub snapshot :
      Fields
      → Option ℤ
      → Option Number
      → Option Number
      → Option Number
      → Option ℤ
      → Option HealthSnapshot
  snapshot raw (some score) (some p95) (some err) (some anomaly) (some size) =
      let hs_block = safe_dict (get "health_score" raw) in
      let status = safe_str "healthy" (get "status" hs_block) in
      some (record {
        status = status;
        score = clamp score;
        trend = safe_str "stable" (get "trend" hs_block);
        p95_ms = p95;
        error_rate = err;
        anomaly_score = anomaly;
        sample_size = size;
        alerts = safe_list (get "alerts" raw);
        is_degraded = str_eq status "degraded";
      })
  snapshot raw score p95 err anomaly size = none

  unfoldable pub extract_health : Value → Option HealthSnapshot
  extract_health (dict raw) =
      let m_block = safe_dict (get "metrics" raw) in
      snapshot raw (safe_int (pos 100) (get "score" (safe_dict (get "health_score" raw))))
        (safe_float zero_number (p95_of m_block))
        (safe_float zero_number (get "error_rate" m_block))
        (safe_float zero_number (get "anomaly_score" m_block))
        (safe_int (pos 0) (get "sample_size" m_block))
  extract_health v = some default_snapshot
