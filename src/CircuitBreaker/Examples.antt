-- ===== src/CircuitBreaker/Examples.antt =====
-- The theorems about the circuit breaker on a table with deadlines.
use fastapi_alertengine.Prelude.{◌≡◌, refl, true, none, some, [], arith, str_eq, if◌then◌else◌}
use fastapi_alertengine.Redis.{Hash, hash, number}
use fastapi_alertengine.Redis.Client.{got, send, catch}
use fastapi_alertengine.Redis.Table.{Table, table}
use fastapi_alertengine.CircuitBreaker.{
  breaker_key, hgetall, check_hash, check_fields, is_open, record_failure,
}
use fastapi_alertengine.CircuitBreaker.Opening.{failures, record_failure_opens}

abbrev two : Hash
two f = if str_eq f "failure_count" then some (number 2) else none

abbrev three : Hash
three f = if str_eq f "failure_count" then some (number 3) else some (number 160)

-- A table with one hash and no deadline
abbrev with_hash : Hash → Table
with_hash m k = if str_eq k (breaker_key "webhook" "acme") then some (hash m, none) else none

record_failure_opens_example :
    ((record_failure table "webhook" "acme" 100 100
        (record { server = with_hash two; faults = [] })).0
      ≡ got 3)
    × ((is_open table "webhook" "acme" 150 150
          (record_failure table "webhook" "acme" 100 100
            (record { server = with_hash two; faults = [] })).1).0
        ≡ got true)
record_failure_opens_example =
    record_failure_opens table "webhook" "acme" (with_hash two) 100 100 2 150 150
      (failures two 2 refl) (omega arith) (omega arith) (omega arith) (omega arith)

is_still_open :
    (is_open table "webhook" "acme" 150 150 (record { server = with_hash three; faults = [] })).0
    ≡ got true
unfolding is_open hgetall check_hash check_fields send catch
is_still_open = refl
