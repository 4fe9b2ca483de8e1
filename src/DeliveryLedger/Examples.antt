-- ===== src/DeliveryLedger/Examples.antt =====
-- The theorem about the delivery ledger at two failed attempts.
use fastapi_alertengine.Prelude.{◌≡◌, ◌≢◌, ◌↔◌, refl, false, true, none, some, List, [], ◌∷◌, arith}
use fastapi_alertengine.Redis.Client.{got, World, send, catch}
use fastapi_alertengine.Redis.Lists.{table}
use fastapi_alertengine.Redis.ListCalls.{push_for, push, keep_for}
use fastapi_alertengine.Redis.Texts.{JsonOf}
use fastapi_alertengine.DeliveryLedger.{Attempt, Entry, entry_of, record_attempt, all_failed}
use fastapi_alertengine.DeliveryLedger.Blackout.{Timed, Failed, record_each, blackout_exact}

abbrev attempt : Attempt
attempt = record {
  provider = "whatsapp";
  channel = "whatsapp";
  tenant_id = "acme";
  success = false;
  error = some "timeout";
  message_id = none;
}

-- a JSON that knows this attempt at its first time only
abbrev json : JsonOf Entry
json = record { dumps = λ e. "entry"; loads = λ t. some (entry_of "inc-1" attempt 10) }

abbrev attempts : List Timed
attempts = (attempt, 10) ∷ (attempt, 10) ∷ []

abbrev quiet : World table.Server
quiet = record { server = λ k. ([], none); faults = [] }

blackout_exact_example :
    ((all_failed table json "inc-1" 20
        (record { server = (record_each table json "inc-1" attempts quiet).server; faults = [] })).0
      ≡ got true)
    ↔ ((attempts ≢ []) × Failed attempts)
unfolding record_attempt push_for push keep_for send catch
blackout_exact_example =
    blackout_exact table json "inc-1" attempts quiet 0 20 (refl, (refl, tt)) (λ u. refl)
      (omega arith, omega arith, (omega arith, omega arith, (omega arith, omega arith)))
      (refl, (refl, tt))
