-- ===== src/Contracts/Examples.antt =====
-- The theorems about the checks of orchestrator/contracts.py at concrete values.
use fastapi_alertengine.Prelude.{ℕ, suc, ◌+◌, Bool, true, String, some}
use fastapi_alertengine.Contracts.{Output, number, string}
use fastapi_alertengine.Contracts.Notifications.{
  Attempt, raises, Delivery, DeadLetter, enforce_notification,
}

abbrev output : Output
output = record {
  action = some (string "recover");
  confidence = some (number 900_000);
  reason = some (string "restart");
  whatsapp_message = some (string "Restart the pod?");
}

-- The state counts what was sent: both channels fail.
abbrev fails : String → ℕ → Attempt × ℕ
fails p n = (raises, suc n)

abbrev push : DeadLetter String → ℕ → Bool × ℕ
push letter n = (true, 10 + n)

abbrev run : Delivery × ℕ
run = enforce_notification fails fails push "down" 0
