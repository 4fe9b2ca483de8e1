-- ===== src/Policy/Examples.antt =====
-- The theorems about the policy at its default thresholds.
use fastapi_alertengine.Prelude.{some}
use fastapi_alertengine.Policy.{Decision}

abbrev restart : Decision
restart = record { action = some "recover"; confidence = some 870_000 }
