-- ===== src/Idempotency/Examples.antt =====
-- The theorems about claims on a table with deadlines.
use fastapi_alertengine.Prelude.{
  ℕ, suc, ◌≤◌, ◌≡◌, refl, true, String, Option, none, some, [], ◌∷◌, arith,
}
use fastapi_alertengine.Redis.Client.{lost_reply, fine, got, World, send, catch}
use fastapi_alertengine.Redis.Table.{Table, table}
use fastapi_alertengine.Idempotency.{claim_action, place, remove, write, keep_for, convert}
use fastapi_alertengine.Idempotency.AtMostOnce.{runs, runs_at_most_once}
use fastapi_alertengine.Idempotency.Race.{a, b, start, schedule, returned, claim_race}

abbrev no_keys : Table
no_keys k = none

abbrev quiet : World Table
quiet = record { server = no_keys; faults = [] }

-- The first claim loses a reply.
abbrev shaky : World Table
shaky = record { server = no_keys; faults = fine ∷ fine ∷ lost_reply ∷ [] }

claimed : (claim_action table "act" "{}" 100 quiet).0 ≡ got true
unfolding claim_action convert place remove write keep_for send catch
claimed = refl

-- A function that counts its calls and always raises.
abbrev flaky : ℕ → Option String × ℕ
flaky n = (some "timeout", suc n)

runs_at_most_once_example :
    runs table flaky
      (λ s. s)
      "inc-1"
      "DETECTED"
      "SEND_DETECTION"
      "{}"
      ((100, 110) ∷ (120, 130) ∷ [])
      0
      shaky
    ≤ 1
runs_at_most_once_example =
    runs_at_most_once table flaky (λ s. s) "inc-1" "DETECTED" "SEND_DETECTION" "{}"
      ((100, 110) ∷ (120, 130) ∷ []) 100 0 shaky (omega arith)

claim_race_example :
    let p =
      schedule table "act" "{}" 100
        (a ∷ a ∷ b ∷ b ∷ a ∷ a ∷ b ∷ b ∷ [])
        (start table "act" "{}" 100 no_keys) in
    (p.first ≡ returned true) × (p.second ≡ returned true)
claim_race_example = claim_race table "act" "{}" 100 no_keys refl
