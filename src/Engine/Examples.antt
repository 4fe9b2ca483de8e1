-- ===== src/Engine/Examples.antt =====
-- The theorems about the breaker on a store that fails by a plan.
use fastapi_alertengine.Prelude.{
  ℕ, ◌+◌, ◌≤◌, ◌≡◌, ◌++◌, Bool, true, false, none, some, List, [], ◌∷◌, arith, length,
}
use fastapi_alertengine.Engine.Breaker.{Config, Storage, initial}
use fastapi_alertengine.Engine.Buffer.{sent, write_all, breaker_never_opens}
use fastapi_alertengine.Engine.Queue.{
  Metric, max_queue_size, Ingestion, Event, arrives, drains, run, accepted_all, arrivals, run_fifo,
}

-- Redis as the metrics that it holds, where the pipelines of single metrics raise.
abbrev run_pipeline : List ℕ → List ℕ → Bool × List ℕ
run_pipeline (m ∷ []) held = (false, held)
run_pipeline batch held = (true, held ++ batch)

abbrev failing : Storage ℕ
failing = record { Store = List ℕ; execute = run_pipeline }

abbrev settings : Config
settings = record { threshold = 2; cooldown = 30; maxlen = 3 }

abbrev batches : List (List ℕ × ℕ × ℕ)
batches = (1 ∷ 2 ∷ [], 10, 10) ∷ (3 ∷ 4 ∷ [], 11, 11) ∷ (5 ∷ [], 20, 20) ∷ (6 ∷ [], 50, 50) ∷ []

breaker_never_opens_example :
    write_all failing settings batches (initial, []) ≡ (initial, sent failing settings batches [])
breaker_never_opens_example = breaker_never_opens failing settings batches []

abbrev metric : ℕ → Metric ℕ
metric n = record { service_name = none; instance_id = some "i-1"; rest = n }

abbrev events : List (Event ℕ)
events = arrives (metric 1) ∷ arrives (metric 2) ∷ drains ∷ arrives (metric 3) ∷ []

abbrev fresh : Ingestion ℕ
fresh = record { queue = []; enqueued = 0; dropped = 0 }

run_fifo_example :
    ((run "api" "i-0" events fresh).0 ++ (run "api" "i-0" events fresh).1.queue
      ≡ accepted_all "api" "i-0" events fresh)
    × ((run "api" "i-0" events fresh).1.enqueued + (run "api" "i-0" events fresh).1.dropped
        ≡ 0 + 0 + arrivals events)
    × (length (run "api" "i-0" events fresh).1.queue ≤ max_queue_size)
run_fifo_example = run_fifo "api" "i-0" events fresh (omega arith)
