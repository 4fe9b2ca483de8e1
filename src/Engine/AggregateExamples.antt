-- ===== src/Engine/AggregateExamples.antt =====
-- The theorems about percentiles and aggregation at concrete metrics.
use fastapi_alertengine.Prelude.{
  ℕ, ◌+◌, ◌*◌, ◌≤◌, ◌<◌, ◌≡◌, refl, String, false, none, some, List, [], ◌∷◌, arith, length, count,
  leb, ltb,
}
use fastapi_alertengine.Engine.Queue.{Metric}
use fastapi_alertengine.Engine.Percentile.{percentile, percentile_lem}
use fastapi_alertengine.Engine.Aggregate.{
  Fields, Key, Event, batch, flush, flush_all, run, empty, max_agg_keys, has_key, aggregate_each,
  aggregate, count_in, key_of, add_to, update,
}
use fastapi_alertengine.Engine.Conserved.{counted, given, aggregates_conserved}
use fastapi_alertengine.Engine.Rows.{row_at, summed, row_or_new, latencies_of, rows_exact}

abbrev latencies : List ℕ
latencies = 30 ∷ 10 ∷ 20 ∷ []

percentile_lem_example :
    let v = percentile latencies 95 in
    (length latencies * 95 ≤ 100 * count (λ y. leb y v) latencies)
    × (100 * count (λ y. ltb y v) latencies < length latencies * 95)
percentile_lem_example = percentile_lem 30 (10 ∷ 20 ∷ []) 95 (omega arith) (omega arith)

abbrev request : String → ℕ → Metric Fields
request path latency = record {
  service_name = none;
  instance_id = none;
  rest = record {
    route_template = none;
    path = some path;
    method = some "GET";
    status_code = some 200;
    latency_ms = some latency;
  };
}

abbrev requests : List (Metric Fields)
requests = request "/a" 30 ∷ request "/b" 10 ∷ request "/a" 20 ∷ []

abbrev events : List Event
events = batch 120 requests ∷ flush 130 ∷ batch 185 requests ∷ flush 190 ∷ flush_all ∷ []

aggregates_conserved_example :
    let (out, s) = run (λ t. t) (λ t. false) "api" 60 events empty in
    (counted out + (counted s.agg + s.dropped_agg_keys)
      ≡ given (λ t. t) (λ t. false) "api" 60 events)
    × (length s.agg ≤ max_agg_keys)
aggregates_conserved_example = aggregates_conserved (λ t. t) (λ t. false) "api" 60 events

abbrev key_a : Key
key_a = key_of (λ t. t) (λ t. false) "api" 60 120 (request "/a" 0)

rows_exact_example :
    row_at key_a (aggregate_each (λ t. t) (λ t. false) "api" 60 120 requests empty).agg
    ≡ some (
        summed
          (row_or_new (row_at key_a empty.agg))
          (latencies_of (λ t. t) (λ t. false) "api" 60 key_a 120 requests))
unfolding aggregate_each aggregate count_in has_key add_to update
rows_exact_example = rows_exact (λ t. t) (λ t. false) "api" 60 key_a 120 requests empty refl
