-- ===== src/Engine/Aggregate.antt =====
-- fastapi_alertengine/engine.py: `_aggregate_batch`, `_flush_aggregates` and `flush_all_aggregates`.
--
-- A latency is a whole number of a fixed unit, so that sums are exact. `str.upper` and the test for a
-- part of a text are parameters.
use fastapi_alertengine.Prelude.{
  ℕ, ◌+◌, ◌*◌, ◌/◌, String, Bool, true, false, Option, none, some, List, [], ◌∷◌, ◌++◌, str_eq, ltb,
  ◌==◌, ◌&&◌, or_default, length, if◌then◌else◌,
}
use fastapi_alertengine.Engine.Queue.{Metric}

-- `MAX_AGG_KEYS`, and the bound of `_recent`
abbrev pub max_agg_keys : ℕ
max_agg_keys = 50_000

abbrev pub recent_size : ℕ
recent_size = 200

-- The other fields of a metric that are read.
pub record Fields : Type 0 where
  pub route_template : Option String
  pub path : Option String
  pub method : Option String
  pub status_code : Option ℕ
  pub latency_ms : Option ℕ

-- The key of a row; the status group `5xx` is its digit.
pub record Key : Type 0 where
  pub service : String
  pub bucket : ℕ
  pub path : String
  pub method : String
  pub group : ℕ

pub record Row : Type 0 where
  pub count : ℕ
  pub total : ℕ
  pub largest : ℕ

pub record Sample : Type 0 where
  pub latency_ms : ℕ
  pub is_webhook : Bool
  pub status_code : ℕ
  pub route : String

pub record Aggregates : Type 0 where
  pub agg : List (Key × Row)
  pub dropped_agg_keys : ℕ
  pub recent : List Sample

abbrev pub key_eq : Key → Key → Bool
key_eq a b =
    str_eq a.service b.service
    && (a.bucket == b.bucket)
    && str_eq a.path b.path
    && str_eq a.method b.method
    && (a.group == b.group)

-- `metric.get("route_template") or metric.get("path", "")`
abbrev pub path_or : Option String → String → String
path_or none p = p
path_or (some r) p = if str_eq r "" then p else r

abbrev pub larger : ℕ → ℕ → ℕ
larger a b = if ltb a b then b else a

unfoldable pub add_to : Row → ℕ → Row
add_to row latency = record {
  count = row.count + 1;
  total = row.total + latency;
  largest = larger row.largest latency;
}

abbrev pub new_row : Row
new_row = record { count = 0; total = 0; largest = 0 }

-- `key in self._agg`, and the update of its row
unfoldable pub has_key : Key → List (Key × Row) → Bool
has_key k [] = false
has_key k ((j, row) ∷ rows) = let rest = has_key k rows in if key_eq k j then true else rest

unfoldable pub update : Key → ℕ → List (Key × Row) → List (Key × Row)
unfolding add_to
update k latency [] = []
update k latency ((j, row) ∷ rows) =
    let rest = update k latency rows in
    if key_eq k j then (j, add_to row latency) ∷ rows else (j, row) ∷ rest

-- `deque.append` with a bound: the oldest goes
abbrev pub drop_first {ℓ} : {A : Type ℓ} → List A → List A
drop_first [] = []
drop_first (x ∷ xs) = xs

abbrev pub append_within {ℓ} : {A : Type ℓ} → ℕ → List A → A → List A
append_within n xs x = if ltb (length xs) n then xs ++ x ∷ [] else drop_first xs ++ x ∷ []

-- the rows after a metric with a key
unfoldable pub count_in : Key → ℕ → Aggregates → Aggregates
unfolding has_key update add_to
count_in k latency s =
    if has_key k s.agg
    then record s { agg = update k latency s.agg }
    else if ltb (length s.agg) max_agg_keys
    then record s { agg = s.agg ++ (k, add_to new_row latency) ∷ [] }
    else record s { dropped_agg_keys = s.dropped_agg_keys + 1 }

-- the rows of buckets before this one, and the others
unfoldable pub closed : ℕ → List (Key × Row) → List (Key × Row)
closed bucket [] = []
closed bucket ((k, row) ∷ rows) =
    let rest = closed bucket rows in if ltb k.bucket bucket then (k, row) ∷ rest else rest

unfoldable pub unclosed : ℕ → List (Key × Row) → List (Key × Row)
unclosed bucket [] = []
unclosed bucket ((k, row) ∷ rows) =
    let rest = unclosed bucket rows in if ltb k.bucket bucket then rest else (k, row) ∷ rest

unfoldable pub flush_all_aggregates : Aggregates → List (Key × Row) × Aggregates
flush_all_aggregates s = (s.agg, record s { agg = [] })

-- A batch, or one of the flushes.
pub data Event : Type 0 where
  batch : ℕ → List (Metric Fields) → Event
  flush : ℕ → Event
  flush_all : Event

module _ (upper : String → String) (has_webhook : String → Bool) (service : String)
    (bucket_seconds : ℕ) where
  abbrev pub bucket_of : ℕ → ℕ
  bucket_of now = now / bucket_seconds * bucket_seconds

  abbrev pub path_of : Metric Fields → String
  path_of m = path_or m.rest.route_template (or_default m.rest.path "")

  abbrev pub key_of : ℕ → Metric Fields → Key
  key_of bucket m = record {
    service = or_default m.service_name service;
    bucket = bucket;
    path = path_of m;
    method = upper (or_default m.rest.method "");
    group = or_default m.rest.status_code 0 / 100;
  }

  abbrev pub sample_of : Metric Fields → Sample
  sample_of m = record {
    latency_ms = or_default m.rest.latency_ms 0;
    is_webhook = has_webhook (path_of m);
    status_code = or_default m.rest.status_code 0;
    route = path_of m;
  }

  unfoldable pub aggregate : ℕ → Metric Fields → Aggregates → Aggregates
  unfolding count_in
  aggregate bucket m s =
      count_in (key_of bucket m) (or_default m.rest.latency_ms 0)
        (record s { recent = append_within recent_size s.recent (sample_of m) })

  unfoldable pub aggregate_each : ℕ → List (Metric Fields) → Aggregates → Aggregates
  unfolding aggregate
  aggregate_each bucket [] s = s
  aggregate_each bucket (m ∷ ms) s = aggregate_each bucket ms (aggregate bucket m s)

  -- `now` is `int(time.time())`
  unfoldable pub aggregate_batch : ℕ → List (Metric Fields) → Aggregates → Aggregates
  aggregate_batch now ms s = aggregate_each (bucket_of now) ms s

  -- what is taken out to be written, and what stays
  unfoldable pub flush_aggregates : ℕ → Aggregates → List (Key × Row) × Aggregates
  unfolding closed unclosed
  flush_aggregates now s =
      (closed (bucket_of now) s.agg, record s { agg = unclosed (bucket_of now) s.agg })

  unfoldable pub happen : Event → Aggregates → List (Key × Row) × Aggregates
  happen (batch now ms) s = ([], aggregate_batch now ms s)
  happen (flush now) s = flush_aggregates now s
  happen flush_all s = flush_all_aggregates s

  -- the rows that are taken out over some events, and the state after them
  unfoldable pub run : List Event → Aggregates → List (Key × Row) × Aggregates
  run [] s = ([], s)
  run (e ∷ es) s = let (out, s₁) = happen e s in let (outs, s₂) = run es s₁ in (out ++ outs, s₂)

abbrev pub empty : Aggregates
empty = record { agg = []; dropped_agg_keys = 0; recent = [] }
