-- ===== src/Engine/Conserved.antt =====
-- Aggregation loses no metric: each is counted in one row, or as dropped.
use fastapi_alertengine.Prelude.{
  ℕ, ◌+◌, ◌≤◌, ◌≡◌, refl, inl, inr, String, Bool, true, List, [], ◌∷◌, ◌++◌, arith, ltb, ltb→lt,
  or_default, length, length-append, Bool-cases,
}
use fastapi_alertengine.Engine.Queue.{Metric}
use fastapi_alertengine.Engine.Aggregate.{
  Fields, Key, Row, Aggregates, key_eq, add_to, new_row, has_key, update, max_agg_keys, count_in,
  aggregate, aggregate_each, aggregate_batch, bucket_of, closed, unclosed, flush_aggregates,
  flush_all_aggregates, Event, batch, flush, flush_all, happen, run, empty,
}

-- the number of metrics in some rows
abbrev pub counted : List (Key × Row) → ℕ
counted [] = 0
counted ((k, row) ∷ rows) = row.count + counted rows

counted-append : (xs ys : List (Key × Row)) → counted (xs ++ ys) ≡ counted xs + counted ys
counted-append [] ys = omega arith
counted-append ((k, row) ∷ xs) ys = omega (arith, counted-append xs ys)

counted-update :
    (k : Key) (latency : ℕ) (rows : List (Key × Row))
    → has_key k rows ≡ true
    → counted (update k latency rows) ≡ counted rows + 1
unfolding has_key update add_to
counted-update k latency [] h = cc
counted-update k latency ((j, row) ∷ rows) h = elim (Bool-cases (key_eq k j)) [
  | inl e ↦ rw e (omega arith)
  | inr e ↦ rw e (omega (arith, counted-update k latency rows (rw e at h)))
]

length-update :
    (k : Key) (latency : ℕ) (rows : List (Key × Row)) → length (update k latency rows) ≡ length rows
unfolding update
length-update k latency [] = refl
length-update k latency ((j, row) ∷ rows) = elim (Bool-cases (key_eq k j)) [
  | inl e ↦ rw e refl
  | inr e ↦ rw e (omega (arith, length-update k latency rows))
]

-- the metrics that the rows and the counter of dropped ones account for
abbrev pub held : Aggregates → ℕ
held s = counted s.agg + s.dropped_agg_keys

-- the bound of the rows
abbrev pub Fits : Aggregates → Type 0
Fits s = length s.agg ≤ max_agg_keys

count_in_lem :
    (k : Key) (latency : ℕ) (s : Aggregates)
    → Fits s
    → (held (count_in k latency s) ≡ held s + 1) × Fits (count_in k latency s)
unfolding count_in add_to
count_in_lem k latency s fits = elim (Bool-cases (has_key k s.agg)) [
  | inl e ↦
      rw e
        (omega (arith, counted-update k latency s.agg e), rw (length-update k latency s.agg) fits)
  | inr e ↦ rw e (elim (Bool-cases (ltb (length s.agg) max_agg_keys)) [
    | inl q ↦ rw q (
      omega (arith, counted-append s.agg ((k, add_to new_row latency) ∷ [])),
      omega (
        arith,
        length-append s.agg ((k, add_to new_row latency) ∷ []),
        ltb→lt (length s.agg) max_agg_keys q,
      ),
    )
    | inr q ↦ rw q (omega arith, fits)
  ])
]

counted-closed :
    (bucket : ℕ) (rows : List (Key × Row))
    → (counted (closed bucket rows) + counted (unclosed bucket rows) ≡ counted rows)
      × (length (unclosed bucket rows) ≤ length rows)
unfolding closed unclosed
counted-closed bucket [] = (refl, omega arith)
counted-closed bucket ((k, row) ∷ rows) =
    let (same, fewer) = counted-closed bucket rows in
    elim (Bool-cases (ltb k.bucket bucket)) [
      | inl e ↦ rw e (omega (arith, same), omega (arith, fewer))
      | inr e ↦ rw e (omega (arith, same), omega (arith, fewer))
    ]

module _ (upper : String → String) (has_webhook : String → Bool) (service : String)
    (bucket_seconds : ℕ) where
  aggregate_each_lem :
      (bucket : ℕ) (ms : List (Metric Fields)) (s : Aggregates)
      → Fits s
      → let s' = aggregate_each upper has_webhook service bucket_seconds bucket ms s in
        (held s' ≡ held s + length ms) × Fits s'
  unfolding aggregate_each aggregate
  aggregate_each_lem bucket [] s fits = (omega arith, fits)
  aggregate_each_lem bucket (m ∷ ms) s fits =
      let (one, fits₁) =
        count_in_lem _ (or_default m.rest.latency_ms 0) (record s { recent = _ }) fits in
      let (rest, fits₂) = aggregate_each_lem bucket ms _ fits₁ in (omega (arith, one, rest), fits₂)

  -- the metrics of the batches among some events
  abbrev pub given : List Event → ℕ
  given [] = 0
  given (batch now ms ∷ es) = length ms + given es
  given (e ∷ es) = given es

  happen_lem :
      (e : Event) (s : Aggregates)
      → Fits s
      → let (out, s') = happen upper has_webhook service bucket_seconds e s in
        (counted out + held s' ≡ held s + given (e ∷ [])) × Fits s'
  unfolding happen aggregate_batch flush_aggregates flush_all_aggregates
  happen_lem (batch now ms) s fits =
      let (sum, fits') =
        aggregate_each_lem (bucket_of upper has_webhook service bucket_seconds now) ms s fits in
      (omega (arith, sum), fits')
  happen_lem (flush now) s fits =
      let (sum, fewer) =
        counted-closed (bucket_of upper has_webhook service bucket_seconds now) s.agg in
      (omega (arith, sum), omega (arith, fewer, fits))
  happen_lem flush_all s fits = (omega arith, omega arith)

  given_cons : (e : Event) (es : List Event) → given (e ∷ es) ≡ given (e ∷ []) + given es
  given_cons (batch now ms) es = omega arith
  given_cons (flush now) es = omega arith
  given_cons flush_all es = omega arith

  run_lem :
      (es : List Event) (s : Aggregates)
      → Fits s
      → let (out, s') = run upper has_webhook service bucket_seconds es s in
        (counted out + held s' ≡ held s + given es) × Fits s'
  unfolding run
  run_lem [] s fits = (omega arith, fits)
  run_lem (e ∷ es) s fits =
      let (out, s₁) = happen upper has_webhook service bucket_seconds e s in
      let (now, fits₁) = happen_lem e s fits in
      let (later, fits₂) = run_lem es s₁ fits₁ in
      let (outs, s₂) = run upper has_webhook service bucket_seconds es s₁ in
      (omega (arith, now, later, given_cons e es, counted-append out outs), fits₂)

  -- Through any batches and flushes from a start with no rows, each metric of the batches is counted in a row that was taken
  -- out by a flush, in a row that is there, or in the number of dropped ones, once; and the rows stay within their bound.
  pub aggregates_conserved :
      (es : List Event)
      → let (out, s) = run upper has_webhook service bucket_seconds es empty in
        (counted out + (counted s.agg + s.dropped_agg_keys) ≡ given es)
        × (length s.agg ≤ max_agg_keys)
  aggregates_conserved es =
      let (sum, fits) = run_lem es empty (omega arith) in (omega (arith, sum), fits)
