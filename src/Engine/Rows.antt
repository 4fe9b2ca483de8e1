-- ===== src/Engine/Rows.antt =====
-- What a row holds: the metrics of its key, and no others.
use fastapi_alertengine.Prelude.{
  leb, ◌+◌, ℕ, ◌≡◌, ◌⊎◌, refl, sym, ap, ◌∙◌, inl, inr, String, Bool, true, false, Option, none,
  some, List, [], ◌∷◌, ◌++◌, arith, eq_iff, ltb, ◌==◌, ◌&&◌, or_default, length, Bool-cases,
  if◌then◌else◌,
}
use fastapi_alertengine.Engine.Queue.{Metric}
use fastapi_alertengine.Engine.Aggregate.{
  larger, Fields, Key, Row, Aggregates, key_eq, add_to, new_row, has_key, update, max_agg_keys,
  count_in, aggregate, aggregate_each, key_of, sample_of, append_within, recent_size,
}

eq_of_numbers : (a b : ℕ) → (a == b) ≡ true → a ≡ b
eq_of_numbers a b h = ground arith

and_true : (a b : Bool) → (a && b) ≡ true → (a ≡ true) × (b ≡ true)
and_true true true h = (refl, refl)
and_true true false h = cc
and_true false b h = cc

key_eq_refl : (k : Key) → key_eq k k ≡ true
key_eq_refl k =
    rw
      (
        (eq_iff k.service k.service).1 refl,
        (eq_iff k.path k.path).1 refl,
        (eq_iff k.method k.method).1 refl,
      )
      (ground arith)

key_eq_lem : (a b : Key) → key_eq a b ≡ true → a ≡ b
key_eq_lem a b h =
    let s : a.service ≡ b.service = (eq_iff a.service b.service).0 (ground (arith, h)) in
    let t : a.bucket ≡ b.bucket = ground (arith, h) in
    let p : a.path ≡ b.path = (eq_iff a.path b.path).0 (ground (arith, h)) in
    let m : a.method ≡ b.method = (eq_iff a.method b.method).0 (ground (arith, h)) in
    let g : a.group ≡ b.group = ground (arith, h) in
    λ i. record { service = s i; bucket = t i; path = p i; method = m i; group = g i }

-- a key is another one's equal for every third or for none
key_eq_same : (k a b : Key) → key_eq a b ≡ true → key_eq k a ≡ key_eq k b
key_eq_same k a b h = ap (key_eq k) (key_eq_lem a b h)

-- the row of a key, if it has one
abbrev pub row_at : Key → List (Key × Row) → Option Row
row_at k [] = none
row_at k ((j, row) ∷ rows) = let rest = row_at k rows in if key_eq k j then some row else rest

abbrev pub row_or_new : Option Row → Row
row_or_new o = or_default o new_row

row_at-update_self :
    (k : Key) (latency : ℕ) (rows : List (Key × Row))
    → has_key k rows ≡ true
    → row_at k (update k latency rows) ≡ some (add_to (row_or_new (row_at k rows)) latency)
unfolding update has_key
row_at-update_self k latency [] h = cc
row_at-update_self k latency ((j, row) ∷ rows) h = elim (Bool-cases (key_eq k j)) [
  | inl e ↦ rw (e, e) refl
  | inr e ↦ rw (e, e) (row_at-update_self k latency rows (rw e at h))
]

row_at-update_other :
    (k j : Key) (latency : ℕ) (rows : List (Key × Row))
    → key_eq k j ≡ false
    → row_at k (update j latency rows) ≡ row_at k rows
unfolding update
row_at-update_other k j latency [] h = refl
row_at-update_other k j latency ((i, row) ∷ rows) h = elim (Bool-cases (key_eq j i)) [
  | inl e ↦ rw e (let q : key_eq k i ≡ false = sym (key_eq_same k j i e) ∙ h in rw q refl)
  | inr e ↦
      rw e (ap (λ r. if key_eq k i then some row else r) (row_at-update_other k j latency rows h))
]

row_at-append :
    (k j : Key) (row : Row) (rows : List (Key × Row))
    → row_at k (rows ++ (j, row) ∷ [])
      ≡ (if has_key k rows then row_at k rows else if key_eq k j then some row else none)
unfolding has_key
row_at-append k j row [] = refl
row_at-append k j row ((i, r) ∷ rows) = elim (Bool-cases (key_eq k i)) [
  | inl e ↦ rw e refl
  | inr e ↦ rw e (row_at-append k j row rows)
]

row_at-none : (k : Key) (rows : List (Key × Row)) → has_key k rows ≡ false → row_at k rows ≡ none
unfolding has_key
row_at-none k [] h = refl
row_at-none k ((i, r) ∷ rows) h = elim (Bool-cases (key_eq k i)) [
  | inl e ↦ cc (rw e at h)
  | inr e ↦ rw e (row_at-none k rows (rw e at h))
]

has_key-update :
    (k j : Key) (latency : ℕ) (rows : List (Key × Row))
    → has_key k (update j latency rows) ≡ has_key k rows
unfolding has_key update
has_key-update k j latency [] = refl
has_key-update k j latency ((i, row) ∷ rows) = elim (Bool-cases (key_eq j i)) [
  | inl e ↦ rw e refl
  | inr e ↦ rw e (ap (λ r. if key_eq k i then true else r) (has_key-update k j latency rows))
]

length-update :
    (j : Key) (latency : ℕ) (rows : List (Key × Row)) → length (update j latency rows) ≡ length rows
unfolding update
length-update j latency [] = refl
length-update j latency ((i, row) ∷ rows) = elim (Bool-cases (key_eq j i)) [
  | inl e ↦ rw e refl
  | inr e ↦ rw e (omega (arith, length-update j latency rows))
]

-- the rows are full and the key has none
abbrev IsShut : Key → Aggregates → Type 0
IsShut k s = (has_key k s.agg ≡ false) × (ltb (length s.agg) max_agg_keys ≡ false)

count_in-IsShut :
    (k j : Key) (latency : ℕ) (s : Aggregates) → IsShut k s → IsShut k (count_in j latency s)
unfolding count_in
count_in-IsShut k j latency s (absent, full) = elim (Bool-cases (has_key j s.agg)) [
  | inl e ↦
      rw e (has_key-update k j latency s.agg ∙ absent, rw (length-update j latency s.agg) full)
  | inr e ↦ rw (e, full) (absent, full)
]

-- the row of a key after one more metric, of this key or of another
abbrev pub after : Bool → ℕ → Option Row → Option Row
after true latency o = some (add_to (row_or_new o) latency)
after false latency o = o

count_in_self :
    (k : Key) (latency : ℕ) (s : Aggregates)
    → (row_at k (count_in k latency s).agg ≡ some (add_to (row_or_new (row_at k s.agg)) latency))
      ⊎ IsShut k (count_in k latency s)
unfolding count_in
count_in_self k latency s = elim (Bool-cases (has_key k s.agg)) [
  | inl e ↦ rw e (inl (row_at-update_self k latency s.agg e))
  | inr e ↦ rw e (elim (Bool-cases (ltb (length s.agg) max_agg_keys)) [
    | inl q ↦ rw q (
        inl (
          row_at-append k k (add_to new_row latency) s.agg
          ∙ (rw (e, key_eq_refl k)
              (ap (λ o. some (add_to (row_or_new o) latency)) (sym (row_at-none k s.agg e))))))
    | inr q ↦ rw q (inr (e, q))
  ])
]

count_in_other :
    (k j : Key) (latency : ℕ) (s : Aggregates)
    → key_eq k j ≡ false
    → row_at k (count_in j latency s).agg ≡ row_at k s.agg
unfolding count_in
count_in_other k j latency s h = elim (Bool-cases (has_key j s.agg)) [
  | inl e ↦ rw e (row_at-update_other k j latency s.agg h)
  | inr e ↦ rw e (elim (Bool-cases (ltb (length s.agg) max_agg_keys)) [
    | inl q ↦
        rw q (row_at-append k j (add_to new_row latency) s.agg ∙ unfound (has_key k s.agg) refl)
    | inr q ↦ rw q refl
  ])
]
  where
    unfound :
        (b : Bool)
        → has_key k s.agg ≡ b
        → (if b then row_at k s.agg else if key_eq k j then some (add_to new_row latency) else none)
          ≡ row_at k s.agg
    unfound true e = refl
    unfound false e = rw h (sym (row_at-none k s.agg e))

count_in-row_at :
    (k j : Key) (latency : ℕ) (s : Aggregates)
    → (row_at k (count_in j latency s).agg ≡ after (key_eq k j) latency (row_at k s.agg))
      ⊎ IsShut k (count_in j latency s)
count_in-row_at k j latency s = elim (Bool-cases (key_eq k j)) [
  | inl e ↦ rw e (same (key_eq_lem k j e))
  | inr e ↦ rw e (inl (count_in_other k j latency s e))
]
  where
    same :
        k ≡ j
        → (row_at k (count_in j latency s).agg
            ≡ some (add_to (row_or_new (row_at k s.agg)) latency))
          ⊎ IsShut k (count_in j latency s)
    same p = rw p (count_in_self j latency s)

abbrev pub sum : List ℕ → ℕ
sum [] = 0
sum (n ∷ ns) = n + sum ns

-- the largest of a number and some others
abbrev pub maximum : ℕ → List ℕ → ℕ
maximum a [] = a
maximum a (n ∷ ns) = maximum (if leb a n then n else a) ns

-- a row with some more latencies
abbrev pub summed : Row → List ℕ → Row
summed row ns = record {
  count = row.count + length ns;
  total = row.total + sum ns;
  largest = maximum row.largest ns;
}

summed_nil : (row : Row) → row ≡ summed row []
summed_nil row =
    let c : row.count ≡ row.count + 0 = omega arith in
    let t : row.total ≡ row.total + 0 = omega arith in
    λ i. record { count = c i; total = t i; largest = row.largest }

larger_max : (a n : ℕ) → larger a n ≡ (if leb a n then n else a)
larger_max a n = ground arith

summed_cons : (row : Row) (n : ℕ) (ns : List ℕ) → summed (add_to row n) ns ≡ summed row (n ∷ ns)
unfolding add_to
summed_cons row n ns =
    let c : (row.count + 1) + length ns ≡ row.count + length (n ∷ ns) = omega arith in
    let t : (row.total + n) + sum ns ≡ row.total + sum (n ∷ ns) = omega arith in
    let m : maximum (larger row.largest n) ns ≡ maximum row.largest (n ∷ ns) =
      ap (λ x. maximum x ns) (larger_max row.largest n) in
    λ i. record { count = c i; total = t i; largest = m i }

has_row : (k : Key) (rows : List (Key × Row)) → has_key k rows ≡ true → row_at k rows ≡ none → ⊥
unfolding has_key
has_row k [] h e = cc h
has_row k ((i, r) ∷ rows) h e = elim (Bool-cases (key_eq k i)) [
  | inl q ↦ cc (rw q at e)
  | inr q ↦ has_row k rows (rw q at h) (rw q at e)
]

module _ (upper : String → String) (has_webhook : String → Bool) (service : String)
    (bucket_seconds : ℕ) where
  -- the metrics of a key, added up one by one
  abbrev pub tally : Key → ℕ → List (Metric Fields) → Option Row → Option Row
  tally k bucket [] o = o
  tally k bucket (m ∷ ms) o = tally k bucket ms (
      after (key_eq k (key_of upper has_webhook service bucket_seconds bucket m))
        (or_default m.rest.latency_ms 0) o)

  IsShut-stays :
      (k : Key) (bucket : ℕ) (ms : List (Metric Fields)) (s : Aggregates)
      → IsShut k s
      → IsShut k (aggregate_each upper has_webhook service bucket_seconds bucket ms s)
  unfolding aggregate_each aggregate
  IsShut-stays k bucket [] s h = h
  IsShut-stays k bucket (m ∷ ms) s h =
      IsShut-stays k bucket ms _
        (count_in-IsShut k _ (or_default m.rest.latency_ms 0) (record s { recent = _ }) h)

  rows_tallied :
      (k : Key) (bucket : ℕ) (ms : List (Metric Fields)) (s : Aggregates)
      → has_key k (aggregate_each upper has_webhook service bucket_seconds bucket ms s).agg ≡ true
      → row_at k (aggregate_each upper has_webhook service bucket_seconds bucket ms s).agg
        ≡ tally k bucket ms (row_at k s.agg)
  unfolding aggregate_each aggregate
  rows_tallied k bucket [] s h = refl
  rows_tallied k bucket (m ∷ ms) s h =
      let j = key_of upper has_webhook service bucket_seconds bucket m in
      let s' : Aggregates = record s {
        recent =
            append_within recent_size s.recent
              (sample_of upper has_webhook service bucket_seconds m);
      } in
      elim (count_in-row_at k j (or_default m.rest.latency_ms 0) s') [
        | inl e ↦ rows_tallied k bucket ms _ h ∙ ap (tally k bucket ms) e
        | inr shut ↦ absurd (
            cc (
              h,
              (IsShut-stays k bucket ms (count_in j (or_default m.rest.latency_ms 0) s') shut).0,
            ))
      ]

  -- the latencies of the metrics with a key
  abbrev pub latencies_of : Key → ℕ → List (Metric Fields) → List ℕ
  latencies_of k bucket [] = []
  latencies_of k bucket (m ∷ ms) =
      let rest = latencies_of k bucket ms in
      if key_eq k (key_of upper has_webhook service bucket_seconds bucket m)
      then or_default m.rest.latency_ms 0 ∷ rest
      else rest

  tally-some :
      (k : Key) (bucket : ℕ) (ms : List (Metric Fields)) (row : Row)
      → tally k bucket ms (some row) ≡ some (summed row (latencies_of k bucket ms))
  tally-some k bucket [] row = ap some (summed_nil row)
  tally-some k bucket (m ∷ ms) row =
      elim (Bool-cases (key_eq k (key_of upper has_webhook service bucket_seconds bucket m))) [
        | inl e ↦ rw e (
            tally-some k bucket ms _
            ∙ ap some (summed_cons row (or_default m.rest.latency_ms 0) (latencies_of k bucket ms)))
        | inr e ↦ rw e (tally-some k bucket ms row)
      ]

  tally-none :
      (k : Key) (bucket : ℕ) (ms : List (Metric Fields))
      → (tally k bucket ms none ≡ none)
        ⊎ (tally k bucket ms none ≡ some (summed new_row (latencies_of k bucket ms)))
  tally-none k bucket [] = inl refl
  tally-none k bucket (m ∷ ms) =
      elim (Bool-cases (key_eq k (key_of upper has_webhook service bucket_seconds bucket m))) [
        | inl e ↦ rw e (
            inr (
              tally-some k bucket ms _
              ∙ ap some (
                  summed_cons new_row (or_default m.rest.latency_ms 0) (latencies_of k bucket ms))))
        | inr e ↦ rw e (tally-none k bucket ms)
      ]

  -- Where a key has a row after a batch, the row is the one it had before, or one of zeros, with the number, the sum and
  -- the maximum of the latencies of the batch's metrics with the key, also where other keys were dropped.
  pub rows_exact :
      (k : Key) (bucket : ℕ) (ms : List (Metric Fields)) (s : Aggregates)
      → has_key k (aggregate_each upper has_webhook service bucket_seconds bucket ms s).agg ≡ true
      → row_at k (aggregate_each upper has_webhook service bucket_seconds bucket ms s).agg
        ≡ some (summed (row_or_new (row_at k s.agg)) (latencies_of k bucket ms))
  rows_exact k bucket ms s h = by_row (row_at k s.agg) (rows_tallied k bucket ms s h)
    where
      by_row :
          (o : Option Row)
          → row_at k (aggregate_each upper has_webhook service bucket_seconds bucket ms s).agg
            ≡ tally k bucket ms o
          → row_at k (aggregate_each upper has_webhook service bucket_seconds bucket ms s).agg
            ≡ some (summed (row_or_new o) (latencies_of k bucket ms))
      by_row (some row) e = e ∙ tally-some k bucket ms row
      by_row none e = elim (tally-none k bucket ms) [
        | inl q ↦ absurd (has_row k _ h (e ∙ q))
        | inr q ↦ e ∙ q
      ]
