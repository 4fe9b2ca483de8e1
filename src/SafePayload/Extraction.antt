-- ===== src/SafePayload/Extraction.antt =====
-- What an extraction promises on any payload, and what is left of one that is stripped.
use fastapi_alertengine.Prelude.{
  zero, suc, ◌≤◌, ◌≡◌, ◌⊎◌, inl, inr, refl, ◌∙◌, ap, String, Bool, true, false, Option, none, some,
  arith, ◌↔◌, List, [], ◌∷◌, str_eq, eq_iff, Bool-cases, if◌then◌else◌,
}
use fastapi_alertengine.SafePayload.{
  Number, finite, infinite, nan, ℤ, pos, negsuc, Value, dict, Fields, no_fields, field, get, null,
  truncate, safe_dict, internal_fields, contains, strip_internal_fields, HealthSnapshot, clamp,
  Floated, truth, number, text, list, read_text, unless_nan, floats, refused, overflows, huge,
  zero_number, p95_of, to_float, safe_float, safe_int, snapshot, extract_health,
}

strip_same : (b : Bool) → null ≡ (if b then null else null)
strip_same true = refl
strip_same false = refl

strip_internal_fields-get :
    (fs : Fields) (k : String)
    → get k (strip_internal_fields fs) ≡ (if contains k internal_fields then null else get k fs)
unfolding strip_internal_fields get
strip_internal_fields-get no_fields k = strip_same (contains k internal_fields)
strip_internal_fields-get (field j v fs) k = elim (Bool-cases (str_eq k j)) [
  | inl e ↦ elim (Bool-cases (contains j internal_fields)) [
    | inl c ↦
        let same : contains k internal_fields ≡ true =
          ap (λ x. contains x internal_fields) ((eq_iff k j).0 e) ∙ c in
        rw (c, same) (strip_internal_fields-get fs k ∙ (rw same refl))
    | inr c ↦
        let same : contains k internal_fields ≡ false =
          ap (λ x. contains x internal_fields) ((eq_iff k j).0 e) ∙ c in
        rw (c, e, same) refl
  ]
  | inr e ↦ elim (Bool-cases (contains j internal_fields)) [
    | inl c ↦ rw (c, e) (strip_internal_fields-get fs k)
    | inr c ↦ rw (c, e) (strip_internal_fields-get fs k)
  ]
]

-- the keys that must not leave the orchestrator
abbrev pub secrets : List String
secrets =
    "recovery_webhook" ∷ "internal_trace" ∷ "redis_key" ∷ "claude_prompt" ∷ "approval_token"
    ∷ "baseline_key" ∷ "diagnosis_history_key" ∷ "tenant_secret" ∷ "alert_secret"
    ∷ "twilio_auth_token" ∷ "sent_api_key" ∷ []

abbrev pub IsOneOf : String → List String → Type 0
IsOneOf k [] = ⊥
IsOneOf k (x ∷ xs) = (k ≡ x) ⊎ IsOneOf k xs

contains_iff : (k : String) (xs : List String) → (contains k xs ≡ true) ↔ IsOneOf k xs
unfolding contains
contains_iff k [] = (λ h. cc, λ h. absurd h)
contains_iff k (x ∷ xs) = ground (arith, eq_iff k x, contains_iff k xs)

-- Under a key that is one of the eleven secrets a stripped payload holds nothing, and under any other one what it held.
pub strip_internal_fields_lem :
    (fs : Fields) (k : String)
    → (IsOneOf k secrets × (get k (strip_internal_fields fs) ≡ null))
      ⊎ ((¬ IsOneOf k secrets) × (get k (strip_internal_fields fs) ≡ get k fs))
strip_internal_fields_lem fs k =
    let law = strip_internal_fields-get fs k in
    let named = contains_iff k secrets in
    elim (Bool-cases (contains k internal_fields)) [
      | inl c ↦ inl (named.0 c, law ∙ (rw c refl))
      | inr c ↦ inr (λ h. cc (c, named.1 h), law ∙ (rw c refl))
    ]

clamp_le : (n : ℤ) → clamp n ≤ 100
unfolding clamp
clamp_le (pos n) = ground arith
clamp_le (negsuc n) = omega arith

module _ (float_of : String → Option Number) (str_of : Value → String) where
  -- an infinity, or a text that reads as one
  abbrev pub Infinite : Value → Type 0
  Infinite v = (sign : Bool) × (to_float float_of str_of v ≡ floats (infinite sign))

  -- an int beyond the range of a float
  abbrev pub Huge : Value → Type 0
  Huge v = (sign : Bool) × (v ≡ huge sign)

  abbrev pub score_of : Fields → Value
  score_of raw = get "score" (safe_dict (get "health_score" raw))

  abbrev pub metric_of : String → Fields → Value
  metric_of k raw = get k (safe_dict (get "metrics" raw))

  -- what `p95_of` reads from
  abbrev pub latency_of : Fields → Value
  latency_of raw = p95_of float_of str_of (safe_dict (get "metrics" raw))

  -- The score or the sample size is infinite, or one of the five numbers is beyond the range of a float.
  abbrev pub Unbounded : Value → Type 0
  Unbounded (dict raw) =
      Infinite (score_of raw)
      ⊎ Infinite (metric_of "sample_size" raw)
      ⊎ Huge (score_of raw)
      ⊎ Huge (latency_of raw)
      ⊎ Huge (metric_of "error_rate" raw)
      ⊎ Huge (metric_of "anomaly_score" raw)
      ⊎ Huge (metric_of "sample_size" raw)
  Unbounded v = ⊥

  to_float-Huge : (v : Value) → to_float float_of str_of v ≡ overflows → Huge v
  unfolding to_float
  to_float-Huge (huge sign) h = (sign, refl)
  to_float-Huge null h = cc
  to_float-Huge (truth b) h = cc
  to_float-Huge (number n) h = cc
  to_float-Huge (text t) h = never (float_of t) h
    where
      never : (o : Option Number) → read_text float_of str_of o ≡ overflows → Huge (text t)
      never none h = cc
      never (some n) h = cc
  to_float-Huge (list vs) h = cc
  to_float-Huge (dict fs) h = cc

  or_int_cases :
      (default : ℤ) (v : Value)
      → Infinite v ⊎ Huge v ⊎ ((n : ℤ) × (safe_int float_of str_of default v ≡ some n))
  unfolding safe_int truncate
  or_int_cases default v = by_float (to_float float_of str_of v) refl
    where
      by_float :
          (o : Floated)
          → to_float float_of str_of v ≡ o
          → Infinite v ⊎ Huge v ⊎ ((n : ℤ) × (safe_int float_of str_of default v ≡ some n))
      by_float refused e = inr (inr (default, rw e refl))
      by_float overflows e = inr (inl (to_float-Huge v e))
      by_float (floats (finite false w r)) e = inr (inr (pos w, rw e refl))
      by_float (floats (finite true zero r)) e = inr (inr (pos 0, rw e refl))
      by_float (floats (finite true (suc n) r)) e = inr (inr (negsuc n, rw e refl))
      by_float (floats (infinite sign)) e = inl (sign, e)
      by_float (floats nan) e = inr (inr (default, rw e refl))

  or_number_cases :
      (v : Value) → Huge v ⊎ ((n : Number) × (safe_float float_of str_of zero_number v ≡ some n))
  unfolding safe_float
  or_number_cases v = by_float (to_float float_of str_of v) refl
    where
      by_float :
          (o : Floated)
          → to_float float_of str_of v ≡ o
          → Huge v ⊎ ((n : Number) × (safe_float float_of str_of zero_number v ≡ some n))
      by_float refused e = inr (zero_number, rw e refl)
      by_float overflows e = inl (to_float-Huge v e)
      by_float (floats n) e = inr (unless_nan zero_number n, rw e refl)

  snapshot-some :
      (raw : Fields) (n m : ℤ) (p e a : Number)
      → (s : HealthSnapshot) × (snapshot float_of str_of raw
            (some n)
            (some p)
            (some e)
            (some a)
            (some m)
          ≡ some s)
        × (s.score ≤ 100)
  unfolding snapshot
  snapshot-some raw n m p e a = (_, refl, clamp_le n)

  -- A payload of any shape has a snapshot, with a score of at most 100, where its score and sample size are not infinite and no
  -- number that is read is beyond the range of a float.
  pub extract_health_returns :
      (v : Value)
      → ¬ Unbounded v
      → (s : HealthSnapshot) × (extract_health float_of str_of v ≡ some s) × (s.score ≤ 100)
  unfolding extract_health
  extract_health_returns (dict raw) h = elim (or_int_cases (pos 100) (score_of raw)) [
    | inl x ↦ absurd (h (inl x))
    | inr (inl x) ↦ absurd (h (inr (inr (inl x))))
    | inr (inr (n, e)) ↦ elim (or_int_cases (pos 0) (metric_of "sample_size" raw)) [
      | inl x ↦ absurd (h (inr (inl x)))
      | inr (inl x) ↦ absurd (h (inr (inr (inr (inr (inr (inr x)))))))
      | inr (inr (m, f)) ↦ elim (or_number_cases (latency_of raw)) [
        | inl x ↦ absurd (h (inr (inr (inr (inl x)))))
        | inr (p, g) ↦ elim (or_number_cases (metric_of "error_rate" raw)) [
          | inl x ↦ absurd (h (inr (inr (inr (inr (inl x))))))
          | inr (q, k) ↦ elim (or_number_cases (metric_of "anomaly_score" raw)) [
            | inl x ↦ absurd (h (inr (inr (inr (inr (inr (inl x)))))))
            | inr (a, l) ↦ rw (e, f, g, k, l) (snapshot-some raw n m p q a)
          ]
        ]
      ]
    ]
  ]
  extract_health_returns v h = (_, refl, omega arith)

  Infinite-safe_int :
      (default : ℤ) (v : Value) → Infinite v → safe_int float_of str_of default v ≡ none
  unfolding safe_int truncate
  Infinite-safe_int default v (sign, e) = rw e refl

  Huge-safe_int : (default : ℤ) (v : Value) → Huge v → safe_int float_of str_of default v ≡ none
  unfolding safe_int to_float
  Huge-safe_int default v (sign, e) = rw e refl

  Huge-safe_float :
      (default : Number) (v : Value) → Huge v → safe_float float_of str_of default v ≡ none
  unfolding safe_float to_float
  Huge-safe_float default v (sign, e) = rw e refl

  -- one of the numbers of a snapshot raised
  snapshot-none :
      (raw : Fields) (n : Option ℤ) (p e a : Option Number) (m : Option ℤ)
      → (n ≡ none) ⊎ (p ≡ none) ⊎ (e ≡ none) ⊎ (a ≡ none) ⊎ (m ≡ none)
      → snapshot float_of str_of raw n p e a m ≡ none
  unfolding snapshot
  snapshot-none raw n p e a m h = ground (arith, h)

  -- A score or sample size that is infinite, and a number that is read and is beyond the range of a float, make the extraction
  -- raise an exception.
  pub extract_health_raises : (v : Value) → Unbounded v → extract_health float_of str_of v ≡ none
  unfolding extract_health
  extract_health_raises (dict raw) h = snapshot-none raw _ _ _ _ _ (missing h)
    where
      missing :
          Unbounded (dict raw)
          → (safe_int float_of str_of (pos 100) (score_of raw) ≡ none)
            ⊎ (safe_float float_of str_of zero_number (latency_of raw) ≡ none)
            ⊎ (safe_float float_of str_of zero_number (metric_of "error_rate" raw) ≡ none)
            ⊎ (safe_float float_of str_of zero_number (metric_of "anomaly_score" raw) ≡ none)
            ⊎ (safe_int float_of str_of (pos 0) (metric_of "sample_size" raw) ≡ none)
      missing (inl x) = inl (Infinite-safe_int _ _ x)
      missing (inr (inl x)) = inr (inr (inr (inr (Infinite-safe_int _ _ x))))
      missing (inr (inr (inl x))) = inl (Huge-safe_int _ _ x)
      missing (inr (inr (inr (inl x)))) = inr (inl (Huge-safe_float _ _ x))
      missing (inr (inr (inr (inr (inl x))))) = inr (inr (inl (Huge-safe_float _ _ x)))
      missing (inr (inr (inr (inr (inr (inl x)))))) = inr (inr (inr (inl (Huge-safe_float _ _ x))))
      missing (inr (inr (inr (inr (inr (inr x)))))) = inr (inr (inr (inr (Huge-safe_int _ _ x))))
  extract_health_raises v h = absurd h
