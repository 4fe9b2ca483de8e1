-- ===== src/SafePayload/Examples.antt =====
-- The theorems about safe payloads at concrete ones.
use fastapi_alertengine.Prelude.{◌⊎◌, String, ◌≤◌, ◌≡◌, refl, false, Option, none, some, inl, inr}
use fastapi_alertengine.SafePayload.{
  is_false, Number, finite, infinite, Value, null, number, text, dict, Fields, no_fields, field,
  get, to_float, safe_dict, strip_internal_fields, HealthSnapshot, extract_health,
}
use fastapi_alertengine.SafePayload.Extraction.{
  secrets, IsOneOf, Unbounded, strip_internal_fields_lem, extract_health_returns,
  extract_health_raises,
}

-- a reader that knows no number, and one text for all values
abbrev unread : String → Option Number
unread s = none

abbrev shown : Value → String
shown v = "value"

abbrev report : Number → Value
report score = dict (
    field "health_score"
      (dict (field "score" (number score) (field "status" (text "degraded") no_fields)))
      (field "tenant_secret" (text "s3cret") no_fields))

abbrev secret : Fields
secret = field "tenant_secret" (text "s3cret") (field "status" (text "ok") no_fields)

strip_internal_fields_lem_example :
    (IsOneOf "tenant_secret" secrets × (get "tenant_secret" (strip_internal_fields secret) ≡ null))
    ⊎ ((¬ IsOneOf "tenant_secret" secrets)
        × (get "tenant_secret" (strip_internal_fields secret) ≡ get "tenant_secret" secret))
strip_internal_fields_lem_example = strip_internal_fields_lem secret "tenant_secret"

bounded : ¬ Unbounded unread shown (report (finite false 250 0))
unfolding get safe_dict to_float is_false
bounded (inl (sign, e)) = cc
bounded (inr (inl (sign, e))) = cc
bounded (inr (inr (inl (sign, e)))) = cc
bounded (inr (inr (inr (inl (sign, e))))) = cc
bounded (inr (inr (inr (inr (inl (sign, e)))))) = cc
bounded (inr (inr (inr (inr (inr (inl (sign, e))))))) = cc
bounded (inr (inr (inr (inr (inr (inr (sign, e))))))) = cc

extract_health_returns_example :
    (s : HealthSnapshot) × (extract_health unread shown (report (finite false 250 0)) ≡ some s)
    × (s.score ≤ 100)
extract_health_returns_example =
    extract_health_returns unread shown (report (finite false 250 0)) bounded

extract_health_raises_example : extract_health unread shown (report (infinite false)) ≡ none
unfolding get safe_dict to_float
extract_health_raises_example =
    extract_health_raises unread shown (report (infinite false)) (inl (false, refl))
