-- ===== src/Council/Examples.antt =====
-- The theorems about the council at concrete answers.
use fastapi_alertengine.Prelude.{◌≡◌, ◌↔◌, ◌⊎◌, Option, none, some}
use fastapi_alertengine.Council.{Diagnosis, Verdict, validate, verdict_on}
use fastapi_alertengine.Council.Verdicts.{IsConfident, validate_iff}

abbrev database : Diagnosis
database = record {
  category = some "database";
  confidence = some 800_000;
  root_cause = some "slow query";
}

abbrev network : Diagnosis
network = record {
  category = some "network";
  confidence = some 300_000;
  root_cause = some "packet loss";
}

abbrev verdict : Option Diagnosis → Option Diagnosis → Verdict
verdict a b = verdict_on (λ a b. "disagree") (λ a. "agree") a b

validate_iff_example :
    ((verdict (some database) none).action ≡ validate)
    ↔ (IsConfident (some database) ⊎ IsConfident none)
unfolding verdict_on
validate_iff_example = validate_iff (λ a b. "disagree") (λ a. "agree") (some database) none
