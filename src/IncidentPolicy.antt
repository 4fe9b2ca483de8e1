-- ===== src/IncidentPolicy.antt =====
-- orchestrator/incident_policy.py: the thresholds of the recovery and validation decisions.
--
-- Scores, rates and confidences are floats in the source. Here they are whole numbers of millionths,
-- and the code only compares them.
use fastapi_alertengine.Prelude.{ℕ, ◌*◌, Bool, ◌&&◌, ltb}

-- one, in millionths
abbrev pub unit : ℕ
unit = 1_000_000

-- `POLICY`, read from the environment.
pub record Policy : Type 0 where
  pub recover_score : ℕ
  pub recover_error_rate : ℕ
  pub validate_score : ℕ
  pub validate_error_rate : ℕ
  pub suppress_confidence : ℕ
  pub alert_score : ℕ
  pub council_divergence : ℕ

-- `POLICY` where no variable of the environment is set.
abbrev pub default_policy : Policy
default_policy = record {
  recover_score = 70 * unit;
  recover_error_rate = 50_000;
  validate_score = 40 * unit;
  validate_error_rate = 200_000;
  suppress_confidence = 600_000;
  alert_score = 70 * unit;
  council_divergence = 600_000;
}

unfoldable pub should_recover : Policy → ℕ → ℕ → Bool
should_recover p score error_rate = ltb p.recover_score score && ltb error_rate p.recover_error_rate

unfoldable pub should_validate : Policy → ℕ → ℕ → Bool
should_validate p score error_rate =
    ltb score p.validate_score && ltb p.validate_error_rate error_rate

unfoldable pub should_suppress : Policy → ℕ → Bool
should_suppress p confidence = ltb confidence p.suppress_confidence

unfoldable pub should_alert : Policy → ℕ → ℕ → Bool
should_alert p score error_rate = ltb score p.alert_score
