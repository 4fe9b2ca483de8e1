-- ===== src/Council.antt =====
-- orchestrator/diagnostic_council.py: the verdict on the answers of two models.
--
-- An answer is none where the call failed or gave nothing. The two message formatters and the verdict of
-- the single model are parameters; confidences are whole millionths.
pub mod Verdicts
mod Examples
use Prim.Native.String.{◌++◌ as append}
use fastapi_alertengine.Prelude.{
  ℕ, String, Bool, true, false, Option, none, some, str_eq, or_default, ltb, leb, ◌&&◌, ◌||◌,
  if◌then◌else◌,
}

pub record Diagnosis : Type 0 where
  pub category : Option String
  pub confidence : Option ℕ
  pub root_cause : Option String

pub data Mode : Type 0 where
  consensus dissent fallback : Mode

pub data Action : Type 0 where
  validate suppress : Action

pub record Verdict : Type 0 where
  pub mode : Mode
  pub action : Action
  pub whatsapp_message : String
  pub confidence : ℕ
  pub reason : String
  pub diagnosis_a : Option Diagnosis
  pub diagnosis_b : Option Diagnosis
  pub diverged : Bool

abbrev pub half : ℕ
half = 500_000

abbrev pub three_fifths : ℕ
three_fifths = 600_000

abbrev pub confidence_of : Diagnosis → ℕ
confidence_of d = or_default d.confidence 0

abbrev pub category_of : Diagnosis → String
category_of d = or_default d.category "unknown"

unfoldable pub models_diverge : Diagnosis → Diagnosis → Bool
models_diverge a b =
    if str_eq (category_of a) (category_of b)
    then false
    else if ltb (confidence_of a) half && ltb (confidence_of b) half
    then false
    else if ltb three_fifths (confidence_of a) || ltb three_fifths (confidence_of b)
    then true
    else false

abbrev pub safe_default : Verdict
safe_default = record {
  mode = fallback;
  action = suppress;
  whatsapp_message = "";
  confidence = 0;
  reason = "Council unavailable — suppressing to avoid false alert";
  diagnosis_a = none;
  diagnosis_b = none;
  diverged = false;
}

abbrev pub min : ℕ → ℕ → ℕ
min a b = if ltb b a then b else a

abbrev pub max : ℕ → ℕ → ℕ
max a b = if ltb a b then b else a

-- the text of a category in the reason of a dissent
abbrev pub shown : Option String → String
shown none = "None"
shown (some c) = c

-- `_format_dissent_alert` and `_format_consensus_alert`, with the incident and the link that they show
module _ (format_dissent : Diagnosis → Diagnosis → String)
    (format_consensus : Diagnosis → String) where
  unfoldable pub agree_on : Diagnosis → Diagnosis → Verdict
  agree_on a b =
      let confidence = max (confidence_of a) (confidence_of b) in
      let primary = if leb (confidence_of b) (confidence_of a) then a else b in
      if ltb confidence three_fifths
      then record {
        mode = consensus;
        action = suppress;
        whatsapp_message = "";
        confidence = confidence;
        reason = "Both models uncertain — suppressing to avoid false alert";
        diagnosis_a = some a;
        diagnosis_b = some b;
        diverged = false;
      }
      else record {
        mode = consensus;
        action = validate;
        whatsapp_message = format_consensus primary;
        confidence = confidence;
        reason = or_default primary.root_cause "";
        diagnosis_a = some a;
        diagnosis_b = some b;
        diverged = false;
      }

  unfoldable pub disagree_on : Diagnosis → Diagnosis → Verdict
  disagree_on a b = record {
    mode = dissent;
    action = validate;
    whatsapp_message = format_dissent a b;
    confidence = min (confidence_of a) (confidence_of b);
    reason =
        append "Models diverge: " (append (shown a.category) (append " vs " (shown b.category)));
    diagnosis_a = some a;
    diagnosis_b = some b;
    diverged = true;
  }

  unfoldable pub judge : Diagnosis → Diagnosis → Verdict
  unfolding models_diverge agree_on disagree_on
  judge a b = if models_diverge a b then disagree_on a b else agree_on a b

  -- the verdict once both models are asked; a missing answer is replaced by the other
  unfoldable pub verdict_on : Option Diagnosis → Option Diagnosis → Verdict
  unfolding judge
  verdict_on none none = safe_default
  verdict_on none (some b) = judge b b
  verdict_on (some a) none = judge a a
  verdict_on (some a) (some b) = judge a b
