-- ===== src/Contracts.antt =====
-- orchestrator/contracts.py: the checks on the model's output, on stages, on notifications and on the
-- schema version of records.
--
-- What `json.loads` returns is an argument: None where it raises, otherwise the fields that the code
-- looks at, a confidence in millionths. JSON that is no object, on which `data.keys()` raises, is left
-- out.
pub mod Notifications
pub mod Outputs
mod Examples
use mathlib.Core.Option.{Option, none, some}
use fastapi_alertengine.Prelude.{
  ℕ, String, Bool, true, false, List, [], ◌∷◌, ltb, ◌==◌, str_eq, not, ◌&&◌, is_some, if◌then◌else◌,
}

-- A value under "confidence": of a numeric type, or of another.
pub data Number : Type 0 where
  number : ℕ → Number
  not_numeric : Number

-- A value that is a text, or null.
pub data Text : Type 0 where
  null : Text
  string : String → Text

-- The parsed output: an object whose other three fields are texts or null where they are there.
pub record Output : Type 0 where
  pub action : Option Text
  pub confidence : Option Number
  pub reason : Option Text
  pub whatsapp_message : Option Text

-- The messages of `InvalidClaudeOutput`, in the order of the checks.
pub data OutputError : Type 0 where
  not_json missing_fields not_numeric_confidence low_confidence : OutputError
  invalid_action : Option Text → OutputError
  message_required : OutputError

pub data Checked {ℓ} (E : Type ℓ) (A : Type ℓ) : Type ℓ where
  ok : A → Checked E A
  err : E → Checked E A

abbrev pub valid_actions : List String
valid_actions = "escalate" ∷ "validate" ∷ "suppress" ∷ "recover" ∷ []

-- `CONFIDENCE_THRESHOLD`
abbrev pub confidence_threshold : ℕ
confidence_threshold = 600_000

abbrev pub contains : List String → String → Bool
contains [] x = false
contains (y ∷ ys) x = if str_eq y x then true else contains ys x

abbrev pub has_fields : Output → Bool
has_fields d =
    is_some d.action && is_some d.confidence && is_some d.reason && is_some d.whatsapp_message

abbrev pub is_valid_action : Option Text → Bool
is_valid_action (some (string a)) = contains valid_actions a
is_valid_action _ = false

abbrev pub is_text : Option Text → String → Bool
is_text (some (string t)) s = str_eq t s
is_text _ s = false

abbrev pub is_truthy : Option Text → Bool
is_truthy (some (string t)) = not (str_eq t "")
is_truthy _ = false

-- `data["action"] != "suppress" and not data.get("whatsapp_message")`
abbrev pub lacks_message : Output → Bool
lacks_message d = not (is_text d.action "suppress") && not (is_truthy d.whatsapp_message)

-- the checks once the confidence is known to be a number
unfoldable pub check_values : Output → ℕ → Checked OutputError Output
check_values d n =
    if ltb n confidence_threshold
    then err low_confidence
    else if not (is_valid_action d.action)
    then err (invalid_action d.action)
    else if lacks_message d
    then err message_required
    else ok d

abbrev pub check_confidence : Output → Option Number → Checked OutputError Output
check_confidence d (some (number n)) = check_values d n
check_confidence d _ = err not_numeric_confidence

unfoldable pub validate_claude_output : Option Output → Checked OutputError Output
unfolding check_values
validate_claude_output none = err not_json
validate_claude_output (some d) =
    if not (has_fields d) then err missing_fields else check_confidence d d.confidence

-- The stages of `VALID_TRANSITIONS`, which are texts of their own.
pub data ContractStage : Type 0 where
  detected proposed validated rejected authorized executed recovered : ContractStage
  other : String → ContractStage

-- `VALID_TRANSITIONS.get(current, [])`
unfoldable pub valid_transitions : Option ContractStage → List ContractStage
valid_transitions none = detected ∷ []
valid_transitions (some detected) = proposed ∷ []
valid_transitions (some proposed) = validated ∷ rejected ∷ []
valid_transitions (some validated) = authorized ∷ []
valid_transitions (some authorized) = executed ∷ []
valid_transitions (some executed) = recovered ∷ []
valid_transitions (some s) = []

unfoldable pub same_stage : ContractStage → ContractStage → Bool
same_stage detected detected = true
same_stage proposed proposed = true
same_stage validated validated = true
same_stage rejected rejected = true
same_stage authorized authorized = true
same_stage executed executed = true
same_stage recovered recovered = true
same_stage (other a) (other b) = str_eq a b
same_stage _ _ = false

unfoldable pub has_stage : List ContractStage → ContractStage → Bool
has_stage [] s = false
has_stage (t ∷ ts) s = if same_stage t s then true else has_stage ts s

pub data TransitionError : Type 0 where
  not_allowed : Option ContractStage → ContractStage → TransitionError

unfoldable pub enforce_transition :
    Option ContractStage → ContractStage → Checked TransitionError ContractStage
unfolding has_stage same_stage valid_transitions
enforce_transition current new =
    if not (has_stage (valid_transitions current) new)
    then err (not_allowed current new)
    else ok new

-- `CURRENT_SCHEMA_VERSION`
abbrev pub current_schema_version : ℕ
current_schema_version = 1

-- A record: its version, if it has one, and the rest.
pub record Versioned (A : Type 0) : Type 0 where
  pub version : Option ℕ
  pub rest : A

pub data SchemaError : Type 0 where
  missing_version : SchemaError
  mismatch : ℕ → SchemaError

module _ {A : Type 0} where
  unfoldable pub enforce_schema : Versioned A → Checked SchemaError (Versioned A)
  enforce_schema d = elim d.version [
    | none ↦ err missing_version
    | some v ↦ if not (v == current_schema_version) then err (mismatch v) else ok d
  ]

  unfoldable pub with_schema : Versioned A → Versioned A
  with_schema d = record d { version = some current_schema_version }
