-- ===== src/Contracts/Outputs.antt =====
-- What `validate_claude_output` accepts, the stages that can follow one another, and the versions.
use fastapi_alertengine.Prelude.{String, ◌⊎◌, ◌≢◌, ℕ, ◌≤◌, ◌≡◌, true, false, Option, some}
use fastapi_alertengine.Contracts.{
  Text, string, Output, number, has_fields, is_valid_action, lacks_message, confidence_threshold,
}

-- one of the four actions
abbrev pub Known : String → Type 0
Known x = (x ≡ "escalate") ⊎ (x ≡ "validate") ⊎ (x ≡ "suppress") ⊎ (x ≡ "recover")

-- the action is suppress, or there is a message that is not empty
abbrev pub Speaks : Option Text → String → Type 0
Speaks m x = (x ≡ "suppress") ⊎ ((t : String) × (m ≡ some (string t)) × (t ≢ ""))

-- An output that meets the contract.
pub record IsOutput (d : Output) : Type 0 where
  pub acts : (x : String) × (d.action ≡ some (string x)) × Known x × Speaks d.whatsapp_message x
  pub confident : (n : ℕ) × (d.confidence ≡ some (number n)) × (600_000 ≤ n)
  pub gives_reason : (r : Text) × (d.reason ≡ some r)
  pub has_message : (m : Text) × (d.whatsapp_message ≡ some m)

-- the code's own tests
abbrev Accepts : Output → Type 0
Accepts e =
    (has_fields e ≡ true)
    × ((n : ℕ) × (e.confidence ≡ some (number n)) × (confidence_threshold ≤ n))
    × (is_valid_action e.action ≡ true)
    × (lacks_message e ≡ false)
