-- ===== src/Recovery/Suggestions.antt =====
-- What is suggested: text only, by a table of rules, and more for a lower score.
use fastapi_alertengine.Prelude.{
  ℕ, ◌*◌, ◌≤◌, ◌≡◌, String, false, none, List, [], ◌∷◌, ◌++◌, arith, ltb, All, if◌then◌else◌,
}
use fastapi_alertengine.Recovery.{
  SuggestedAction, restart, alert, notify, ActionSuggestion, Metrics, unit, add_restart, add_alert,
  add_notify, suggest_actions,
}

-- The rule table: an action and the score below which it is suggested.
abbrev pub rules : List (SuggestedAction × ℕ)
rules = (restart, 25) ∷ (alert, 40) ∷ (notify, 60) ∷ []

abbrev pub matching : ℕ → List (SuggestedAction × ℕ) → List SuggestedAction
matching score [] = []
matching score ((a, limit) ∷ rs) =
    let rest = matching score rs in if ltb score (limit * unit) then a ∷ rest else rest

abbrev pub actions : List ActionSuggestion → List SuggestedAction
actions [] = []
actions (s ∷ ss) = s.action ∷ actions ss

-- a suggestion that nothing executes, made for a score
abbrev pub IsAdvice : ℕ → ActionSuggestion → Type 0
IsAdvice score s =
    (s.auto_permitted ≡ false) × (s.token ≡ none) × (s.expires_at ≡ none) × (s.health_score ≡ score)

-- the actions of the first rules, that match the lower score and not the higher
only_below : ℕ → ℕ → List (SuggestedAction × ℕ) → List SuggestedAction
only_below low high [] = []
only_below low high ((a, limit) ∷ rs) =
    let rest = only_below low high rs in
    if ltb high (limit * unit) then [] else if ltb low (limit * unit) then a ∷ rest else rest

matching-only_below :
    (low high : ℕ)
    → low ≤ high
    → matching low rules ≡ only_below low high rules ++ matching high rules
unfolding only_below
matching-only_below low high h = ground (arith, h)

module _ (fresh : ℕ → String) (now : ℕ) where
  -- `suggest_actions` suggests the actions of all rules of the table whose limit is above the score, in
  -- the order of the table, and each suggestion is advice: it is not permitted to run by itself and has
  -- no token.
  suggest_actions_lem :
      (score : ℕ) (metrics : Metrics)
      → (actions (suggest_actions fresh now score metrics) ≡ matching score rules)
        × All (IsAdvice score) (suggest_actions fresh now score metrics)
  unfolding suggest_actions add_restart add_alert add_notify
  suggest_actions_lem score metrics = ground arith

  -- A lower score is suggested what a higher one is, after the actions for lower scores.
  pub suggest_actions_monotone :
      (low high : ℕ) (metrics metrics' : Metrics)
      → low ≤ high
      → (more : List SuggestedAction) × (actions (suggest_actions fresh now low metrics)
          ≡ more ++ actions (suggest_actions fresh now high metrics'))
  suggest_actions_monotone low high metrics metrics' h = (
    only_below low high rules,
    rw ((suggest_actions_lem low metrics).0, (suggest_actions_lem high metrics').0)
        (matching-only_below low high h),
  )
