-- ===== src/Council/Verdicts.antt =====
-- What a verdict of the council means.
use fastapi_alertengine.Prelude.{
  ℕ, ◌≤◌, ◌≡◌, ◌↔◌, ◌⊎◌, inl, inr, refl, sym, ap, ◌∙◌, String, Bool, true, false, Option, none,
  some, arith, eq_iff, ltb, Bool-cases, if◌then◌else◌,
}
use fastapi_alertengine.Council.{
  Diagnosis, Verdict, consensus, Action, validate, suppress, models_diverge, confidence_of,
  category_of, three_fifths, agree_on, disagree_on, judge, verdict_on, min, max,
}

diverge_comm : (a b : Diagnosis) → models_diverge a b ≡ models_diverge b a
unfolding models_diverge
diverge_comm a b =
    ground (arith, eq_iff (category_of a) (category_of b), eq_iff (category_of b) (category_of a))

-- No model diverges from itself.
diverge_self : (a : Diagnosis) → models_diverge a a ≡ false
unfolding models_diverge
diverge_self a = ground (arith, eq_iff (category_of a) (category_of a))

diverge_confident :
    (a b : Diagnosis)
    → models_diverge a b ≡ true
    → (three_fifths ≤ confidence_of a) ⊎ (three_fifths ≤ confidence_of b)
unfolding models_diverge
diverge_confident a b h = ground (arith, h)

min_comm : (m n : ℕ) → min m n ≡ min n m
min_comm m n = ground arith

max_comm : (m n : ℕ) → max m n ≡ max n m
max_comm m n = ground arith

max_confident :
    (m n : ℕ) → (ltb (max m n) three_fifths ≡ false) ↔ ((three_fifths ≤ m) ⊎ (three_fifths ≤ n))
max_confident m n =
    (λ h. ground (arith, h), λ x. elim x [ inl h ↦ ground (arith, h) | inr h ↦ ground (arith, h) ])

-- whether an answer is confident in three fifths
abbrev pub IsConfident : Option Diagnosis → Type 0
IsConfident none = ⊥
IsConfident (some d) = three_fifths ≤ confidence_of d

module _ (format_dissent : Diagnosis → Diagnosis → String)
    (format_consensus : Diagnosis → String) where
  abbrev verdict : Option Diagnosis → Option Diagnosis → Verdict
  verdict a b = verdict_on format_dissent format_consensus a b

  abbrev action_at : ℕ → Action
  action_at n = if ltb n three_fifths then suppress else validate

  agreed :
      (a b : Diagnosis)
      → let v = agree_on format_dissent format_consensus a b in
        let m = max (confidence_of a) (confidence_of b) in
        (v.mode ≡ consensus) × (v.action ≡ action_at m) × (v.confidence ≡ m) × (v.diverged ≡ false)
  unfolding agree_on
  agreed a b = elim (Bool-cases (ltb (max (confidence_of a) (confidence_of b)) three_fifths)) [
    | inl e ↦ rw e (refl, refl, refl, refl)
    | inr e ↦ rw e (refl, refl, refl, refl)
  ]

  judge_comm :
      (a b : Diagnosis)
      → let v = judge format_dissent format_consensus a b in
        let w = judge format_dissent format_consensus b a in
        (v.mode ≡ w.mode)
        × (v.action ≡ w.action)
        × (v.confidence ≡ w.confidence)
        × (v.diverged ≡ w.diverged)
  unfolding judge disagree_on
  judge_comm a b = elim (Bool-cases (models_diverge a b)) [
    | inl e ↦
        rw (e, sym (diverge_comm a b) ∙ e)
          (refl, refl, min_comm (confidence_of a) (confidence_of b), refl)
    | inr e ↦
        let (m, act, c, d) = agreed a b in
        let (m', act', c', d') = agreed b a in
        let same = max_comm (confidence_of a) (confidence_of b) in
        rw (e, sym (diverge_comm a b) ∙ e)
          (m ∙ sym m', act ∙ ap action_at same ∙ sym act', c ∙ same ∙ sym c', d ∙ sym d')
  ]

  judged :
      (a b : Diagnosis)
      → ((judge format_dissent format_consensus a b).action ≡ validate)
        ↔ ((three_fifths ≤ confidence_of a) ⊎ (three_fifths ≤ confidence_of b))
  unfolding judge disagree_on
  judged a b = elim (Bool-cases (models_diverge a b)) [
    | inl e ↦ rw e (λ h. diverge_confident a b e, λ h. refl)
    | inr e ↦
        let (m, act, c, d) = agreed a b in
        let largest = max (confidence_of a) (confidence_of b) in
        rw e (
          λ h.
              (max_confident (confidence_of a) (confidence_of b)).0
                (validated (ltb largest three_fifths) (sym act ∙ h)),
          λ h. act ∙ (rw ((max_confident (confidence_of a) (confidence_of b)).1 h) refl),
        )
  ]
    where
      validated : (x : Bool) → (if x then suppress else validate) ≡ validate → x ≡ false
      validated true h = cc h
      validated false h = refl

  -- The mode, the action and the confidence of a verdict do not depend on which model gave which answer, answers that failed
  -- included.
  verdict_on_comm :
      (a b : Option Diagnosis)
      → let v = verdict_on format_dissent format_consensus a b in
        let w = verdict_on format_dissent format_consensus b a in
        (v.mode ≡ w.mode)
        × (v.action ≡ w.action)
        × (v.confidence ≡ w.confidence)
        × (v.diverged ≡ w.diverged)
  unfolding verdict_on
  verdict_on_comm none none = (refl, refl, refl, refl)
  verdict_on_comm none (some b) = (refl, refl, refl, refl)
  verdict_on_comm (some a) none = (refl, refl, refl, refl)
  verdict_on_comm (some a) (some b) = judge_comm a b

  -- The council recommends an action exactly where an answer is at least three fifths confident, also where the two diverge or
  -- one of them failed.
  pub validate_iff :
      (a b : Option Diagnosis)
      → ((verdict_on format_dissent format_consensus a b).action ≡ validate)
        ↔ (IsConfident a ⊎ IsConfident b)
  unfolding verdict_on judge agree_on disagree_on models_diverge
  validate_iff none none = (λ h. cc, λ h. elim h [ inl x ↦ absurd x | inr x ↦ absurd x ])
  validate_iff none (some b) = (
    λ h. elim ((judged b b).0 h) [ inl x ↦ inr x | inr x ↦ inr x ],
    λ h. elim h [ inl x ↦ absurd x | inr x ↦ (judged b b).1 (inl x) ],
  )
  validate_iff (some a) none = (
    λ h. elim ((judged a a).0 h) [ inl x ↦ inl x | inr x ↦ inl x ],
    λ h. elim h [ inl x ↦ (judged a a).1 (inl x) | inr x ↦ absurd x ],
  )
  validate_iff (some a) (some b) = judged a b
