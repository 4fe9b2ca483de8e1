-- ===== src/Audit/Replay.antt =====
-- What `replay_incident_state` rebuilds from a log.
use mathlib.Core.List.{append-nil, append_assoc, map-append}
use fastapi_alertengine.Prelude.{
  ℕ, ◌≡◌, ◌↔◌, ◌⊎◌, inl, inr, refl, ap, sym, ◌∙◌, Bool, true, false, Option, none, some, List, [],
  ◌∷◌, ◌++◌, map, arith, or_default, Bool-cases, ◌||◌, is_some, if◌then◌else◌,
}
use fastapi_alertengine.Pipeline.Stage.{
  Stage, resolved, recovered, other, stage_eq, stage_eq_iff, allowed_transitions, failed, expired,
  webhook_failed,
}
use fastapi_alertengine.Pipeline.Incident.{Incident, Entry, is_stage}
use fastapi_alertengine.Pipeline.Diagram.{
  ◌⟶◌, open_incident, propose, validate, authorize, execute, resolve, recover, next-⟶, ⟶-guards,
}
use fastapi_alertengine.Pipeline.Lifecycle.{IsPath, last_stage, IsLogged}
use fastapi_alertengine.Audit.{
  Event, Step, Warning, Walk, is_exit, is_expected, warn, step, stage_of, visit, walk, Replayed,
  no_warnings, rebuild, start_walk, replay_log,
}

-- A log that has one entry for each entry of a history, with its stage and its time.
abbrev pub Matches : List Entry → List Event → Type 0
Matches [] [] = Unit
Matches (h ∷ hs) (e ∷ es) = (e.stage ≡ some h.stage) × (e.timestamp ≡ some h.at) × Matches hs es
Matches _ _ = ⊥

⟶-named : {s : Option Stage} {t : Stage} → s ⟶ t → stage_eq t (other "") ≡ false
unfolding stage_eq
⟶-named open_incident = refl
⟶-named propose = refl
⟶-named validate = refl
⟶-named authorize = refl
⟶-named execute = refl
⟶-named resolve = refl
⟶-named (recover h) = refl

⟶-is_expected : {s : Option Stage} {t : Stage} → s ⟶ t → is_expected s t ≡ true
unfolding is_expected is_stage is_exit allowed_transitions stage_eq
⟶-is_expected open_incident = refl
⟶-is_expected propose = refl
⟶-is_expected validate = refl
⟶-is_expected authorize = refl
⟶-is_expected execute = refl
⟶-is_expected resolve = refl
⟶-is_expected (recover h) = ground arith

-- Where a transition is expected: an arrow of the diagram, or an end that replay lets through.
expected_iff :
    (s : Option Stage) (t : Stage) → (is_expected s t ≡ true) ↔ ((s ⟶ t) ⊎ (is_exit t ≡ true))
unfolding is_expected is_stage
expected_iff s t =
    (only, λ x. elim x [ inl arrow ↦ ⟶-is_expected arrow | inr e ↦ ground (arith, e) ])
  where
    by_next :
        (n : Option Stage)
        → allowed_transitions s ≡ n
        → (is_stage n t || is_exit t) ≡ true
        → (s ⟶ t) ⊎ (is_exit t ≡ true)
    by_next none e h = inr h
    by_next (some n) e h = elim (Bool-cases (stage_eq n t)) [
      | inl q ↦ inl (next-⟶ s t (e ∙ ap some ((stage_eq_iff n t).0 q)))
      | inr q ↦ inr (ground (arith, q, h))
    ]

    only : is_expected s t ≡ true → (s ⟶ t) ⊎ (is_exit t ≡ true)
    only h = by_next _ refl h

abbrev pub mark : Step → Stage × Option ℕ
mark h = (h.stage, h.at)

abbrev pub marks : List Step → List (Stage × Option ℕ)
marks hs = map mark hs

abbrev pub entries : List Entry → List (Stage × Option ℕ)
entries hs = map (λ h. (h.stage, some h.at)) hs

stage_of-named :
    (e : Event) (t : Stage) → e.stage ≡ some t → stage_eq t (other "") ≡ false → stage_of e ≡ some t
stage_of-named e t named q = rw (named, q) refl

walk_named :
    (w : Walk) (e : Event) (es : List Event) (t : Stage)
    → e.stage ≡ some t
    → stage_eq t (other "") ≡ false
    → walk w (e ∷ es) ≡ walk (step w e t) es
unfolding walk
walk_named w e es t named q = ap (λ o. walk (visit w e o) es) (stage_of-named e t named q)

-- A walk along a way through the diagram: it ends where the way does, warns of nothing, and takes the history over.
walk_path :
    (w : Walk) (hs : List Entry) (es : List Event)
    → IsPath w.current_stage hs
    → Matches hs es
    → ((walk w es).current_stage ≡ last_stage w.current_stage hs)
      × ((walk w es).warnings ≡ w.warnings)
      × (marks (walk w es).history ≡ marks w.history ++ entries hs)
unfolding walk step
walk_path w [] [] p m = (refl, refl, sym (append-nil _))
walk_path w [] (e ∷ es) p m = absurd m
walk_path w (h ∷ hs) [] p m = absurd m
walk_path w (h ∷ hs) (e ∷ es) (arrow, p) (named, dated, m) =
    let (a, b, c) = walk_path (step w e h.stage) hs es p m in
    let named_walk = walk_named w e es h.stage named (⟶-named arrow) in
    (
      ap (λ v. v.current_stage) named_walk ∙ a,
      ap (λ v. v.warnings) named_walk ∙ b ∙ (rw (⟶-is_expected arrow) (append-nil w.warnings)),
      ap (λ v. marks v.history) named_walk
          ∙ c
          ∙ (rw (map-append mark w.history _, dated)
              (append_assoc (marks w.history) _ (entries hs))),
    )

rebuild_named :
    (started : Option ℕ) (w : Walk) (t : Stage)
    → w.current_stage ≡ some t
    → (r : Replayed) × (rebuild started w w.current_stage ≡ some r)
      × (r.stage ≡ t)
      × (r.history ≡ w.history)
      × (r.warnings ≡ w.warnings)
      × (r.is_clean ≡ no_warnings w.warnings)
      × (stage_eq t recovered ≡ false → (r.resolved_at ≡ none) × (r.is_healthy ≡ false))
rebuild_named started w t e =
    (_, ap (rebuild started w) e, refl, refl, refl, refl, λ q. rw q (refl, refl))

no_match : (hs : List Entry) {t : Stage} → Matches hs [] → last_stage none hs ≡ some t → ⊥
no_match [] m e = cc
no_match (h ∷ hs) m e = m

-- From a log with one entry for each entry of a logged incident's history, with its stage and time, the replay rebuilds
-- the stage of the incident and its history, and finds the log clean.
pub replay_restores :
    (i : Incident) (log : List Event) (t : Stage) (now : ℕ)
    → IsLogged i
    → Matches i.history log
    → i.stage ≡ some t
    → (r : Replayed) × (replay_log now log ≡ some r)
      × (r.stage ≡ t)
      × (marks r.history ≡ entries i.history)
      × (r.is_clean ≡ true)
unfolding replay_log
replay_restores i [] t now v m e = absurd (no_match i.history m (v.ends ∙ e))
replay_restores i (x ∷ log) t now v m e =
    let started = some (or_default x.timestamp now) in
    let (ends, warned, kept) = walk_path (start_walk started) i.history (x ∷ log) v.path m in
    let (r, found, stage, history, warnings, clean, rest) =
      rebuild_named started (walk (start_walk started) (x ∷ log)) t (ends ∙ v.ends ∙ e) in
    (r, found, stage, ap marks history ∙ kept, clean ∙ ap no_warnings warned)

-- An incident in RESOLVED has a time of resolution, and the one that its log is replayed to has none, and counts as
-- critical.
replay_reopens :
    (i : Incident) (log : List Event) (now : ℕ)
    → IsLogged i
    → Matches i.history log
    → i.stage ≡ some resolved
    → (is_some i.resolved_at ≡ true)
      × ((r : Replayed) × (replay_log now log ≡ some r)
          × (r.resolved_at ≡ none)
          × (r.is_healthy ≡ false))
unfolding replay_log stage_eq
replay_reopens i [] now v m e = absurd (no_match i.history m (v.ends ∙ e))
replay_reopens i (x ∷ log) now v m e =
    let started = some (or_default x.timestamp now) in
    let (ends, warned, kept) = walk_path (start_walk started) i.history (x ∷ log) v.path m in
    let (r, found, stage, history, warnings, clean, rest) =
      rebuild_named started (walk (start_walk started) (x ∷ log)) resolved (ends ∙ v.ends ∙ e) in
    let (undated, sick) = rest refl in (v.dated e, (r, found, undated, sick))

-- the stages of a log, entries without one left out
abbrev pub with_stage : Option Stage → List Stage → List Stage
with_stage none ts = ts
with_stage (some t) ts = t ∷ ts

abbrev pub stages_in : List Event → List Stage
stages_in [] = []
stages_in (e ∷ es) = with_stage (stage_of e) (stages_in es)

-- RECOVERED, FAILED, EXPIRED and WEBHOOK_FAILED
abbrev pub IsEnd : Stage → Type 0
IsEnd t = (t ≡ recovered) ⊎ (t ≡ failed) ⊎ (t ≡ expired) ⊎ (t ≡ webhook_failed)

is_exit_iff : (t : Stage) → (is_exit t ≡ true) ↔ IsEnd t
unfolding is_exit
is_exit_iff t = ground arith

-- each stage is where an arrow of the diagram leads from the one before, or one of the four ends
abbrev pub IsChain : Option Stage → List Stage → Type 0
IsChain s [] = Unit
IsChain s (t ∷ ts) = ((s ⟶ t) ⊎ IsEnd t) × IsChain (some t) ts

append_empty : {A : Type 0} (xs ys : List A) → xs ++ ys ≡ [] → (xs ≡ []) × (ys ≡ [])
append_empty [] ys h = (refl, h)
append_empty (x ∷ xs) ys h = cc

warn_iff : (s : Option Stage) (t : Stage) → (warn s t ≡ []) ↔ ((s ⟶ t) ⊎ IsEnd t)
warn_iff s t = (
  λ h. elim ((expected_iff s t).0 (quiet (is_expected s t) _ h)) [
    | inl arrow ↦ inl arrow
    | inr e ↦ inr ((is_exit_iff t).0 e)
  ],
  λ h.
      rw
        ((expected_iff s t).1
          (elim h [ inl arrow ↦ inl arrow | inr e ↦ inr ((is_exit_iff t).1 e) ]))
        refl,
)
  where
    quiet : (b : Bool) (x : Warning) → (if b then [] else x ∷ []) ≡ [] → b ≡ true
    quiet true x h = refl
    quiet false x h = cc

walk_clean :
    (w : Walk) (es : List Event)
    → ((walk w es).warnings ≡ []) ↔ ((w.warnings ≡ []) × IsChain w.current_stage (stages_in es))
unfolding walk step
walk_clean w [] = (λ h. (h, tt), λ h. h.0)
walk_clean w (e ∷ es) = visited (λ v. walk_clean v es) (stage_of e)
  where
    visited :
        ((v : Walk)
          → ((walk v es).warnings ≡ [])
            ↔ ((v.warnings ≡ []) × IsChain v.current_stage (stages_in es)))
        → (o : Option Stage)
        → ((walk (visit w e o) es).warnings ≡ [])
          ↔ ((w.warnings ≡ []) × IsChain w.current_stage (with_stage o (stages_in es)))
    visited rest none = rest w
    visited rest (some t) = (
      λ h.
          let (quiet, chain) = (rest (step w e t)).0 h in
          let (before, now) = append_empty w.warnings _ quiet in
          (before, ((warn_iff w.current_stage t).0 now, chain)),
      λ (before, (arrow, chain)).
          (rest (step w e t)).1 (rw (before, (warn_iff w.current_stage t).1 arrow) refl, chain),
    )

no_warnings_iff : (ws : List Warning) → (no_warnings ws ≡ true) ↔ (ws ≡ [])
no_warnings_iff [] = (λ h. refl, λ h. refl)
no_warnings_iff (w ∷ ws) = (λ h. cc, λ h. cc)

rebuild_clean :
    (started : Option ℕ) (w : Walk) (o : Option Stage) (r : Replayed)
    → rebuild started w o ≡ some r
    → r.is_clean ≡ no_warnings w.warnings
rebuild_clean started w none r e = cc
rebuild_clean started w (some t) r e = sym (cc e)

-- A replayed log is found clean exactly where each of its stages is one that an arrow of the diagram leads to from the
-- stage before, or RECOVERED, FAILED, EXPIRED or WEBHOOK_FAILED, which are let through from any stage.
pub replay_clean_iff :
    (log : List Event) (now : ℕ) (r : Replayed)
    → replay_log now log ≡ some r
    → (r.is_clean ≡ true) ↔ IsChain none (stages_in log)
unfolding replay_log
replay_clean_iff [] now r e = cc
replay_clean_iff (x ∷ log) now r e =
    let w = walk (start_walk (some (or_default x.timestamp now))) (x ∷ log) in
    let c = rebuild_clean (some (or_default x.timestamp now)) w w.current_stage r e in
    (
      λ h. ((walk_clean _ (x ∷ log)).0 ((no_warnings_iff w.warnings).0 (sym c ∙ h))).1,
      λ chain. c ∙ (no_warnings_iff w.warnings).1 ((walk_clean _ (x ∷ log)).1 (refl, chain)),
    )

unrepeated : (t : Stage) → is_exit t ≡ false → (some t ⟶ t) ⊎ IsEnd t → ⊥
unfolding is_stage
unrepeated t q (inl arrow) = ground (arith, (⟶-guards arrow).0, stage_eq_iff t t)
unrepeated t q (inr e) = let end = (is_exit_iff t).1 e in cc (q, end)

no_repeat :
    (s : Option Stage) (ts us : List Stage) (t : Stage)
    → is_exit t ≡ false
    → IsChain s (ts ++ t ∷ t ∷ us)
    → ⊥
no_repeat s [] us t q (first, (again, rest)) = unrepeated t q again
no_repeat s (x ∷ ts) us t q (first, rest) = no_repeat (some x) ts us t q rest

-- A log that names a stage twice in a row, as the entries of the shadow mode do, is not found clean, unless the stage is
-- one of the four ends.
repeated_stage_warns :
    (log : List Event) (now : ℕ) (r : Replayed) (ts us : List Stage) (t : Stage)
    → replay_log now log ≡ some r
    → stages_in log ≡ ts ++ t ∷ t ∷ us
    → is_exit t ≡ false
    → r.is_clean ≡ false
repeated_stage_warns log now r ts us t e named q = elim (Bool-cases r.is_clean) [
  | inl c ↦
      let chain = (replay_clean_iff log now r e).0 c in
      absurd (no_repeat none ts us t q (rw named at chain))
  | inr c ↦ c
]
