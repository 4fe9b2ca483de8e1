-- ===== src/DiagnosisMemory/Examples.antt =====
-- The theorem about the memory of diagnoses at four turns.
use fastapi_alertengine.Prelude.{String, ◌≡◌, refl, none, some, List, [], ◌∷◌, arith, map}
use fastapi_alertengine.Redis.Client.{got}
use fastapi_alertengine.Redis.Lists.{table}
use fastapi_alertengine.DiagnosisMemory.{Entry, Kept, Json, max_history, build_history_messages}
use fastapi_alertengine.DiagnosisMemory.Turns.{Turn, world, run, said, last, history_last}

abbrev kept : Kept
kept = record { action = some "escalate"; reason = some "slow"; confidence = some 800_000 }

abbrev entry : String → Entry
entry t = record { decision = kept; health_summary = t }

-- a JSON that knows the summary only
abbrev json : Json
json = record {
  dumps = λ e. e.health_summary;
  loads = λ t. some (entry t);
  dumps_decision = λ d. "decision";
}

abbrev turns : List Turn
turns = (entry "first", 10) ∷ (entry "second", 20) ∷ (entry "third", 30) ∷ (entry "fourth", 40) ∷ []

history_last_example :
    (build_history_messages table json "inc-1" 50
      (world table json "inc-1" (run table json "inc-1" turns (λ k. ([], none))))).0
    ≡ got (said table json "inc-1" (last max_history (map (λ x. x.0) turns)))
history_last_example =
    history_last table json "inc-1" turns (λ k. ([], none)) 0 50 (refl, (refl, (refl, (refl, tt))))
      (λ u. refl)
      (
        omega arith,
        omega arith,
        (
          omega arith,
          omega arith,
          (omega arith, omega arith, (omega arith, omega arith, (omega arith, omega arith))),
        ),
      )
