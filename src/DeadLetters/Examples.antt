-- ===== src/DeadLetters/Examples.antt =====
-- The theorem about the queue of dead letters at three failures.
use fastapi_alertengine.Prelude.{
  inl, String, ◌≡◌, refl, none, some, List, [], ◌∷◌, ◌++◌, arith, length,
}
use fastapi_alertengine.Redis.Client.{got, World, send, catch}
use fastapi_alertengine.Redis.Lists.{table}
use fastapi_alertengine.Redis.ListCalls.{push_for, keep_for}
use fastapi_alertengine.Redis.ListCalls as ListCalls
use fastapi_alertengine.Redis.Texts.{JsonOf}
use fastapi_alertengine.DeadLetters.{Failure, Entry, entry_of, push, get_all, get_count}
use fastapi_alertengine.DeadLetters.Latest.{Timed, values, fail_each, get_all_latest}

abbrev failure : String → Failure
failure e = record {
  incident_id = "inc-1";
  action_type = "whatsapp";
  error = e;
  stage = some "PROPOSED";
  action_id = none;
  payload = none;
}

-- a JSON that knows the error only
abbrev json : JsonOf Entry
json = record { dumps = λ e. e.error; loads = λ t. some (entry_of (failure t) 10) }

abbrev older : List Timed
older = (failure "first", 10) ∷ []

abbrev newer : List Timed
newer = (failure "second", 10) ∷ (failure "third", 10) ∷ []

abbrev quiet : World table.Server
quiet = record { server = λ k. ([], none); faults = [] }

get_all_latest_example :
    let w' : World table.Server = record {
      server = (fail_each table json (older ++ newer) quiet).server;
      faults = [];
    } in
    ((get_all table json 2 20 w').0 ≡ got (values newer))
    × ((get_count table json 20 w').0 ≡ got (some (length (older ++ newer))))
unfolding push push_for ListCalls.push keep_for send catch entry_of
get_all_latest_example =
    get_all_latest table json older newer quiet 0 20 1 (inl refl) (refl, (refl, tt)) (λ u. refl)
      (
        omega arith,
        omega arith,
        (omega arith, omega arith, (omega arith, omega arith, (omega arith, omega arith))),
      )
      (refl, (refl, (refl, tt)))
