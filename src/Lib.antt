-- ===== src/Lib.antt =====
-- A model of fastapi-alertengine: the incident orchestrator and the write path of its SDK.
--
-- The orchestrator (orchestrator/) watches the health of its tenants' services. It opens an incident,
-- moves it through the stages of a pipeline, notifies engineers, and lets a signed token trigger a
-- recovery. Several workers share a Redis server, on which they take a lease on an incident, claim
-- each action once, and keep the circuit breakers of their channels. The SDK (fastapi_alertengine/)
-- collects metrics inside a service and writes them to Redis in batches.
--
-- Which file models which part:
--
--   Prelude          Names, tests and lemmas that the modules share.
--   Redis            The server as an interface: the commands with the laws that Redis documents, and
--                    the time as an argument. Redis/Client is a call of the client library: a request
--                    or a reply may be lost, and `try`/`except` handles it. Redis/Table is a concrete
--                    server that meets the laws; Redis/Keeps and Redis/Replies are lemmas on calls.
--   IncidentPolicy   orchestrator/incident_policy.py: should_recover, should_validate,
--                    should_suppress and should_alert.
--   Pipeline         orchestrator/pipeline.py. Stage has the stages, gates and transitions; Incident
--                    has new_incident, can_transition, transition and next_required_stage; Decide has
--                    decide, decide_new_incident and validate_decision_schema. Diagram is an
--                    independent relation of the moves that are meant; Lifecycle, Resolution and
--                    Decisions are about runs and about what is decided.
--   Policy           orchestrator/policy.py: the tests for alerts and escalations, validate_decision.
--   Contracts        orchestrator/contracts.py: the model's output, transitions, notifications
--                    and schema versions.
--   Degraded         orchestrator/degraded.py: the failure counters, the mode and what it permits.
--   Plans            orchestrator/plans.py: the plans, their aliases, limits and quotas.
--   Lock             orchestrator/lock.py: acquire_lock, release_lock, renew_lock, is_locked and
--                    _auto_renew_loop, with the two Lua scripts.
--   Idempotency      orchestrator/idempotency.py: claim_action, update_status and execute_once; Race
--                    splits the claims of two workers into their commands.
--   ActionGenerator  orchestrator/action_generator.py: generate_recovery_token, consume_token
--                    and validate_and_consume. The JWT library and the hash are parameters.
--   Memory           orchestrator/memory.py: save_incident, resolve_incident, get_incident,
--                    get_active_incident and append_audit. JSON is a parameter.
--   Loop             orchestrator/loop.py: _process_tenant (Tenant) and _execute_actions (Actions), over
--                    an interface of the modules that they call (Services). Step is a part of a tick:
--                    it may return early or raise, and leaves a trace of effects. Ensures, Safety and
--                    Process are about every tick, Traces, Opening and Serving about particular ones.
--   CircuitBreaker   orchestrator/circuit_breaker.py: is_open, record_failure and record_success.
--   Engine           fastapi_alertengine/engine.py. Queue has AlertEngine.enqueue_metric and the
--                    batches of drain; Breaker has the _cb_ operations and write_batch of
--                    fastapi_alertengine/storage.py, and Buffer and States are about them.
--                    Aggregate has _aggregate_batch and the flushes, Percentile the nearest rank;
--                    Conserved and Rows are about aggregation.
--   Audit            orchestrator/audit.py: append_event, get_audit_log and replay_incident_state, over
--                    the list commands of Redis/Lists and Redis/ListCalls.
--   Notifications    orchestrator/notifications.py: dispatch, with the send of the providers in
--                    orchestrator/providers/, over an interface for requests, breakers and the
--                    delivery ledger.
--   Council          orchestrator/diagnostic_council.py: the verdict of council_diagnose on two answers.
--   DiagnosisMemory  orchestrator/diagnosis_memory.py: record_turn, build_history_messages and
--                    clear_history.
--   DeliveryLedger   orchestrator/delivery_ledger.py: record, get_delivery_log and all_failed.
--   DeadLetters      orchestrator/dlq.py: push, get_all, get_count and clear. Both are lists of JSON
--                    texts, which Redis/Texts is about.
--   SafePayload      orchestrator/safe_payload.py: the safe extractors, extract_health and
--                    strip_internal_fields, on values of any shape.
--   Recovery         fastapi_alertengine/actions/recovery.py: suggest_actions.
--
-- How the code is translated. A dict is a record of the keys that are read, an Option where a key
-- may be missing. Fractions are whole numbers of a fixed small unit, which each file names, so that
-- comparisons are exact; a value that Python would hold as a float is taken to be on that grid.
-- A clock is an argument, one for each time the code reads it. A call of Redis takes a world,
-- the server and the faults of the network to come; past the end of that list every round trip is
-- fine. Two loops have no end: the renewer of a lease runs over the times at which its sleep returns,
-- and its task is cancelled at their end, and the rounds of drain are events of a list. No other
-- function needs fuel.
--
-- Not modelled: tenants, baselines and commit context; the listing of stored incidents; the context
-- manager around a lease; the prompts and HTTP calls of models, and the texts of messages; web
-- routes and pages; the SDK's evaluation and scores. Log messages are left out throughout.
pub mod ActionGenerator
pub mod Audit
pub mod CircuitBreaker
pub mod Contracts
pub mod Council
pub mod DeadLetters
pub mod Degraded
pub mod DeliveryLedger
pub mod DiagnosisMemory
pub mod Engine
pub mod Idempotency
pub mod IncidentPolicy
pub mod Lock
pub mod Loop
pub mod Memory
pub mod Notifications
pub mod Pipeline
pub mod Plans
pub mod Policy
pub mod Prelude
pub mod Recovery
pub mod Redis
pub mod SafePayload
