-- ===== src/Loop/Step.antt =====
-- What a part of a tick does: it acts on the state of the services, leaves a trace of effects, and
-- goes on with a value, returns early, or ends by an exception.
use fastapi_alertengine.Prelude.{String, Bool, true, false, Option, none, some, List, [], ◌∷◌, ◌++◌}
use fastapi_alertengine.Pipeline.Stage.{Stage}
use fastapi_alertengine.Pipeline.Incident.{Incident}
use fastapi_alertengine.Pipeline.Decide.{Notification}
use fastapi_alertengine.Plans as Plans

-- The keys of the notifications that are sent once: SEND_DETECTION and so on, VOICE and SECONDARY.
pub data Notice : Type 0 where
  send : Notification → Notice
  voice secondary : Notice

-- An entry of the audit log: the stage, and whether the actor is the shadow mode.
pub record Event : Type 0 where
  pub incident_id : String
  pub stage : Option Stage
  pub shadow : Bool

-- The calls that others can see. `learns` is the write of a tenant's baseline, `leases` the marker of a
-- lock, which is deleted when the lease ends, `claims` the marker of an action, and `asks` a question to
-- the model about an incident, or a new one, which may also write the answer to the memory of diagnoses. A
-- notification is fired as a task that `execute_once` guards by the incident, the stage and the notice; the
-- ESCALATE action fires a voice call that nothing guards.
pub data Effect : Type 0 where
  stores : Incident → Effect
  learns leases claims : String → Effect
  asks : Option String → Effect
  activates clears : String → Effect
  counts_incident : Plans.Tenant → Effect
  records : Event → Effect
  notifies : String → Option Stage → Notice → Effect
  calls_voice : String → Effect

pub data Exit (A : Type 0) : Type 0 where
  go : A → Exit A
  returned crashed : Exit A

abbrev pub Step : Type 0 → Type 0 → Type 0
Step S A = S → Exit A × List Effect × S

module _ {S A : Type 0} where
  abbrev pub pure : A → Step S A
  pure a s = (go a, [], s)

  -- `return` of the whole function
  abbrev pub leave : Step S A
  leave s = (returned, [], s)

  -- an exception that nothing in the function handles
  abbrev pub crash : Step S A
  crash s = (crashed, [], s)

  -- a call of a service
  abbrev pub call : (S → A × S) → Step S A
  call f s = let (a, s') = f s in (go a, [], s')

  -- a call of a service that others can see
  abbrev pub emit : Effect → (S → A × S) → Step S A
  emit e f s = let (a, s') = f s in (go a, e ∷ [], s')

  -- the value under a key that is read by `d[key]`
  abbrev pub item : Option A → Step S A
  item none = crash
  item (some a) = pure a

abbrev pub require : {S : Type 0} → Bool → Step S (Unit {0})
require true s = (go tt, [], s)
require false s = (returned, [], s)

module _ {S A B : Type 0} where
  abbrev pub continue : Exit A × List Effect × S → (A → Step S B) → Exit B × List Effect × S
  continue (go a, es, s) f = let (r, fs, s') = f a s in (r, es ++ fs, s')
  continue (returned, es, s) f = (returned, es, s)
  continue (crashed, es, s) f = (crashed, es, s)

  infixl 10 ◌>>=◌ ◌>>◌
  unfoldable pub ◌>>=◌ : Step S A → (A → Step S B) → Step S B
  ◌>>=◌ m f s = continue (m s) f

  abbrev pub ◌>>◌ : Step S A → Step S B → Step S B
  m >> n = m >>= λ _. n
