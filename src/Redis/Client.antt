-- ===== src/Redis/Client.antt =====
-- Calls of the Redis client: a round trip may raise, and `try`/`except` handles it.
--
-- What the network does is a list of faults, one for each round trip; past its end every round trip
-- is fine. A request may be lost on its way, and then the server has not run the command, or the
-- reply may be lost, and then it has.
use mathlib.Core.List.{List}
use fastapi_alertengine.Prelude.{[], ◌∷◌}

pub data Fault : Type 0 where
  fine lost_request lost_reply : Fault

pub data Reply (A : Type 0) : Type 0 where
  got : A → Reply A
  raised : Reply A

pub record World (S : Type 0) : Type 0 where
  pub server : S
  pub faults : List Fault

abbrev pub Call : Type 0 → Type 0 → Type 0
Call S A = World S → Reply A × World S

module _ {S A : Type 0} where
  abbrev pub pure : A → Call S A
  pure a w = (got a, w)

  -- what a round trip with a given fault does; the command itself may answer with an error
  abbrev pub under : Fault → (S → Reply A × S) → S → Reply A × S
  under fine command s = command s
  under lost_request command s = (raised, s)
  under lost_reply command s = (raised, (command s).1)

  abbrev pub send_with : List Fault → (S → Reply A × S) → Call S A
  send_with [] command w = let (r, s) = command w.server in (r, record { server = s; faults = [] })
  send_with (f ∷ fs) command w =
      let (r, s) = under f command w.server in (r, record { server = s; faults = fs })

  -- one round trip
  unfoldable pub send : (S → Reply A × S) → Call S A
  send command w = send_with w.faults command w

  -- `try: m  except Exception: handler`
  abbrev pub handle : Reply A → (World S → Reply A × World S) → World S → Reply A × World S
  handle (got a) h w = (got a, w)
  handle raised h w = h w

  unfoldable pub catch : Call S A → Call S A → Call S A
  catch m handler w = let (r, w') = m w in handle r handler w'

module _ {S A B : Type 0} where
  abbrev pub continue : Reply A → (A → Call S B) → Call S B
  continue (got a) f w = f a w
  continue raised f w = (raised, w)

  infixl 10 ◌>>=◌ ◌>>◌
  abbrev pub ◌>>=◌ : Call S A → (A → Call S B) → Call S B
  ◌>>=◌ m f w = let (r, w') = m w in continue r f w'

  abbrev pub ◌>>◌ : Call S A → Call S B → Call S B
  m >> n = m >>= λ _. n
