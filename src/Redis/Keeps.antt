-- ===== src/Redis/Keeps.antt =====
-- What calls of the client leave true of the server, whatever faults the network has.
use fastapi_alertengine.Prelude.{List, [], ◌∷◌}
use fastapi_alertengine.Redis.Client.{
  Fault, fine, lost_request, lost_reply, Reply, got, raised, World, Call, pure, send, catch, handle,
  continue, ◌>>=◌,
}

-- A command that keeps a predicate of the server.
abbrev pub CommandKeeps : {S A : Type 0} → (S → Type 0) → (S → Reply A × S) → Type 0
CommandKeeps {S} P command = (s : S) → P s → P (command s).1

-- A call that keeps a predicate of the server, whether it returns or raises.
pub record Keeps {S A : Type 0} (P : S → Type 0) (m : Call S A) : Type 0 where
  pub at : (w : World S) → P w.server → P (m w).1.server

module _ {S A : Type 0} {P : S → Type 0} where
  pub Keeps-pure : (a : A) → Keeps P (pure a)
  Keeps-pure a = record { at = λ w h. h }

  pub Keeps-send : (command : S → Reply A × S) → CommandKeeps P command → Keeps P (send command)
  unfolding send
  Keeps-send command k = record { at = λ w h. go w.server w.faults h }
    where
      go :
          (s : S) (fs : List Fault)
          → P s
          → P (send command (record { server = s; faults = fs })).1.server
      go s [] h = k s h
      go s (fine ∷ fs) h = k s h
      go s (lost_request ∷ fs) h = h
      go s (lost_reply ∷ fs) h = k s h

  pub Keeps-catch : (m handler : Call S A) → Keeps P m → Keeps P handler → Keeps P (catch m handler)
  unfolding catch
  Keeps-catch m handler km kh = record { at = λ w h. go (m w).0 (m w).1 (km.at w h) }
    where
      go : (r : Reply A) (w : World S) → P w.server → P (handle r handler w).1.server
      go (got a) w h = h
      go raised w h = kh.at w h

module _ {S A B : Type 0} {P : S → Type 0} where
  pub Keeps-bind :
      (m : Call S A) (f : A → Call S B) → Keeps P m → ((a : A) → Keeps P (f a)) → Keeps P (m >>= f)
  Keeps-bind m f km kf = record { at = λ w h. go (m w).0 (m w).1 (km.at w h) }
    where
      go : (r : Reply A) (w : World S) → P w.server → P (continue r f w).1.server
      go (got a) w h = (kf a).at w h
      go raised w h = h

pub ruleset keeps_rules = (Keeps-pure, Keeps-send, Keeps-catch, Keeps-bind)
