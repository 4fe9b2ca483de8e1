-- ===== src/Redis/Replies.antt =====
-- Inversion: what a call that returned a value has done on the server.
use fastapi_alertengine.Prelude.{◌≡◌, refl, Bool, true, false, List, [], ◌∷◌}
use fastapi_alertengine.Redis.Client.{
  Fault, fine, lost_request, lost_reply, Reply, got, raised, World, Call, pure, send, catch, handle,
  continue, ◌>>=◌, ◌>>◌,
}

module _ {S A : Type 0} where
  send_got_from :
      (command : S → Reply A × S) (s : S) (fs : List Fault) {a : A}
      → (send command (record { server = s; faults = fs })).0 ≡ got a
      → ((command s).0 ≡ got a)
        × ((send command (record { server = s; faults = fs })).1.server ≡ (command s).1)
  unfolding send
  send_got_from command s [] h = (h, refl)
  send_got_from command s (fine ∷ fs) h = (h, refl)
  send_got_from command s (lost_request ∷ fs) h = cc
  send_got_from command s (lost_reply ∷ fs) h = cc

  -- A round trip that returned has run its command.
  pub send_got :
      (command : S → Reply A × S) (w : World S) {a : A}
      → (send command w).0 ≡ got a
      → ((command w.server).0 ≡ got a) × ((send command w).1.server ≡ (command w.server).1)
  send_got command w h = send_got_from command w.server w.faults h

module _ {S A B : Type 0} where
  bind_got_from :
      (f : A → Call S B) (r : Reply A) (w : World S) {b : B}
      → (continue r f w).0 ≡ got b
      → (a : A) × (r ≡ got a) × (continue r f w ≡ f a w)
  bind_got_from f (got a) w h = (a, refl, refl)
  bind_got_from f raised w h = cc

  -- A sequence that returned is one whose first part did.
  pub bind_got :
      (m : Call S A) (f : A → Call S B) (w : World S) {b : B}
      → ((m >>= f) w).0 ≡ got b
      → (a : A) × ((m w).0 ≡ got a) × ((m >>= f) w ≡ f a (m w).1)
  bind_got m f w h = bind_got_from f (m w).0 (m w).1 h

module _ {S : Type 0} where
  catch_from :
      (r : Reply Bool) (w : World S)
      → (handle r (pure false) w).0 ≡ got true
      → (r ≡ got true) × (handle r (pure false) w ≡ (r, w))
  catch_from (got b) w h = (h, refl)
  catch_from raised w h = cc

  -- A guarded call that returned True met no exception.
  pub catch-true :
      (m : Call S Bool) (w : World S)
      → (catch m (pure false) w).0 ≡ got true
      → ((m w).0 ≡ got true) × (catch m (pure false) w ≡ m w)
  unfolding catch
  catch-true m w h = catch_from (m w).0 (m w).1 h

module _ {S A B : Type 0} where
  -- A round trip whose result is dropped, and what follows it from the world that it leaves.
  pub then_got :
      (command : S → Reply A × S) (n : Call S B) (w : World S) {b : B}
      → ((send command >> n) w).0 ≡ got b
      → (w' : World S) × (w'.server ≡ (command w.server).1)
        × ((n w').0 ≡ got b)
        × ((send command >> n) w ≡ n w')
  then_got command n w h =
      let (a, g, e) = bind_got (send command) (λ _. n) w h in
      ((send command w).1, (send_got command w g).1, rw e at h, e)
