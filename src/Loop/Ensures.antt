-- ===== src/Loop/Ensures.antt =====
-- What a part of a tick guarantees, whatever the services answer: of each effect, and of the value it
-- goes on with.
use fastapi_alertengine.Prelude.{
  ◌≡◌, refl, Bool, true, false, Option, none, some, List, [], ◌∷◌, All, All-append,
}
use fastapi_alertengine.Loop.Step.{
  Effect, Exit, go, returned, crashed, Step, pure, leave, crash, call, emit, item, require,
  continue, ◌>>=◌,
}

abbrev pub Ends : {A : Type 0} → (A → Type 0) → Exit A → Type 0
Ends Q (go a) = Q a
Ends Q _ = Unit

pub record Ensures {S A : Type 0} (P : Effect → Type 0) (Q : A → Type 0) (m : Step S A)
    : Type 0 where
  pub at : (s : S) → All P (m s).1 × Ends Q (m s).0

abbrev pub Anything : {A : Type 0} → A → Type 0
Anything a = Unit

module _ {S A : Type 0} {P : Effect → Type 0} {Q : A → Type 0} where
  pub Ensures-pure : (a : A) → Q a → Ensures {S = S} P Q (pure a)
  Ensures-pure a q = record { at = λ s. (tt, q) }

  pub Ensures-leave : Ensures {S = S} P Q leave
  Ensures-leave = record { at = λ s. (tt, tt) }

  pub Ensures-crash : Ensures {S = S} P Q crash
  Ensures-crash = record { at = λ s. (tt, tt) }

  pub Ensures-call : (f : S → A × S) → ((s : S) → Q (f s).0) → Ensures P Q (call f)
  Ensures-call f q = record { at = λ s. (tt, q s) }

  pub Ensures-emit :
      (e : Effect) (f : S → A × S) → P e → ((s : S) → Q (f s).0) → Ensures P Q (emit e f)
  Ensures-emit e f p q = record { at = λ s. ((p, tt), q s) }

module _ {S A : Type 0} {P : Effect → Type 0} where
  pub Ensures-item : (o : Option A) → Ensures {S = S} P (λ a. o ≡ some a) (item o)
  Ensures-item none = record { at = λ s. (tt, tt) }
  Ensures-item (some a) = record { at = λ s. (tt, refl) }

module _ {S : Type 0} {P : Effect → Type 0} where
  pub Ensures-require : (b : Bool) → Ensures {S = S} P (λ _. b ≡ true) (require b)
  Ensures-require true = record { at = λ s. (tt, refl) }
  Ensures-require false = record { at = λ s. (tt, tt) }

module _ {S A B : Type 0} {P : Effect → Type 0} where
  -- A sequence, where what holds of the first value may be used for the rest.
  pub Ensures-bind :
      {Q : A → Type 0} {R : B → Type 0} (m : Step S A) (f : A → Step S B)
      → Ensures P Q m
      → ((a : A) → Q a → Ensures P R (f a))
      → Ensures P R (m >>= f)
  unfolding ◌>>=◌
  Ensures-bind {Q} {R} m f km kf = record { at = λ s. go_on (m s) (km.at s) }
    where
      go_on :
          (t : Exit A × List Effect × S)
          → All P t.1 × Ends Q t.0
          → All P (continue t f).1 × Ends R (continue t f).0
      go_on (go a, es, s) (h, q) =
          let (h', r) = (kf a q).at s in (All-append P es (f a s).1 h h', r)
      go_on (returned, es, s) (h, q) = (h, tt)
      go_on (crashed, es, s) (h, q) = (h, tt)

All-weaken :
    {P P' : Effect → Type 0} (es : List Effect) → ((e : Effect) → P e → P' e) → All P es → All P' es
All-weaken [] k h = tt
All-weaken (e ∷ es) k (h, hs) = (k e h, All-weaken es k hs)

Ends-weaken :
    {A : Type 0} {Q Q' : A → Type 0} (x : Exit A) → ((a : A) → Q a → Q' a) → Ends Q x → Ends Q' x
Ends-weaken (go a) l h = l a h
Ends-weaken returned l h = tt
Ends-weaken crashed l h = tt

module _ {S A : Type 0} {P P' : Effect → Type 0} {Q Q' : A → Type 0} where
  pub Ensures-weaken :
      (m : Step S A)
      → ((e : Effect) → P e → P' e)
      → ((a : A) → Q a → Q' a)
      → Ensures P Q m
      → Ensures P' Q' m
  Ensures-weaken m k l h = record {
    at = λ s. (All-weaken (m s).1 k (h.at s).0, Ends-weaken (m s).0 l (h.at s).1);
  }
