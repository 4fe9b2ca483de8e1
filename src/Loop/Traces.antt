-- ===== src/Loop/Traces.antt =====
-- How a part of a tick ends and which effects it leaves, step by step, from what the services answer.
use fastapi_alertengine.Prelude.{◌≡◌, Bool, true, Option, some, List, [], ◌∷◌, ◌++◌}
use fastapi_alertengine.Loop.Step.{
  Effect, Exit, go, returned, crashed, Step, pure, crash, call, emit, item, require, continue,
  ◌>>=◌,
}
use mathlib.Core.List.{append_assoc}

pub record Traces {S A : Type 0} (R : Exit A → List Effect → Type 0) (m : Step S A) : Type 0 where
  pub at : (s : S) → R (m s).0 (m s).1

module _ {S A : Type 0} {R : Exit A → List Effect → Type 0} where
  pub Traces-pure : (a : A) → R (go a) [] → Traces {S = S} R (pure a)
  Traces-pure a r = record { at = λ s. r }

  pub Traces-any : (m : Step S A) → ((e : Exit A) (es : List Effect) → R e es) → Traces R m
  Traces-any m r = record { at = λ s. r _ _ }

module _ {S A B : Type 0} {R : Exit B → List Effect → Type 0} where
  pub Traces-return : (a : A) (g : A → Step S B) → Traces R (g a) → Traces R (pure a >>= g)
  unfolding ◌>>=◌
  Traces-return a g t = record { at = λ s. t.at s }

  pub Traces-crash : (g : A → Step S B) → R crashed [] → Traces R (crash >>= g)
  unfolding ◌>>=◌
  Traces-crash g r = record { at = λ s. r }

  pub Traces-call :
      (f : S → A × S) (g : A → Step S B) (P : A → Type 0)
      → ((s : S) → P (f s).0)
      → ((a : A) → P a → Traces R (g a))
      → Traces R (call f >>= g)
  unfolding ◌>>=◌
  Traces-call f g P p t = record { at = λ s. (t (f s).0 (p s)).at (f s).1 }

  pub Traces-answer :
      (f : S → A × S) (g : A → Step S B) (a : A)
      → ((s : S) → (f s).0 ≡ a)
      → Traces R (g a)
      → Traces R (call f >>= g)
  Traces-answer f g a p t = Traces-call f g (λ b. b ≡ a) p (λ b e. rw e t)

  pub Traces-emit :
      (e : Effect) (f : S → A × S) (g : A → Step S B) (a : A)
      → ((s : S) → (f s).0 ≡ a)
      → Traces (λ x es. R x (e ∷ es)) (g a)
      → Traces R (emit e f >>= g)
  unfolding ◌>>=◌
  Traces-emit e f g a p t = record { at = λ s. moved s (f s).0 (p s) }
    where
      moved : (s : S) (b : A) → b ≡ a → R (g b (f s).1).0 (e ∷ (g b (f s).1).1)
      moved s b q = rw q (t.at (f s).1)

  pub Traces-emit_any :
      (e : Effect) (f : S → A × S) (g : A → Step S B)
      → ((a : A) → Traces (λ x es. R x (e ∷ es)) (g a))
      → Traces R (emit e f >>= g)
  unfolding ◌>>=◌
  Traces-emit_any e f g t = record { at = λ s. (t (f s).0).at (f s).1 }

  pub Traces-item :
      (o : Option A) (g : A → Step S B) (a : A)
      → o ≡ some a
      → Traces R (g a)
      → Traces R (item o >>= g)
  unfolding ◌>>=◌
  Traces-item o g a p t = rw p (record { at = λ s. t.at s })

module _ {S B : Type 0} {R : Exit B → List Effect → Type 0} where
  pub Traces-require :
      (b : Bool) (g : Unit {0} → Step S B) → b ≡ true → Traces R (g tt) → Traces R (require b >>= g)
  unfolding ◌>>=◌
  Traces-require b g p t = rw p (record { at = λ s. t.at s })

module _ {S A B C : Type 0} {R : Exit C → List Effect → Type 0} where
  pub Traces-assoc :
      (m : Step S A) (f : A → Step S B) (g : B → Step S C)
      → Traces R (m >>= λ a. f a >>= g)
      → Traces R ((m >>= f) >>= g)
  unfolding ◌>>=◌
  Traces-assoc m f g t = record { at = λ s. by_exit (m s) (t.at s) }
    where
      later :
          (es : List Effect) (x : Exit B × List Effect × S)
          → R (let (r, fs, s) = continue x g in r) (es ++ (continue x g).1)
          → R
              (continue (let (r, fs, s') = x in (r, es ++ fs, s')) g).0
              (continue (let (r, fs, s') = x in (r, es ++ fs, s')) g).1
      later es (go b, fs, s) r = rw (append_assoc es fs (g b s).1) r
      later es (returned, fs, s) r = r
      later es (crashed, fs, s) r = r

      by_exit :
          (x : Exit A × List Effect × S)
          → R (continue x (λ a. f a >>= g)).0 (continue x (λ a. f a >>= g)).1
          → R (continue (continue x f) g).0 (continue (continue x f) g).1
      by_exit (go a, es, s) r = later es (f a s) r
      by_exit (returned, es, s) r = r
      by_exit (crashed, es, s) r = r
