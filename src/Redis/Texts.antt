-- ===== src/Redis/Texts.antt =====
-- Lists of JSON texts: what is pushed to them in time is read back.
--
-- JSON is an interface: `loads` is none where it raises.
use mathlib.Core.List.{append-nil, append_assoc}
use fastapi_alertengine.Prelude.{
  ℕ, ◌+◌, ◌≤◌, ◌<◌, ◌≡◌, refl, sym, ap, ◌∙◌, String, true, Option, none, some, List, [], ◌∷◌, ◌++◌,
  map,
}
use fastapi_alertengine.Redis.Client.{Reply, got, raised, World}
use fastapi_alertengine.Redis.Lists.{RedisLists}
use fastapi_alertengine.Redis.ListCalls.{push_for, push_for-true}

pub record JsonOf (A : Type 0) : Type 0 where
  pub dumps : A → String
  pub loads : String → Option A

abbrev pub add_loaded : {A : Type 0} → Option A → Option (List A) → Option (List A)
add_loaded (some x) (some xs) = some (x ∷ xs)
add_loaded _ _ = none

-- `[json.loads(e) for e in entries]`
abbrev pub load_each : {A : Type 0} → JsonOf A → List String → Option (List A)
load_each J [] = some []
load_each J (t ∷ ts) = add_loaded (J.loads t) (load_each J ts)

abbrev pub reply_with : {A : Type 0} → Option A → Reply A
reply_with none = raised
reply_with (some x) = got x

-- what comes at the times of `xs`, with each time before what the last one left is gone; so does `t`
abbrev pub InTime : {A : Type 0} → ℕ → ℕ → List (A × ℕ) → ℕ → Type 0
InTime ttl from [] t = (from ≤ t) × (t < from + ttl)
InTime ttl from ((x, now) ∷ xs) t = (from ≤ now) × (now < from + ttl) × InTime ttl now xs t

module _ {A : Type 0} (J : JsonOf A) where
  -- JSON gives these values back
  abbrev pub Reads : List A → Type 0
  Reads [] = Unit
  Reads (x ∷ xs) = (J.loads (J.dumps x) ≡ some x) × Reads xs

  pub load_each-map : (xs : List A) → Reads xs → load_each J (map J.dumps xs) ≡ some xs
  load_each-map [] h = refl
  load_each-map (x ∷ xs) (b, h) = rw (b, load_each-map xs h) refl

  module _ (R : RedisLists) (k : String) (ttl : ℕ) where
    open R use {Server, items}

    abbrev pub push_each : List (A × ℕ) → World Server → World Server
    push_each [] w = w
    push_each ((x, now) ∷ xs) w = push_each xs (push_for R now k (J.dumps x) ttl w).1

    -- each push returned True
    abbrev pub Pushed : List (A × ℕ) → World Server → Type 0
    Pushed [] w = Unit
    Pushed ((x, now) ∷ xs) w =
        ((push_for R now k (J.dumps x) ttl w).0 ≡ got true)
        × Pushed xs (push_for R now k (J.dumps x) ttl w).1

    pub push_each_items :
        (xs : List (A × ℕ)) (w : World Server) (from t : ℕ) (old : List String)
        → ((u : ℕ) → from ≤ u → u < from + ttl → items w.server u k ≡ old)
        → InTime ttl from xs t
        → Pushed xs w
        → items (push_each xs w).server t k ≡ old ++ map J.dumps (map (λ x. x.0) xs)
    push_each_items [] w from t old held (a, b) h = held t a b ∙ sym (append-nil old)
    push_each_items ((x, now) ∷ xs) w from t old held (a, b, rest) (h, hs) =
        push_each_items xs (push_for R now k (J.dumps x) ttl w).1 now t (old ++ J.dumps x ∷ [])
          (λ u c d.
            push_for-true R now k (J.dumps x) ttl w h u c d
            ∙ ap (λ l. l ++ J.dumps x ∷ []) (held now a b))
          rest hs
        ∙ append_assoc old (J.dumps x ∷ []) (map J.dumps (map (λ y. y.0) xs))
