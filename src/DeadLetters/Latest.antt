-- ===== src/DeadLetters/Latest.antt =====
-- What the queue gives back: the latest failures, oldest first, and their number.
use fastapi_alertengine.Prelude.{
  ◌⊎◌, inl, inr, ◌≤◌, ℕ, suc, ◌-◌, ◌≡◌, refl, ap, ◌∙◌, true, some, List, [], ◌∷◌, ◌++◌, map, arith,
  length, length-append,
}
use fastapi_alertengine.Redis.Client.{got, handle, World, pure, send, catch}
use fastapi_alertengine.Redis.Lists.{RedisLists}
use fastapi_alertengine.Redis.ListCalls.{range}
use fastapi_alertengine.Redis.Texts.{
  JsonOf, load_each, reply_with, InTime, Reads, load_each-map, push_each, Pushed, push_each_items,
}
use fastapi_alertengine.DeadLetters.{
  Failure, Entry, entry_of, drop, from_end, dlq_key, dlq_ttl, push, parse, get_all, count_items,
  get_count,
}

-- a failure with its time
abbrev pub Timed : Type 0
Timed = Failure × ℕ

drop_all : {A : Type 0} (xs ys : List A) → drop (length xs) (xs ++ ys) ≡ ys
drop_all [] ys = refl
drop_all (x ∷ xs) ys = drop_all xs ys

-- the newer ones are as many as the limit, or fewer, and then they are all
abbrev pub AreLatest : {A : Type 0} → ℕ → List A → List A → Type 0
AreLatest limit older newer = (length newer ≡ limit) ⊎ ((length older ≡ 0) × (length newer ≤ limit))

from_end-append :
    {A : Type 0} (n : ℕ) (xs ys : List A)
    → AreLatest (suc n) xs ys
    → from_end (suc n) (xs ++ ys) ≡ ys
from_end-append n xs ys h = ap (λ m. drop m (xs ++ ys)) (cut h) ∙ drop_all xs ys
  where
    cut : AreLatest (suc n) xs ys → length (xs ++ ys) - suc n ≡ length xs
    cut (inl full) = omega (arith, length-append xs ys, full)
    cut (inr (none_older, few)) = omega (arith, length-append xs ys, none_older, few)

abbrev pub entries : List Timed → List (Entry × ℕ)
entries [] = []
entries ((f, now) ∷ xs) = (entry_of f now, now) ∷ entries xs

abbrev pub values : List Timed → List Entry
values [] = []
values ((f, now) ∷ xs) = entry_of f now ∷ values xs

values-entries : (xs : List Timed) → map (λ x. x.0) (entries xs) ≡ values xs
values-entries [] = refl
values-entries ((f, now) ∷ xs) = ap (λ l. entry_of f now ∷ l) (values-entries xs)

module _ (R : RedisLists) (J : JsonOf Entry) where
  open R use {Server, items}

  -- the calls of `push`, one after the other
  abbrev pub fail_each : List Timed → World Server → World Server
  fail_each [] w = w
  fail_each ((f, now) ∷ xs) w = fail_each xs (push R J f now w).1

  -- each of them returned True
  abbrev pub Kept : List Timed → World Server → Type 0
  Kept [] w = Unit
  Kept ((f, now) ∷ xs) w = ((push R J f now w).0 ≡ got true) × Kept xs (push R J f now w).1

  Kept-pushes :
      (xs : List Timed) (w : World Server)
      → Kept xs w
      → Pushed J R dlq_key dlq_ttl (entries xs) w
        × (fail_each xs w ≡ push_each J R dlq_key dlq_ttl (entries xs) w)
  unfolding push
  Kept-pushes [] w h = (tt, refl)
  Kept-pushes ((f, now) ∷ xs) w (h, hs) =
      let (pushed, same) = Kept-pushes xs (push R J f now w).1 hs in ((h, pushed), same)

  length-values : (xs : List Timed) → length (map J.dumps (values xs)) ≡ length xs
  length-values [] = refl
  length-values ((f, now) ∷ xs) = ap (λ n. suc n) (length-values xs)

  AreLatest-values :
      (n : ℕ) (xs ys : List Timed)
      → AreLatest (suc n) xs ys
      → AreLatest (suc n) (map J.dumps (values xs)) (map J.dumps (values ys))
  AreLatest-values n xs ys (inl full) = inl (length-values ys ∙ full)
  AreLatest-values n xs ys (inr (none_older, few)) =
      inr (length-values xs ∙ none_older, omega (arith, length-values ys, few))

  texts_split :
      (xs ys : List Timed)
      → map J.dumps (values (xs ++ ys)) ≡ map J.dumps (values xs) ++ map J.dumps (values ys)
  texts_split [] ys = refl
  texts_split ((f, now) ∷ xs) ys = ap (λ l. J.dumps (entry_of f now) ∷ l) (texts_split xs ys)

  texts_kept :
      (xs : List Timed) (w : World Server) (from t : ℕ)
      → ((u : ℕ) → items w.server u dlq_key ≡ [])
      → InTime dlq_ttl from (entries xs) t
      → Kept xs w
      → items (fail_each xs w).server t dlq_key ≡ map J.dumps (values xs)
  texts_kept xs w from t empty timely h =
      let (pushed, same) = Kept-pushes xs w h in
      ap (λ v. items v.server t dlq_key) same
      ∙ push_each_items J R dlq_key dlq_ttl (entries xs) w from t [] (λ u a b. empty u) timely
          pushed
      ∙ ap (map J.dumps) (values-entries xs)

  -- Failures pushed in time on an empty queue are counted, and get_all returns the latest of them, as many as the limit, which is
  -- not 0, or all where they are fewer, oldest first, if JSON gives them back and Redis answers.
  pub get_all_latest :
      (older newer : List Timed) (w : World Server) (from t n : ℕ)
      → AreLatest (suc n) older newer
      → Reads J (values newer)
      → ((u : ℕ) → items w.server u dlq_key ≡ [])
      → InTime dlq_ttl from (entries (older ++ newer)) t
      → Kept (older ++ newer) w
      → let w' : World Server = record {
        server = (fail_each (older ++ newer) w).server;
        faults = [];
      } in
        ((get_all R J (suc n) t w').0 ≡ got (values newer))
        × ((get_count R J t w').0 ≡ got (some (length (older ++ newer))))
  unfolding get_all get_count count_items parse range send catch
  get_all_latest older newer w from t n size back empty timely h =
      let w' : World Server = record {
        server = (fail_each (older ++ newer) w).server;
        faults = [];
      } in
      let texts = texts_kept (older ++ newer) w from t empty timely h in
      (
        ap
              (λ ts.
                (handle {S = Server} (reply_with (load_each J (from_end (suc n) ts))) (pure [])
                  w').0)
              (texts ∙ texts_split older newer)
            ∙ ap (λ ts. (handle {S = Server} (reply_with (load_each J ts)) (pure []) w').0)
                (from_end-append n (map J.dumps (values older)) (map J.dumps (values newer))
                  (AreLatest-values n older newer size))
            ∙ ap (λ o. (handle {S = Server} (reply_with o) (pure []) w').0)
                (load_each-map J (values newer) back),
        ap (λ ts. got (some (length ts))) texts
            ∙ ap (λ m. got (some m)) (length-values (older ++ newer)),
      )
