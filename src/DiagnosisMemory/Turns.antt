-- ===== src/DiagnosisMemory/Turns.antt =====
-- What the memory holds after some turns: the last three.
use mathlib.Core.List.{append-nil, append_assoc}
use fastapi_alertengine.Prelude.{
  map, ℕ, zero, suc, ◌+◌, ◌≤◌, ◌<◌, ◌≡◌, refl, sym, ap, ◌∙◌, String, some, List, [], ◌∷◌, ◌++◌,
}
use fastapi_alertengine.Redis.Client.{got, World, send, catch}
use fastapi_alertengine.Redis.Lists.{RedisLists, first}
use fastapi_alertengine.Redis.ListCalls.{keep_for, range}
use fastapi_alertengine.Redis.Texts.{InTime}
use fastapi_alertengine.DiagnosisMemory.{
  Entry, Json, Message, max_history, history_ttl, history_key, reverse, push_front, trim,
  record_turn, messages_of, build_history_messages, messages_for,
}

-- a turn with its time
abbrev pub Turn : Type 0
Turn = Entry × ℕ

first_less : {A : Type 0} (n : ℕ) (xs : List A) → first n (first (suc n) xs) ≡ first n xs
first_less zero xs = refl
first_less (suc n) [] = refl
first_less (suc n) (x ∷ xs) = ap (λ l. x ∷ l) (first_less n xs)

first_cons :
    {A : Type 0} (n : ℕ) (x : A) (xs : List A) → first n (x ∷ first n xs) ≡ first n (x ∷ xs)
first_cons zero x xs = refl
first_cons (suc n) x xs = ap (λ l. x ∷ l) (first_less n xs)

first-map :
    {A B : Type 0} (f : A → B) (n : ℕ) (xs : List A) → first n (map f xs) ≡ map f (first n xs)
first-map f zero xs = refl
first-map f (suc n) [] = refl
first-map f (suc n) (x ∷ xs) = ap (λ l. f x ∷ l) (first-map f n xs)

map-append : {A B : Type 0} (f : A → B) (xs ys : List A) → map f (xs ++ ys) ≡ map f xs ++ map f ys
map-append f [] ys = refl
map-append f (x ∷ xs) ys = ap (λ l. f x ∷ l) (map-append f xs ys)

reverse-map : {A B : Type 0} (f : A → B) (xs : List A) → reverse (map f xs) ≡ map f (reverse xs)
unfolding reverse
reverse-map f [] = refl
reverse-map f (x ∷ xs) =
    ap (λ l. l ++ f x ∷ []) (reverse-map f xs) ∙ sym (map-append f (reverse xs) (x ∷ []))

-- the texts newest first, on top of older ones
abbrev pub stacked : {A : Type 0} → List A → List A → List A
stacked [] old = old
stacked (x ∷ xs) old = stacked xs (x ∷ old)

stacked_lem : {A : Type 0} (xs old : List A) → stacked xs old ≡ reverse xs ++ old
unfolding reverse
stacked_lem [] old = refl
stacked_lem (x ∷ xs) old = stacked_lem xs (x ∷ old) ∙ sym (append_assoc (reverse xs) (x ∷ []) old)

-- the last items of a list
abbrev pub last : {A : Type 0} → ℕ → List A → List A
last n xs = reverse (first n (reverse xs))

module _ (R : RedisLists) (J : Json) (incident_id : String) where
  open R use {Server, items, lpush, ltrim, expire, lpush_now, ltrim_now, expire_live}

  -- a server and a network without faults
  abbrev pub world : Server → World Server
  world s = record { server = s; faults = [] }

  abbrev pub turned : Entry → ℕ → Server → Server
  turned e now s = (record_turn R J incident_id e now (world s)).1.server

  turned_items :
      (e : Entry) (now : ℕ) (s : Server) (t : ℕ)
      → now ≤ t
      → t < now + history_ttl
      → items (turned e now s) t (history_key incident_id)
        ≡ first max_history (J.dumps e ∷ items s now (history_key incident_id))
  unfolding record_turn push_front trim keep_for send catch
  turned_items e now s t a b =
      let k = history_key incident_id in
      expire_live now k history_ttl _ t a b
      ∙ ltrim_now now k max_history _
      ∙ ap (first max_history) (lpush_now now k (J.dumps e) s)

  abbrev pub run : List Turn → Server → Server
  run [] s = s
  run ((e, now) ∷ turns) s = run turns (turned e now s)

  abbrev entries : List Turn → List Entry
  entries turns = map (λ x. x.0) turns

  remembered :
      (turns : List Turn) (s : Server) (from t : ℕ) (old : List String)
      → ((u : ℕ)
          → from ≤ u
          → u < from + history_ttl
          → items s u (history_key incident_id) ≡ first max_history old)
      → InTime history_ttl from turns t
      → items (run turns s) t (history_key incident_id)
        ≡ first max_history (stacked (map J.dumps (entries turns)) old)
  remembered [] s from t old held (a, b) = held t a b
  remembered ((e, now) ∷ turns) s from t old held (a, b, rest) =
      remembered turns (turned e now s) now t (J.dumps e ∷ old)
        (λ u c d.
          turned_items e now s u c d
          ∙ ap (λ l. first max_history (J.dumps e ∷ l)) (held now a b)
          ∙ first_cons max_history (J.dumps e) old)
        rest

  abbrev pub said : List Entry → List Message
  said [] = []
  said (e ∷ es) = messages_for R J (some e) ++ said es

  -- JSON gives these entries back
  abbrev pub Reads : List Entry → Type 0
  Reads [] = Unit
  Reads (e ∷ es) = (J.loads (J.dumps e) ≡ some e) × Reads es

  Reads-append : (es fs : List Entry) → Reads es → Reads fs → Reads (es ++ fs)
  Reads-append [] fs h k = k
  Reads-append (e ∷ es) fs (b, h) k = (b, Reads-append es fs h k)

  reverse-Reads : (es : List Entry) → Reads es → Reads (reverse es)
  unfolding reverse
  reverse-Reads [] h = tt
  reverse-Reads (e ∷ es) (b, h) = Reads-append (reverse es) (e ∷ []) (reverse-Reads es h) (b, tt)

  first-Reads : (n : ℕ) (es : List Entry) → Reads es → Reads (first n es)
  first-Reads zero es h = tt
  first-Reads (suc n) [] h = tt
  first-Reads (suc n) (e ∷ es) (b, h) = (b, first-Reads n es h)

  messages_said : (es : List Entry) → Reads es → messages_of R J (map J.dumps es) ≡ said es
  unfolding messages_of
  messages_said [] h = refl
  messages_said (e ∷ es) (b, h) = rw (b, messages_said es h) refl

  -- After turns that each come within a day of the one before, on an incident without a history, the messages are those of the
  -- last three turns in the order they were recorded, if JSON gives the texts back.
  pub history_last :
      (turns : List Turn) (s : Server) (from t : ℕ)
      → Reads (map (λ x. x.0) turns)
      → ((u : ℕ) → items s u (history_key incident_id) ≡ [])
      → InTime history_ttl from turns t
      → (build_history_messages R J incident_id t (world (run turns s))).0
        ≡ got (said (last max_history (map (λ x. x.0) turns)))
  unfolding build_history_messages range send catch
  history_last turns s from t back empty timely =
      let es = entries turns in
      let texts = map J.dumps es in
      let held = remembered turns s from t [] (λ u a b. empty u) timely in
      ap (λ ts. got (messages_of R J (reverse ts)))
        (held
          ∙ ap (first max_history)
              (stacked_lem texts [] ∙ append-nil (reverse texts) ∙ reverse-map J.dumps es)
          ∙ first-map J.dumps max_history (reverse es))
      ∙ ap (λ ts. got (messages_of R J ts)) (reverse-map J.dumps (first max_history (reverse es)))
      ∙ ap got (
          messages_said (last max_history es) (
            reverse-Reads (first max_history (reverse es))
              (first-Reads max_history (reverse es) (reverse-Reads es back))))
