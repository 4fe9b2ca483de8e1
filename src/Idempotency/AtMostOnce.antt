-- ===== src/Idempotency/AtMostOnce.antt =====
-- However often `execute_once` is called for an action, its function runs at most once.
use fastapi_alertengine.Prelude.{
  ℕ, ◌+◌, ◌≤◌, ◌<◌, ◌≡◌, refl, String, Bool, true, false, Option, none, some, List, [], ◌∷◌, arith,
  Option-cases, inl, inr,
}
use fastapi_alertengine.Redis.{Redis, Item, Hash, hash, write_fields}
use fastapi_alertengine.Redis.Client.{Reply, got, raised, World}
use fastapi_alertengine.Redis.Keeps.{CommandKeeps, Keeps, keeps_rules}
use fastapi_alertengine.Idempotency.{
  action_ttl, marker_key, make_action_id, status_updates, write, exists, claim_action,
  update_existing, update_status, Outcome, skipped, executed, failed, after_claim, execute_once,
}
use fastapi_alertengine.Idempotency.Claims.{claim_taken, claim_action_marks}

module _ (R : Redis) where
  open R use {Server, peek, hset, hset_live}

  -- The marker of an action is a hash, and stays there from a time up to another.
  abbrev pub Marked : String → ℕ → ℕ → Server → Type 0
  Marked key from upto s =
      (m : Hash) × ((t : ℕ) → from ≤ t → t < upto → peek s t key ≡ some (hash m))

  module _ (key : String) (now upto : ℕ) (later : now < upto) where
    write-Marked :
        (fs : List (String × Item)) → CommandKeeps (Marked key now upto) (write R now key fs)
    unfolding write
    write-Marked fs s (m, h) = (
      write_fields m fs,
      λ t a b.
          ground (arith, h now, hset_live now key fs s t m (h now (omega arith) later) a (h t a b)),
    )

    exists_Marked : CommandKeeps (Marked key now upto) (exists R now key)
    unfolding exists
    exists_Marked s h = h

  -- A marker that is there stays there through `update_status`, whatever the network does.
  module _ (action_id status : String) (error : Option String) (now upto : ℕ)
      (later : now < upto) where
    update_existing-Marked :
        (b : Bool)
        → Keeps
            (Marked (marker_key action_id) now upto)
            (update_existing R action_id status error now b)
    unfolding update_existing
    update_existing-Marked false = search keeps_rules
    update_existing-Marked true = search (
      keeps_rules,
      write-Marked (marker_key action_id) now upto later (status_updates status error now),
    )

    update_status-Marked :
        Keeps (Marked (marker_key action_id) now upto) (update_status R action_id status error now)
    unfolding update_status
    update_status-Marked =
        search
          (keeps_rules, exists_Marked (marker_key action_id) now upto later, update_existing-Marked)

-- The times of the calls of one action: each call starts after the one before it has ended, and ends
-- before `upto`.
abbrev pub InOrder : ℕ → ℕ → List (ℕ × ℕ) → Type 0
InOrder from upto [] = Unit
InOrder from upto ((now, later) ∷ ts) =
    (from ≤ now) × (now ≤ later) × (later < upto) × InOrder later upto ts

-- whether the function was called
abbrev pub ran : Outcome → ℕ
ran skipped = 0
ran executed = 1
ran (failed text) = 1

module _ (R : Redis) {E : Type 0} (fn : E → Option String × E) (digest : String → String)
    (incident_id stage action_type meta : String) where
  open R use {Server, peek}

  abbrev action_id : String
  action_id = make_action_id digest incident_id stage action_type

  abbrev call : ℕ → ℕ → E → World Server → Outcome × E × World Server
  call = execute_once R fn digest incident_id stage action_type meta

  -- How often the function runs in calls at the given times.
  pub runs : List (ℕ × ℕ) → E → World Server → ℕ
  runs [] e w = 0
  runs ((now, later) ∷ ts) e w =
      let (outcome, e', w') = call now later e w in ran outcome + runs ts e' w'

  call_cases :
      (P : Outcome × E × World Server → Type 0) (now later : ℕ) (e : E) (w : World Server)
      → ((claim_action R action_id meta now w).0 ≡ got true
          → P (
              after_claim R fn action_id later
                (got true)
                e
                (claim_action R action_id meta now w).1))
      → P (skipped, e, (claim_action R action_id meta now w).1)
      → P (call now later e w)
  unfolding execute_once after_claim
  call_cases P now later e w = from_reply (claim_action R action_id meta now w).0
    where
      from_reply :
          (r : Reply Bool)
          → (r ≡ got true
              → P (
                  after_claim R fn action_id later
                    (got true)
                    e
                    (claim_action R action_id meta now w).1))
          → P (skipped, e, (claim_action R action_id meta now w).1)
          → P (after_claim R fn action_id later r e (claim_action R action_id meta now w).1)
      from_reply (got true) granted refused = granted refl
      from_reply (got false) granted refused = refused
      from_reply raised granted refused = refused

  -- the function runs, and the marker is there after
  after_claim-Marked :
      (now later upto : ℕ) (e : E) (w : World Server)
      → now ≤ later
      → later < upto
      → Marked R (marker_key action_id) now upto w.server
      → Marked R
          (marker_key action_id)
          later
          upto
          (after_claim R fn action_id later (got true) e w).2.server
  unfolding after_claim
  after_claim-Marked now later upto e w a b (m, h) =
      let kept : Marked R (marker_key action_id) later upto w.server =
        (m, λ t c d. h t (omega arith) d) in
      elim (Option-cases (fn e).0) [
        | inl q ↦
            rw (q, after_claim)
              ((update_status-Marked R action_id "success" none later upto b).at w kept)
        | inr (cause, q) ↦
            rw (q, after_claim)
              ((update_status-Marked R action_id "failed" (some cause) later upto b).at w kept)
      ]

  ran-le : (o : Outcome) → ran o ≤ 1
  ran-le o = ground arith

  Marked-runs_zero :
      (ts : List (ℕ × ℕ)) (from upto : ℕ) (e : E) (w : World Server)
      → InOrder from upto ts
      → Marked R (marker_key action_id) from upto w.server
      → runs ts e w ≡ 0
  unfolding runs
  Marked-runs_zero [] from upto e w o h = refl
  Marked-runs_zero ((now, later) ∷ ts) from upto e w (a, b, c, o) (m, h) =
      let (denied, same) =
        claim_taken R action_id meta now w.server (hash m) w.faults (h now a (omega arith)) in
      call_cases (λ r. ran r.0 + runs ts r.1 r.2 ≡ 0) now later e w
        (λ granted. cc (granted, denied))
        (omega (
          arith,
          Marked-runs_zero ts later upto e (claim_action R action_id meta now w).1 o
              (m, λ t p q. rw same (h t (omega arith) q)),
        ))

  runs_at_most_once_within :
      (ts : List (ℕ × ℕ)) (from upto : ℕ) (e : E) (w : World Server)
      → upto ≤ from + action_ttl
      → InOrder from upto ts
      → runs ts e w ≤ 1
  unfolding runs
  runs_at_most_once_within [] from upto e w u o = omega arith
  runs_at_most_once_within ((now, later) ∷ ts) from upto e w u (a, b, c, o) =
      call_cases (λ r. ran r.0 + runs ts r.1 r.2 ≤ 1) now later e w
        (λ granted.
          let marks = (claim_action_marks R action_id meta now w granted).1 in
          let w' = (claim_action R action_id meta now w).1 in
          let (outcome, e', w₂) = after_claim R fn action_id later (got true) e w' in
          let marked =
            after_claim-Marked now later upto e w' b c (_, λ t p q. marks t p (omega arith)) in
          omega (arith, ran-le outcome, Marked-runs_zero ts later upto e' w₂ o marked))
        (omega (arith, runs_at_most_once_within ts later upto e _ (omega arith) o))

  -- At most once: in any calls of `execute_once` for one action, each after the one before it has
  -- ended and all within the time to live of the first, the function runs at most once, whatever it
  -- does itself, whether it raises, and whatever requests and replies the network loses.
  pub runs_at_most_once :
      (ts : List (ℕ × ℕ)) (from : ℕ) (e : E) (w : World Server)
      → InOrder from (from + action_ttl) ts
      → runs ts e w ≤ 1
  runs_at_most_once ts from e w o =
      runs_at_most_once_within ts from (from + action_ttl) e w (omega arith) o
