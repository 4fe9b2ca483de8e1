-- ===== src/Idempotency/Race.antt =====
-- Two workers that claim one action at the same time: the commands of `claim_action` interleaved.
use fastapi_alertengine.Prelude.{ℕ, ◌≡◌, String, Bool, true, false, none, List, [], ◌∷◌, arith, ◌⊎◌}
use fastapi_alertengine.Redis.{Redis, Item, text}
use fastapi_alertengine.Redis.Client.{Reply, got, raised, send, catch}
use fastapi_alertengine.Idempotency.{
  action_ttl, marker_key, claim_payload, place, remove, write, keep_for, convert, claim_action,
}

-- How far a worker is in `claim_action`: the command that it sends next, or what it returned.
pub data Pc : Type 0 where
  ready placed removed written : Pc
  returned : Bool → Pc

pub record Pair (S : Type 0) : Type 0 where
  pub server : S
  pub first : Pc
  pub second : Pc

pub data Worker : Type 0 where
  a b : Worker

module _ (R : Redis) (action_id meta : String) (now : ℕ) where
  open R use {
    Server, peek, set_nx, set_nx_live, set_nx_free, del, del_gone, hset, hset_new, expire,
    expire_live,
  }

  abbrev key : String
  key = marker_key action_id

  abbrev fields : List (String × Item)
  fields = claim_payload action_id meta now

  abbrev after_write : Reply (Unit {0}) → Pc
  after_write (got u) = written
  after_write raised = returned false

  abbrev after_place : Reply Bool → Pc
  after_place (got true) = placed
  after_place _ = returned false

  -- The next command of a worker, on a network with no faults.
  unfoldable pub step : Pc → Server → Pc × Server
  step ready s = let (r, s') = place R now key s in (after_place r, s')
  step placed s = (removed, (remove R now key s).1)
  step removed s = let (r, s') = write R now key fields s in (after_write r, s')
  step written s = (returned true, (keep_for R now key action_ttl s).1)
  step (returned r) s = (returned r, s)

  -- One worker's command in the system of both.
  unfoldable pub move : Worker → Pair Server → Pair Server
  move a p = let (pc, s) = step p.first p.server in record p { server = s; first = pc }
  move b p = let (pc, s) = step p.second p.server in record p { server = s; second = pc }

  unfoldable pub schedule : List Worker → Pair Server → Pair Server
  schedule [] p = p
  schedule (w ∷ ws) p = schedule ws (move w p)

  abbrev pub start : Server → Pair Server
  start s = record { server = s; first = ready; second = ready }

  -- `claim_action` is its four commands, with no other worker's between them.
  pub claim_action_steps :
      (s : Server)
      → let p = schedule (a ∷ a ∷ a ∷ a ∷ []) (start s) in
        let (r, w) = claim_action R action_id meta now (record { server = s; faults = [] }) in
        (p.server ≡ w.server)
        × ((p.first ≡ returned true) × (r ≡ got true)
            ⊎ (p.first ≡ returned false) × (r ≡ got false))
  unfolding schedule move step claim_action convert place remove write keep_for send catch
  claim_action_steps s =
      let x = text "__claimed__" in
      ground (arith, del_gone now key (set_nx now key x action_ttl s).1 now)

  -- The race: from a server with no marker, a schedule of the two workers' commands in which each
  -- removes the placeholder of the other ends with both claims returning True.
  pub claim_race :
      (s : Server)
      → peek s now (marker_key action_id) ≡ none
      → let p = schedule (a ∷ a ∷ b ∷ b ∷ a ∷ a ∷ b ∷ b ∷ []) (start s) in
        (p.first ≡ returned true) × (p.second ≡ returned true)
  unfolding schedule move step place remove write keep_for
  claim_race s free =
      let x = text "__claimed__" in
      let s₁ = (set_nx now key x action_ttl s).1 in
      let s₃ = (set_nx now key x action_ttl (del now key s₁)).1 in
      let s₄ = del now key s₃ in
      let fresh = hset_new now key fields s₄ now (del_gone now key s₃ now) (omega arith) in
      ground (
        arith,
        set_nx_free now key x action_ttl s free,
        set_nx_free now key x action_ttl (del now key s₁) (del_gone now key s₁ now),
        del_gone now key s₃ now,
        fresh,
        expire_live now key action_ttl (hset now key fields s₄) now fresh (omega arith)
            (omega arith),
      )
