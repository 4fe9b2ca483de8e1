-- ===== src/Lock/Exclusion.antt =====
-- No two workers hold the lease on one incident.
use fastapi_alertengine.Prelude.{
  ℕ, ◌+◌, ◌≤◌, ◌<◌, ◌≡◌, refl, String, true, none, some, List, [], ◌∷◌, arith, All, Option-cases,
  inl, inr,
}
use fastapi_alertengine.Redis.{Redis, Value, text, plain}
use fastapi_alertengine.Redis.Client.{
  Fault, fine, lost_request, lost_reply, got, World, send, catch,
}
use fastapi_alertengine.Lock.{
  Lease, lock_key, get_item, after_set, set_command, try_acquire, acquire_lock,
}
use fastapi_alertengine.Lock.Foreign.{LockCall, IsForeign, Holds, perform_all, perform_all_keeps}

module _ (R : Redis) where
  open R use {Server, peek, set_nx, set_nx_taken, set_nx_free, set_nx_live}

  module _ (i token : String) (ttl now : ℕ) where
    -- A key that is there gives no lease, whatever the network does.
    taken_from :
        (s : Server) (v : Value) (fs : List Fault)
        → peek s now (lock_key i) ≡ some v
        → (acquire_lock R i token ttl now (record { server = s; faults = fs })).0 ≡ got none
    unfolding acquire_lock try_acquire set_command after_set get_item send catch
    taken_from s v [] h = ground (arith, set_nx_taken now (lock_key i) (text token) ttl s h)
    taken_from s v (lost_request ∷ fs) h = refl
    taken_from s v (lost_reply ∷ fs) h = refl
    taken_from s v (fine ∷ []) h =
        ground (arith, set_nx_taken now (lock_key i) (text token) ttl s h)
    taken_from s v (fine ∷ f ∷ fs) h =
        ground (arith, set_nx_taken now (lock_key i) (text token) ttl s h)

    free_from :
        (s : Server) (lease : Lease) (fs : List Fault)
        → peek s now (lock_key i) ≡ none
        → (acquire_lock R i token ttl now (record { server = s; faults = fs })).0 ≡ got (some lease)
        → (lease ≡ record { incident_id = i; token = token; valid = true })
          × ((acquire_lock R i token ttl now (record { server = s; faults = fs })).1.server
              ≡ (set_nx now (lock_key i) (text token) ttl s).1)
    unfolding acquire_lock try_acquire set_command after_set get_item send catch
    free_from s lease [] h g = ground (arith, set_nx_free now (lock_key i) (text token) ttl s h)
    free_from s lease (fine ∷ fs) h g =
        ground (arith, set_nx_free now (lock_key i) (text token) ttl s h)
    free_from s lease (lost_request ∷ fs) h g = cc
    free_from s lease (lost_reply ∷ fs) h g = cc

    taken_gives_none :
        (w : World Server) {v : Value}
        → peek w.server now (lock_key i) ≡ some v
        → (acquire_lock R i token ttl now w).0 ≡ got none
    taken_gives_none w {v} h = taken_from w.server v w.faults h

    granted_free :
        (w : World Server) (lease : Lease)
        → (acquire_lock R i token ttl now w).0 ≡ got (some lease)
        → peek w.server now (lock_key i) ≡ none
    granted_free w lease g = elim (Option-cases (peek w.server now (lock_key i))) [
      | inl e ↦ e
      | inr (v, e) ↦ cc (taken_gives_none w e)
    ]

    -- A lease that `acquire_lock` returns was free before, is valid, names the incident and the token,
    -- and the key of the incident holds the token for the time to live.
    pub acquire_lock_granted :
        (w : World Server) (lease : Lease)
        → (acquire_lock R i token ttl now w).0 ≡ got (some lease)
        → (peek w.server now (lock_key i) ≡ none)
          × (lease ≡ record { incident_id = i; token = token; valid = true })
          × Holds R (lock_key i) token now (now + ttl) (acquire_lock R i token ttl now w).1.server
    acquire_lock_granted w lease g =
        let free = granted_free w lease g in
        let (same, after) = free_from w.server lease w.faults free g in
        (
          free,
          same,
          λ t a b. rw after (set_nx_live now (lock_key i) (text token) ttl w.server t free a b),
        )

  -- While a worker holds the lease on an incident, no other gets it: within the time to live, and after
  -- any calls of other workers with other tokens for this incident, on this and on other incidents,
  -- whatever requests and replies the network loses, an `acquire_lock` of the incident returns None
  -- and the key still holds the first worker's token.
  pub lease_exclusive :
      (i token : String) (ttl now : ℕ) (w : World Server) (lease : Lease)
      → (acquire_lock R i token ttl now w).0 ≡ got (some lease)
      → (cs : List (LockCall × ℕ))
      → All (λ c. IsForeign i token c.0 × (now ≤ c.1) × (c.1 < now + ttl)) cs
      → (token' : String) (ttl' later : ℕ) → now ≤ later
      → later < now + ttl
      → let w' = perform_all R cs (acquire_lock R i token ttl now w).1 in
        ((acquire_lock R i token' ttl' later w').0 ≡ got none)
        × (peek w'.server later (lock_key i) ≡ some (plain (text token)))
  lease_exclusive i token ttl now w lease g cs f token' ttl' later a b =
      let held =
        perform_all_keeps R i token now (now + ttl) cs _ f
          (acquire_lock_granted i token ttl now w lease g).2 later a b in
      (taken_gives_none i token' ttl' later _ held, held)
