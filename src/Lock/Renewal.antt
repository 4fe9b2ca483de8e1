-- ===== src/Lock/Renewal.antt =====
-- Release and renewal of a lease, and the renewer's loop.
use fastapi_alertengine.Prelude.{
  ℕ, ◌+◌, ◌≡◌, refl, String, Bool, true, false, Option, none, some, List, [], ◌∷◌, arith, eq_iff,
  ◌&&◌, ◌⊎◌, inl, inr,
}
use fastapi_alertengine.Redis.{Redis, Value, text, number, plain, hash}
use fastapi_alertengine.Redis.Client.{
  Fault, fine, lost_request, lost_reply, Reply, got, raised, World, send, catch,
}
use fastapi_alertengine.Lock.{
  Lease, lock_key, is_token, owns, release_script, release_lock, renew_script, renew_lock,
  invalidate, auto_renew_loop,
}
use fastapi_alertengine.Lock.Foreign.{Holds}

is_token_eq :
    (o : Option Value) (token : String) → is_token o token ≡ true → o ≡ some (plain (text token))
is_token_eq (some (plain (text v))) token h = ground (arith, eq_iff v token)
is_token_eq none token h = cc
is_token_eq (some (plain (number n))) token h = cc
is_token_eq (some (hash m)) token h = cc

module _ (R : Redis) where
  open R use {Server, peek, del, del_gone, expire, expire_live}

  owned :
      (s : Server) (now : ℕ) (key token : String)
      → owns R s now key token ≡ true
      → peek s now key ≡ some (plain (text token))
  unfolding owns
  owned s now key token h = is_token_eq (peek s now key) token h

  module _ (lease : Lease) (now : ℕ) where
    released_from :
        (s : Server) (fs : List Fault)
        → (release_lock R lease now (record { server = s; faults = fs })).0 ≡ got true
        → (owns R s now (lock_key lease.incident_id) lease.token ≡ true)
          × ((release_lock R lease now (record { server = s; faults = fs })).1.server
              ≡ del now (lock_key lease.incident_id) s)
    unfolding release_lock release_script send catch
    released_from s [] h = ground arith
    released_from s (fine ∷ fs) h = ground arith
    released_from s (lost_request ∷ fs) h = cc
    released_from s (lost_reply ∷ fs) h = cc

    renewed_from :
        (ttl : ℕ) (s : Server) (fs : List Fault) (lease' : Lease)
        → (renew_lock R lease ttl now (record { server = s; faults = fs })).0 ≡ got (lease', true)
        → (lease' ≡ lease)
          × (owns R s now (lock_key lease.incident_id) lease.token ≡ true)
          × ((renew_lock R lease ttl now (record { server = s; faults = fs })).1.server
              ≡ expire now (lock_key lease.incident_id) ttl s)
    unfolding renew_lock renew_script send catch
    renewed_from ttl s [] lease' h = ground arith
    renewed_from ttl s (fine ∷ fs) lease' h = ground arith
    renewed_from ttl s (lost_request ∷ fs) lease' h = cc
    renewed_from ttl s (lost_reply ∷ fs) lease' h = cc

    refused_from :
        (ttl : ℕ) (s : Server) (fs : List Fault)
        → (lease' : Lease) (b : Bool)
        → (renew_lock R lease ttl now (record { server = s; faults = fs })).0 ≡ got (lease', b)
        → b ≡ false
        → lease' ≡ invalidate lease
    unfolding renew_lock renew_script send catch
    refused_from ttl s [] lease' b h e = ground arith
    refused_from ttl s (fine ∷ fs) lease' b h e = ground arith
    refused_from ttl s (lost_request ∷ fs) lease' b h e = ground arith
    refused_from ttl s (lost_reply ∷ fs) lease' b h e = ground arith

    -- A `release_lock` that returns True was by the owner: the key held the lease's token before, and is
    -- gone after.
    pub release_lock_owner :
        (w : World Server)
        → (release_lock R lease now w).0 ≡ got true
        → (peek w.server now (lock_key lease.incident_id) ≡ some (plain (text lease.token)))
          × ((t : ℕ)
              → peek (release_lock R lease now w).1.server t (lock_key lease.incident_id) ≡ none)
    release_lock_owner w h =
        let (mine, after) = released_from w.server w.faults h in
        (
          owned w.server now _ _ mine,
          λ t. rw after (del_gone now (lock_key lease.incident_id) w.server t),
        )

    renew_lock-true :
        (ttl : ℕ) (w : World Server) (lease' : Lease)
        → (renew_lock R lease ttl now w).0 ≡ got (lease', true)
        → (lease' ≡ lease)
          × Holds R
              (lock_key lease.incident_id)
              lease.token
              now
              (now + ttl)
              (renew_lock R lease ttl now w).1.server
    renew_lock-true ttl w lease' h =
        let (same, mine, after) = renewed_from ttl w.server w.faults lease' h in
        (
          same,
          λ t a b. rw after (
              expire_live now (lock_key lease.incident_id) ttl w.server t
                (owned w.server now _ _ mine) a b),
        )

    -- After `renew_lock` the lease is valid exactly where it was valid and the call returned True, and
    -- then the key holds its token for the new time to live; a call that returns False or that meets
    -- an error of the network leaves an invalid lease.
    pub renew_lock_valid :
        (ttl : ℕ) (w : World Server) (lease' : Lease) (b : Bool)
        → (renew_lock R lease ttl now w).0 ≡ got (lease', b)
        → (lease'.valid ≡ lease.valid && b)
          × (lease'.valid ≡ true
              → Holds R
                  (lock_key lease.incident_id)
                  lease.token
                  now
                  (now + ttl)
                  (renew_lock R lease ttl now w).1.server)
    unfolding invalidate
    renew_lock_valid ttl w lease' true h =
        let (same, held) = renew_lock-true ttl w lease' h in (ground (arith, same), λ _. held)
    renew_lock_valid ttl w lease' false h =
        let lost = refused_from ttl w.server w.faults lease' false h refl in
        (ground (arith, lost), λ v. cc (lost, v))

  abbrev pub last_wake : ℕ → List ℕ → ℕ
  last_wake t [] = t
  last_wake t (u ∷ us) = last_wake u us

  Reply-cases :
      (r : Reply (Lease × Bool)) → (r ≡ raised) ⊎ ((l : Lease) × (b : Bool) × (r ≡ got (l, b)))
  Reply-cases raised = inl refl
  Reply-cases (got (l, b)) = inr (l, b, refl)

  module _ (lease : Lease) (ttl t : ℕ) (wakes : List ℕ) (w : World Server) where
    -- The loop goes on only from a valid lease that `renew_lock` renewed.
    loop_cases :
        (lease' : Lease)
        → (auto_renew_loop R lease ttl (t ∷ wakes) w).0 ≡ got lease'
        → lease'.valid ≡ true
        → auto_renew_loop R lease ttl (t ∷ wakes) w
            ≡ auto_renew_loop R lease ttl wakes (renew_lock R lease ttl t w).1
          × ((renew_lock R lease ttl t w).0 ≡ got (lease, true))
    unfolding auto_renew_loop invalidate
    loop_cases lease' h v = elim (Reply-cases (renew_lock R lease ttl t w).0) [
      | inl e ↦ ground arith
      | inr (l, true, e) ↦
          let same = renew_lock-true lease t ttl w l e in (ground (arith, same.0), cc (e, same.0))
      | inr (l, false, e) ↦ ground (arith, refused_from lease t ttl w.server w.faults l false e)
    ]

  -- A lease that is still valid after the renewer's loop has woken up one or more times is one whose
  -- key holds its token, from the last of the times on, for the whole time to live.
  pub auto_renew_valid :
      (lease lease' : Lease) (ttl t : ℕ) (wakes : List ℕ) (w : World Server)
      → (auto_renew_loop R lease ttl (t ∷ wakes) w).0 ≡ got lease'
      → lease'.valid ≡ true
      → Holds R
          (lock_key lease.incident_id)
          lease.token
          (last_wake t wakes)
          (last_wake t wakes + ttl)
          (auto_renew_loop R lease ttl (t ∷ wakes) w).1.server
  unfolding auto_renew_loop
  auto_renew_valid lease lease' ttl t [] w h v =
      let (on, e) = loop_cases lease ttl t [] w lease' h v in
      rw on (renew_lock-true lease t ttl w lease e).1
  auto_renew_valid lease lease' ttl t (u ∷ us) w h v =
      let (on, e) = loop_cases lease ttl t (u ∷ us) w lease' h v in
      rw on (auto_renew_valid lease lease' ttl u us _ (rw on at h) v)
