-- ===== src/Lock/Foreign.antt =====
-- A key that holds a worker's token keeps it through the calls of other workers.
use package.text.Mathlib.TextLemmas.{append_cancel_left}
use fastapi_alertengine.Prelude.{
  ℕ, ◌≤◌, ◌<◌, ◌≡◌, ◌≢◌, String, Bool, true, false, some, List, [], ◌∷◌, eq_iff, arith, All,
}
use fastapi_alertengine.Redis.{Redis, text, plain}
use fastapi_alertengine.Redis.Client.{World}
use fastapi_alertengine.Redis.Keeps.{
  CommandKeeps, Keeps, Keeps-pure, Keeps-send, Keeps-catch, keeps_rules,
}
use fastapi_alertengine.Lock.{
  Lease, lock_key, get_item, after_set, set_command, try_acquire, acquire_lock, release_script,
  release_lock, renew_script, renew_lock, is_locked,
}

-- Locks of two incidents have two keys.
pub lock_key_injective : (a b : String) → lock_key a ≡ lock_key b → a ≡ b
lock_key_injective a b h = append_cancel_left "orchestrator:lock:" a b h

-- A call that another worker makes.
pub data LockCall : Type 0 where
  acquires : String → String → ℕ → LockCall
  releases : Lease → LockCall
  renews : Lease → ℕ → LockCall
  checks : String → LockCall

-- A release or a renewal by a lease on this incident is by one with another token.
abbrev pub IsForeign : String → String → LockCall → Type 0
IsForeign incident_id token (releases l) = l.incident_id ≡ incident_id → l.token ≢ token
IsForeign incident_id token (renews l ttl) = l.incident_id ≡ incident_id → l.token ≢ token
IsForeign incident_id token _ = Unit

module _ (R : Redis) where
  open R use {
    Server, peek, set_nx, set_nx_taken, set_nx_free, set_nx_live, set_nx_frame, del_frame,
    expire_frame,
  }

  -- The key of the incident holds the token, from a time up to another.
  abbrev pub Holds : String → String → ℕ → ℕ → Server → Type 0
  Holds key token from upto s =
      (t : ℕ) → from ≤ t → t < upto → peek s t key ≡ some (plain (text token))

  module _ (key token : String) (from upto : ℕ) where
    set_command_keeps :
        (now : ℕ) (k v : String) (ttl : ℕ)
        → from ≤ now
        → now < upto
        → CommandKeeps (Holds key token from upto) (set_command R now k v ttl)
    unfolding set_command
    set_command_keeps now k v ttl a b s h t c d = ground (
      arith,
      eq_iff k key,
      h now a b,
      h t c d,
      set_nx_taken now k (text v) ttl s {v = plain (text token)},
      set_nx_frame now k (text v) ttl s t key,
    )

    release_script_keeps :
        (now : ℕ) (k v : String)
        → from ≤ now
        → now < upto
        → (k ≡ key → v ≢ token)
        → CommandKeeps (Holds key token from upto) (release_script R now k v)
    unfolding release_script
    release_script_keeps now k v a b foreign s h t c d =
        ground (arith, eq_iff k key, eq_iff token v, h now a b, h t c d, del_frame now k s t key)

    renew_script_keeps :
        (now : ℕ) (k v : String) (ttl : ℕ)
        → from ≤ now
        → now < upto
        → (k ≡ key → v ≢ token)
        → CommandKeeps (Holds key token from upto) (renew_script R now k v ttl)
    unfolding renew_script
    renew_script_keeps now k v ttl a b foreign s h t c d =
        ground
          (arith, eq_iff k key, eq_iff token v, h now a b, h t c d, expire_frame now k ttl s t key)

    get_item-Keeps : (now : ℕ) (k : String) → Keeps (Holds key token from upto) (get_item R now k)
    unfolding get_item
    get_item-Keeps now k = Keeps-send _ (λ s h t c d. ground (arith, h t c d))

    after_set-Keeps :
        (now : ℕ) (i v : String) (acquired : Bool)
        → Keeps (Holds key token from upto) (after_set R i v now acquired)
    unfolding after_set
    after_set-Keeps now i v true = search keeps_rules
    after_set-Keeps now i v false = search (keeps_rules, get_item-Keeps)

    acquire_lock-Keeps :
        (now : ℕ) (i v : String) (ttl : ℕ)
        → from ≤ now
        → now < upto
        → Keeps (Holds key token from upto) (acquire_lock R i v ttl now)
    unfolding acquire_lock try_acquire
    acquire_lock-Keeps now i v ttl a b =
        search (keeps_rules, set_command_keeps now (lock_key i) v ttl a b, after_set-Keeps)

    release_lock-Keeps :
        (now : ℕ) (l : Lease)
        → from ≤ now
        → now < upto
        → (lock_key l.incident_id ≡ key → l.token ≢ token)
        → Keeps (Holds key token from upto) (release_lock R l now)
    unfolding release_lock
    release_lock-Keeps now l a b foreign =
        search (keeps_rules, release_script_keeps now (lock_key l.incident_id) l.token a b foreign)

    renew_lock-Keeps :
        (now : ℕ) (l : Lease) (ttl : ℕ)
        → from ≤ now
        → now < upto
        → (lock_key l.incident_id ≡ key → l.token ≢ token)
        → Keeps (Holds key token from upto) (renew_lock R l ttl now)
    unfolding renew_lock
    renew_lock-Keeps now l ttl a b foreign =
        search
          (keeps_rules, renew_script_keeps now (lock_key l.incident_id) l.token ttl a b foreign)

    is_locked-Keeps : (now : ℕ) (i : String) → Keeps (Holds key token from upto) (is_locked R i now)
    unfolding is_locked
    is_locked-Keeps now i = Keeps-catch _ _ (Keeps-send _ (λ s h. h)) (Keeps-pure false)

  -- What a call of another worker does to the server and the network.
  pub perform : LockCall → ℕ → World Server → World Server
  perform (acquires i v ttl) now w = (acquire_lock R i v ttl now w).1
  perform (releases l) now w = (release_lock R l now w).1
  perform (renews l ttl) now w = (renew_lock R l ttl now w).1
  perform (checks i) now w = (is_locked R i now w).1

  pub perform_all : List (LockCall × ℕ) → World Server → World Server
  perform_all [] w = w
  perform_all ((c, now) ∷ cs) w = perform_all cs (perform c now w)

  perform_keeps :
      (i token : String) (from upto : ℕ) (c : LockCall) (now : ℕ) (w : World Server)
      → IsForeign i token c
      → from ≤ now
      → now < upto
      → Holds (lock_key i) token from upto w.server
      → Holds (lock_key i) token from upto (perform c now w).server
  unfolding perform
  perform_keeps i token from upto (acquires j v ttl) now w f a b h =
      (acquire_lock-Keeps (lock_key i) token from upto now j v ttl a b).at w h
  perform_keeps i token from upto (releases l) now w f a b h =
      (release_lock-Keeps (lock_key i) token from upto now l a b
          (λ e. f (lock_key_injective l.incident_id i e))).at
        w h
  perform_keeps i token from upto (renews l ttl) now w f a b h =
      (renew_lock-Keeps (lock_key i) token from upto now l ttl a b
          (λ e. f (lock_key_injective l.incident_id i e))).at
        w h
  perform_keeps i token from upto (checks j) now w f a b h =
      (is_locked-Keeps (lock_key i) token from upto now j).at w h

  pub perform_all_keeps :
      (i token : String) (from upto : ℕ) (cs : List (LockCall × ℕ)) (w : World Server)
      → All (λ c. IsForeign i token c.0 × (from ≤ c.1) × (c.1 < upto)) cs
      → Holds (lock_key i) token from upto w.server
      → Holds (lock_key i) token from upto (perform_all cs w).server
  unfolding perform_all
  perform_all_keeps i token from upto [] w f h = h
  perform_all_keeps i token from upto ((c, now) ∷ cs) w ((f, a, b), fs) h =
      perform_all_keeps i token from upto cs (perform c now w) fs
        (perform_keeps i token from upto c now w f a b h)
