-- ===== src/Idempotency/Claims.antt =====
-- What a claim finds and leaves.
use fastapi_alertengine.Prelude.{
  ℕ, ◌+◌, ◌≤◌, ◌<◌, ◌≡◌, refl, ap, ◌∙◌, String, Bool, true, false, none, some, List, [], ◌∷◌, arith,
  Option-cases, inl, inr,
}
use fastapi_alertengine.Redis.{Redis, Item, Value, hash, no_fields, write_fields, text}
use fastapi_alertengine.Redis.Client.{
  Fault, fine, lost_request, lost_reply, ◌>>=◌, got, World, send, catch,
}
use fastapi_alertengine.Redis.Replies.{send_got, bind_got, catch-true, then_got}
use fastapi_alertengine.Idempotency.{
  action_ttl, marker_key, claim_payload, place, remove, write, keep_for, convert, claim_action,
}

module _ (R : Redis) where
  open R use {
    Server, peek, set_nx, set_nx_taken, set_nx_free, del, expire, hset, hset_live, hset_new,
    expire_live, del_gone,
  }

  module _ (action_id meta : String) (now : ℕ) where
    pub claim_taken :
        (s : Server) (v : Value) (fs : List Fault)
        → peek s now (marker_key action_id) ≡ some v
        → ((claim_action R action_id meta now (record { server = s; faults = fs })).0 ≡ got false)
          × ((claim_action R action_id meta now (record { server = s; faults = fs })).1.server ≡ s)
    unfolding claim_action convert place send catch
    claim_taken s v [] h =
        ground (arith, set_nx_taken now (marker_key action_id) (text "__claimed__") action_ttl s h)
    claim_taken s v (lost_request ∷ fs) h = (refl, refl)
    claim_taken s v (lost_reply ∷ fs) h =
        ground (arith, set_nx_taken now (marker_key action_id) (text "__claimed__") action_ttl s h)
    claim_taken s v (fine ∷ fs) h =
        ground (arith, set_nx_taken now (marker_key action_id) (text "__claimed__") action_ttl s h)

    abbrev key : String
    key = marker_key action_id

    -- what a claim leaves after it has removed its placeholder
    abbrev converted : Server → Server
    converted s =
        expire now key action_ttl (hset now key (claim_payload action_id meta now) (del now key s))

    write_free :
        (fs : List (String × Item)) (s : Server)
        → peek s now key ≡ none
        → (write R now key fs s).1 ≡ hset now key fs s
    unfolding write
    write_free fs s h = ground arith

    convert-true :
        (w : World Server)
        → (convert R action_id meta now true w).0 ≡ got true
        → (convert R action_id meta now true w).1.server ≡ converted w.server
    unfolding convert remove keep_for
    convert-true w h =
        let (w₁, s₁, h₁, e₁) = then_got (remove R now key) _ w h in
        let (w₂, s₂, h₂, e₂) =
          then_got (write R now key (claim_payload action_id meta now)) _ w₁ h₁ in
        let (w₃, s₃, h₃, e₃) = then_got (keep_for R now key action_ttl) _ w₂ h₂ in
        ap (λ p. p.1.server) (e₁ ∙ e₂ ∙ e₃)
        ∙ s₃
        ∙ ap (expire now key action_ttl) (
            s₂
            ∙ ap (λ s. (write R now key (claim_payload action_id meta now) s).1) s₁
            ∙ write_free _ (del now key w.server) (del_gone now key w.server now))

    claimed_free :
        (w : World Server)
        → (claim_action R action_id meta now w).0 ≡ got true
        → peek w.server now key ≡ none
    claimed_free w h = elim (Option-cases (peek w.server now key)) [
      | inl e ↦ e
      | inr (v, e) ↦ cc ((claim_taken w.server v w.faults e).0, h)
    ]

    convert_from :
        (b : Bool) (w : World Server)
        → (convert R action_id meta now b w).0 ≡ got true
        → (convert R action_id meta now b w).1.server ≡ converted w.server
    unfolding convert
    convert_from true w h = convert-true w h
    convert_from false w h = cc

    claim_true :
        (w : World Server)
        → (claim_action R action_id meta now w).0 ≡ got true
        → (claim_action R action_id meta now w).1.server ≡ converted (place R now key w.server).1
    unfolding claim_action
    claim_true w h =
        let (h₁, e₁) = catch-true (send (place R now key) >>= convert R action_id meta now) w h in
        let (b, g, e₂) = bind_got (send (place R now key)) (convert R action_id meta now) w h₁ in
        ap (λ p. p.1.server) (e₁ ∙ e₂)
        ∙ convert_from b (send (place R now key) w).1 (rw e₂ at h₁)
        ∙ ap converted (send_got (place R now key) w g).1

    -- A claim that returns True found no marker, and leaves one with the claim's fields for the time
    -- to live.
    pub claim_action_marks :
        (w : World Server)
        → (claim_action R action_id meta now w).0 ≡ got true
        → (peek w.server now (marker_key action_id) ≡ none)
          × ((t : ℕ)
              → now ≤ t
              → t < now + action_ttl
              → peek (claim_action R action_id meta now w).1.server t (marker_key action_id)
                ≡ some (hash (write_fields no_fields (claim_payload action_id meta now))))
    claim_action_marks w h =
        let fs = claim_payload action_id meta now in
        let s = (place R now key w.server).1 in
        (
          claimed_free w h,
          λ t a b. rw (claim_true w h) (
              expire_live now key action_ttl (hset now key fs (del now key s)) t
                (hset_new now key fs (del now key s) now (del_gone now key s now) (omega arith)) a
                b),
        )
