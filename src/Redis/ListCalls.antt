-- ===== src/Redis/ListCalls.antt =====
-- Calls of the list commands, and what a push that returned has left.
use fastapi_alertengine.Prelude.{
  ℕ, ◌+◌, ◌≤◌, ◌<◌, ◌≡◌, ap, ◌∙◌, String, Bool, true, false, List, [], ◌∷◌, ◌++◌,
}
use fastapi_alertengine.Redis.Client.{Reply, got, World, Call, pure, send, catch, ◌>>◌}
use fastapi_alertengine.Redis.Lists.{RedisLists}
use fastapi_alertengine.Redis.Replies.{then_got, catch-true}

module _ (R : RedisLists) where
  open R use {Server, items, rpush, expire, lpush, ltrim, del, rpush_now, expire_live}

  unfoldable pub push : ℕ → String → String → Server → Reply (Unit {0}) × Server
  push now k x s = (got tt, rpush now k x s)

  unfoldable pub keep_for : ℕ → String → ℕ → Server → Reply (Unit {0}) × Server
  keep_for now k ttl s = (got tt, expire now k ttl s)

  unfoldable pub range : ℕ → String → Server → Reply (List String) × Server
  range now k s = (got (items s now k), s)

  unfoldable pub remove : ℕ → String → Server → Reply (Unit {0}) × Server
  remove now k s = (got tt, del now k s)

  -- `r.rpush(key, text); r.expire(key, ttl); return True`, where any exception returns False
  unfoldable pub push_for : ℕ → String → String → ℕ → Call Server Bool
  push_for now k x ttl =
      catch (send (push now k x) >> (send (keep_for now k ttl) >> pure true)) (pure false)

  -- A push that returned True has the text at the end of the list, for the time to live.
  pub push_for-true :
      (now : ℕ) (k : String) (x : String) (ttl : ℕ) (w : World Server)
      → (push_for now k x ttl w).0 ≡ got true
      → (t : ℕ) → now ≤ t
      → t < now + ttl
      → items (push_for now k x ttl w).1.server t k ≡ items w.server now k ++ x ∷ []
  unfolding push_for push keep_for
  push_for-true now k x ttl w h t a b =
      let (unguarded, same) =
        catch-true (send (push now k x) >> (send (keep_for now k ttl) >> pure true)) w h in
      let (w₁, after, g, e) =
        then_got (push now k x) (send (keep_for now k ttl) >> pure true) w unguarded in
      let (w₂, after₂, g₂, e₂) = then_got (keep_for now k ttl) (pure true) w₁ g in
      let whole : push_for now k x ttl w ≡ pure true w₂ = same ∙ e ∙ e₂ in
      ap (λ r. items r.1.server t k) whole
      ∙ ap (λ s. items s t k) after₂
      ∙ expire_live now k ttl w₁.server t a b
      ∙ ap (λ s. items s now k) after
      ∙ rpush_now now k x w.server
