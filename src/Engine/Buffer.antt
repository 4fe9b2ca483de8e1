-- ===== src/Engine/Buffer.antt =====
-- What the breaker does on top of a `write_batch` that never raises: nothing.
use fastapi_alertengine.Prelude.{ℕ, ◌≡◌, refl, ◌∙◌, ap, List, [], ◌∷◌}
use fastapi_alertengine.Engine.Breaker.{
  Config, Storage, Breaker, initial, write_batch, should_attempt_write, record_success, attempt,
  write_batch_safe,
}

module _ {M : Type 0} (W : Storage M) (c : Config) where
  open W use {Store, execute}

  -- Batches with the times at which they are written.
  unfoldable pub write_all : List (List M × ℕ × ℕ) → Breaker M × Store → Breaker M × Store
  write_all [] p = p
  write_all ((batch, now, later) ∷ rest) p = write_all rest (write_batch_safe W c batch now later p)

  -- what is left in Redis by one pipeline for each batch that is not empty, whether it raises or not
  abbrev pub sent : List (List M × ℕ × ℕ) → Store → Store
  sent [] s = s
  sent (([], now, later) ∷ rest) s = sent rest s
  sent ((m ∷ ms, now, later) ∷ rest) s = sent rest (execute (m ∷ ms) s).1

  write_safe :
      (batch : List M) (now later : ℕ) (s : Store)
      → write_batch_safe W c batch now later (initial, s) ≡ (initial, (write_batch W batch s).1)
  unfolding write_batch_safe should_attempt_write attempt record_success write_batch
  write_safe [] now later s = refl
  write_safe (m ∷ ms) now later s = refl

  -- Whatever batches are written, and whichever pipelines raise, the breaker of a new engine is as it was: CLOSED, with no
  -- failure, nothing in its buffer and nothing counted as dropped. Redis has what one pipeline for each
  -- batch leaves, so that a batch whose pipeline raises is neither kept for later nor counted.
  pub breaker_never_opens :
      (batches : List (List M × ℕ × ℕ)) (s : Store)
      → write_all batches (initial, s) ≡ (initial, sent batches s)
  unfolding write_all write_batch
  breaker_never_opens [] s = refl
  breaker_never_opens (([], now, later) ∷ rest) s =
      ap (write_all rest) (write_safe [] now later s) ∙ breaker_never_opens rest s
  breaker_never_opens ((m ∷ ms, now, later) ∷ rest) s =
      ap (write_all rest) (write_safe (m ∷ ms) now later s)
      ∙ breaker_never_opens rest (execute (m ∷ ms) s).1
