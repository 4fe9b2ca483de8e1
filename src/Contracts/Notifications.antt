-- ===== src/Contracts/Notifications.antt =====
-- `enforce_notification`: a primary and a fallback channel, and the dead letter queue behind them.
--
-- The three coroutines that are passed in act on a state of the caller's; each returns or raises.
use fastapi_alertengine.Prelude.{◌≡◌, ◌⊎◌, Bool, true, false, arith, if◌then◌else◌}

pub data Attempt : Type 0 where
  returned : Bool → Attempt
  raises : Attempt

-- How `enforce_notification` ends: it returns True, it raises `NotificationFailure`, or it raises what
-- `dlq_push` raised.
pub data Delivery : Type 0 where
  delivered notification_failure queue_failure : Delivery

-- The entry that is pushed: its type is CRITICAL_NOTIFICATION_FAILURE.
pub record DeadLetter (P : Type 0) : Type 0 where
  pub payload : P

abbrev pub succeeded : Attempt → Bool
succeeded (returned b) = b
succeeded raises = false

module _ {S P : Type 0} (send_primary send_fallback : P → S → Attempt × S)
    (dlq_push : DeadLetter P → S → Bool × S) where
  -- what follows two channels that failed; `dlq_push` returns, or raises
  unfoldable pub push_letter : P → S → Delivery × S
  push_letter payload s =
      let (pushed, s') = dlq_push (record { payload = payload }) s in
      (if pushed then notification_failure else queue_failure, s')

  unfoldable pub enforce_notification : P → S → Delivery × S
  unfolding push_letter
  enforce_notification payload s =
      let (primary, s₁) = send_primary payload s in
      let (fallback, s₂) = send_fallback payload s₁ in
      if succeeded primary
      then (delivered, s₁)
      else if succeeded fallback
      then (delivered, s₂)
      else push_letter payload s₂

  -- `enforce_notification` returns True exactly where the primary channel succeeds, or it fails or
  -- raises and the fallback succeeds. The fallback runs only where the primary has not succeeded, and
  -- where neither has, the payload is pushed to the dead letter queue before an exception is raised.
  pub enforce_notification_cases :
      (payload : P) (s : S)
      → let (primary, s₁) = send_primary payload s in
        let (fallback, s₂) = send_fallback payload s₁ in
        let (result, s') = enforce_notification payload s in
        ((succeeded primary ≡ true) × (result ≡ delivered) × (s' ≡ s₁))
        ⊎ ((succeeded primary ≡ false)
            × (succeeded fallback ≡ true)
            × (result ≡ delivered)
            × (s' ≡ s₂))
        ⊎ ((succeeded primary ≡ false)
            × (succeeded fallback ≡ false)
            × (result ≡ (
                if (dlq_push (record { payload = payload }) s₂).0
                then notification_failure
                else queue_failure))
            × (s' ≡ (dlq_push (record { payload = payload }) s₂).1))
  unfolding enforce_notification
  enforce_notification_cases payload s = ground arith
