-- ===== src/Notifications.antt =====
-- orchestrator/notifications.py: `dispatch`, and the `send` of the providers in orchestrator/providers/.
--
-- The requests to the services of others, the circuit breakers and the contacts are an interface. A
-- request is answered, refused or ends by an exception, which the providers catch. A trace lists the
-- requests, what is reported to the breakers, and what is handed to the delivery ledger, which may lose it.
pub mod Ledger
pub mod Reports
mod Examples
use fastapi_alertengine.Prelude.{
  ℕ, String, Bool, true, false, Option, none, some, List, [], ◌∷◌, ◌++◌, str_eq, or_default, not,
  ◌&&◌, ◌||◌, if◌then◌else◌,
}
use fastapi_alertengine.Plans.{get_tenant_plan}
use fastapi_alertengine.Plans as Plans

pub data Error : Type 0 where
  circuit_breaker_open credentials_missing no_recipients request_failed no_webhook_url : Error

-- `DeliveryResult`: the provider's channel, and how the attempt ended
pub record DeliveryResult : Type 0 where
  pub channel : String
  pub success : Bool
  pub error : Option Error

pub data Event : Type 0 where
  -- a request with its recipient, and whether it was accepted
  posts : String → String → Bool → Event
  -- `record_success` and `record_failure` of the breaker of a channel
  reports : String → Bool → Event
  -- the call of `record_from_result`, whether or not the ledger keeps the entry
  records : DeliveryResult → Event

-- What a part does: a value, the trace, and the state of what it calls.
abbrev pub Act : Type 0 → Type 0 → Type 0
Act S A = S → A × List Event × S

module _ {S A : Type 0} where
  abbrev pub pure : A → Act S A
  pure a s = (a, [], s)

  abbrev pub call : (S → A × S) → Act S A
  call f s = let (a, s') = f s in (a, [], s')

module _ {S A B : Type 0} where
  infixl 10 ◌>>=◌ ◌>>◌
  unfoldable pub ◌>>=◌ : Act S A → (A → Act S B) → Act S B
  ◌>>=◌ m f s = let (a, es, s₁) = m s in let (b, fs, s₂) = f a s₁ in (b, es ++ fs, s₂)

  abbrev pub ◌>>◌ : Act S A → Act S B → Act S B
  m >> n = m >>= λ _. n

abbrev pub emit : {S : Type 0} → Event → Act S (Unit {0})
emit e s = (tt, e ∷ [], s)

-- The tenant's fields that are read, and the variables of the environment that stand in for them.
pub record Tenant : Type 0 where
  pub tenant_id : String
  pub notification_channel : Option String
  pub whatsapp_numbers : List String
  pub has_whatsapp_credentials : Bool
  pub has_meta_credentials : Bool
  pub has_sent_credentials : Bool
  pub telegram_chat : Option String
  pub slack_webhook_url : Option String
  pub plan : Plans.Tenant

pub record Services : Type 1 where
  pub State : Type 0
  pub is_open : String → String → State → Bool × State
  pub get_verified_numbers : String → State → List String × State
  -- a request by a channel to a recipient: whether it was accepted
  pub post : String → String → String → State → Bool × State
  -- `delivery_ledger.record_from_result`: whether the entry was written
  pub record_from_result : DeliveryResult → State → Bool × State
  -- `number.replace("whatsapp:", "").strip()`
  pub clean : String → String
  pub fallback_url : Option String

-- a text that is there and not empty
abbrev pub is_set : Option String → Bool
is_set none = false
is_set (some t) = not (str_eq t "")

abbrev pub succeeded : String → DeliveryResult
succeeded channel = record { channel = channel; success = true; error = none }

abbrev pub failed : String → Error → DeliveryResult
failed channel e = record { channel = channel; success = false; error = some e }

abbrev pub result_of : String → Bool → DeliveryResult
result_of channel true = succeeded channel
result_of channel false = failed channel request_failed

abbrev pub present : List String → List String
present [] = []
present (n ∷ ns) = if str_eq n "" then present ns else n ∷ present ns

module _ (V : Services) (tenant : Tenant) (message : String) where
  open V use {State}

  -- a request, and its report to the channel's breaker
  unfoldable pub request : String → String → Act State Bool
  request channel recipient = do
    ok ← call (V.post channel recipient message)
    emit (posts channel recipient ok)
    pure ok

  unfoldable pub request_and_report : String → String → Act State Bool
  request_and_report channel recipient = do
    ok ← request channel recipient
    emit (reports channel ok)
    pure ok

  -- the loop over the numbers: whether one was accepted
  unfoldable pub deliver_each : String → List String → Act State Bool
  deliver_each channel [] = pure false
  deliver_each channel (n ∷ ns) = do
    ok ← request_and_report channel n
    rest ← deliver_each channel ns
    pure (ok || rest)

  -- `if not numbers`, and the loop
  unfoldable pub deliver_numbers : String → List String → Act State DeliveryResult
  deliver_numbers channel [] = pure (failed channel no_recipients)
  deliver_numbers channel (n ∷ ns) = do
    ok ← deliver_each channel (n ∷ ns)
    pure (result_of channel ok)

  -- the start of each `send`: the breaker, and the credentials
  unfoldable pub unless_open : String → Act State DeliveryResult → Act State DeliveryResult
  unless_open channel m = do
    is_open ← call (V.is_open channel tenant.tenant_id)
    if is_open then pure (failed channel circuit_breaker_open) else m

  abbrev pub with_credentials : String → Bool → Act State DeliveryResult → Act State DeliveryResult
  with_credentials channel true m = m
  with_credentials channel false m = pure (failed channel credentials_missing)

  -- WhatsAppProvider
  unfoldable pub whatsapp_send : List String → Act State DeliveryResult
  whatsapp_send numbers = unless_open "whatsapp" (
      with_credentials "whatsapp" tenant.has_whatsapp_credentials
        (deliver_numbers "whatsapp" numbers))

  -- MetaDirectProvider
  unfoldable pub meta_send : List String → Act State DeliveryResult
  meta_send numbers = unless_open "whatsapp_meta" (
      with_credentials "whatsapp_meta" tenant.has_meta_credentials
        (deliver_numbers "whatsapp_meta" numbers))

  -- `_send_all`: the first request that raises ends the loop
  unfoldable pub send_all : List String → Act State Bool
  send_all [] = pure true
  send_all (n ∷ ns) = do ok ← request "sent" n; if ok then send_all ns else pure false

  unfoldable pub send_cleaned : List String → Act State DeliveryResult
  send_cleaned [] = pure (failed "sent" no_recipients)
  send_cleaned (n ∷ ns) = do
    ok ← send_all (n ∷ ns)
    emit (reports "sent" ok)
    pure (result_of "sent" ok)

  abbrev pub clean_all : List String → List String
  clean_all [] = []
  clean_all (n ∷ ns) = V.clean n ∷ clean_all ns

  -- SentProvider
  unfoldable pub sent_send : List String → Act State DeliveryResult
  sent_send numbers = unless_open "sent" (
      with_credentials "sent" tenant.has_sent_credentials
        (send_cleaned (present (clean_all numbers))))

  unfoldable pub send_one : String → String → Act State DeliveryResult
  send_one channel recipient = do
    ok ← request_and_report channel recipient
    pure (result_of channel ok)

  -- TelegramProvider: none where the token or the chat is missing
  unfoldable pub telegram_send : Act State DeliveryResult
  telegram_send = unless_open "telegram" (
      with_credentials "telegram" (is_set tenant.telegram_chat)
        (send_one "telegram" (or_default tenant.telegram_chat "")))

  -- SlackProvider
  unfoldable pub slack_send : Act State DeliveryResult
  slack_send = unless_open "slack" (
      with_credentials "slack" (is_set tenant.slack_webhook_url)
        (send_one "slack" (or_default tenant.slack_webhook_url "")))

  -- WebhookProvider, which has no breaker
  unfoldable pub webhook_send : Act State DeliveryResult
  webhook_send =
      if is_set V.fallback_url
      then (request "webhook" (or_default V.fallback_url "") >>= λ ok.
          pure (result_of "webhook" ok))
      else pure (failed "webhook" no_webhook_url)

  -- the numbers of the tenant, or else those that are verified
  unfoldable pub numbers_of : List String → Act State (List String)
  numbers_of [] = call (V.get_verified_numbers tenant.tenant_id)
  numbers_of (n ∷ ns) = pure (n ∷ ns)

  abbrev pub channel : String
  channel = or_default tenant.notification_channel "whatsapp"

  unfoldable pub primary_send : List String → Act State DeliveryResult
  primary_send numbers =
      if str_eq channel "telegram"
      then telegram_send
      else if str_eq channel "sent"
      then sent_send numbers
      else if str_eq channel "whatsapp_meta"
      then meta_send numbers
      else whatsapp_send numbers

  -- what `record_from_result` returns is not looked at
  unfoldable pub record_result : DeliveryResult → Act State (Unit {0})
  record_result result s = (tt, records result ∷ [], (V.record_from_result result s).1)

  unfoldable pub record_primary : DeliveryResult → Act State Bool
  record_primary result = do
    record_result result
    emit (reports channel result.success)
    pure result.success

  -- the send by the primary provider, unless the breaker is open
  unfoldable pub try_primary : List String → Act State Bool
  try_primary numbers = do
    is_open ← call (V.is_open channel tenant.tenant_id)
    if is_open then pure false else (primary_send numbers >>= record_primary)

  unfoldable pub try_slack : Act State (Unit {0})
  try_slack =
      if is_set tenant.slack_webhook_url && (get_tenant_plan tenant.plan).has_slack
      then (slack_send >>= λ result. record_result result)
      else pure tt

  unfoldable pub fall_back : Bool → Act State Bool
  fall_back true = pure true
  fall_back false = do result ← webhook_send; record_result result; pure result.success

  unfoldable pub dispatch : Act State Bool
  dispatch = do
    numbers ← numbers_of tenant.whatsapp_numbers
    done ← try_primary numbers
    try_slack
    fall_back done
