-- ===== src/Notifications/Reports.antt =====
-- What `dispatch` and a provider together report to a breaker.
use fastapi_alertengine.Prelude.{◌≡◌, refl, String, Bool, true, false, some, List, [], ◌∷◌, str_eq}
use fastapi_alertengine.Notifications.{
  posts, reports, records, ◌>>=◌, Tenant, Services, result_of, request, request_and_report,
  unless_open, send_one, telegram_send, primary_send, record_result, record_primary, try_primary,
}

result_success : (c : String) (ok : Bool) → (result_of c ok).success ≡ ok
result_success c true = refl
result_success c false = refl

module _ (V : Services) (tenant : Tenant) (message : String) where
  open V use {State}

  -- Each request by the Telegram provider counts twice at the breaker of the channel, once by the provider and once by
  -- `dispatch`, whether it was accepted or not, where the breaker is closed and the tenant has a chat.
  pub telegram_reported_twice :
      (chat : String) (numbers : List String) (s : State)
      → tenant.notification_channel ≡ some "telegram"
      → tenant.telegram_chat ≡ some chat
      → str_eq chat "" ≡ false
      → ((s' : State) → (V.is_open "telegram" tenant.tenant_id s').0 ≡ false)
      → (ok : Bool) × ((try_primary V tenant message numbers s).0 ≡ ok)
        × ((try_primary V tenant message numbers s).1
            ≡ posts "telegram" chat ok
              ∷ reports "telegram" ok
              ∷ records (result_of "telegram" ok)
              ∷ reports "telegram" ok
              ∷ [])
  unfolding try_primary primary_send telegram_send unless_open send_one request_and_report request
      record_primary record_result ◌>>=◌
  telegram_reported_twice chat numbers s at_channel at_chat named closed =
      rw (at_channel, at_chat, named, closed s, closed _) (go _)
    where
      go :
          (b : Bool)
          → (ok : Bool) × ((result_of "telegram" b).success ≡ ok)
            × ((posts "telegram" chat b
                  ∷ reports "telegram" b
                  ∷ records (result_of "telegram" b)
                  ∷ reports "telegram" (result_of "telegram" b).success
                  ∷ [])
                ≡ posts "telegram" chat ok
                  ∷ reports "telegram" ok
                  ∷ records (result_of "telegram" ok)
                  ∷ reports "telegram" ok
                  ∷ [])
      go true = (true, refl, refl)
      go false = (false, refl, refl)
