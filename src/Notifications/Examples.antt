-- ===== src/Notifications/Examples.antt =====
-- The theorems about `dispatch` at concrete services.
use fastapi_alertengine.Prelude.{ℕ, ◌≡◌, refl, Bool, false, none, some, [], ◌∷◌, str_eq}
use fastapi_alertengine.Notifications.{
  posts, reports, records, Tenant, Services, result_of, try_primary, dispatch,
}
use fastapi_alertengine.Notifications.Ledger.{delivered, handed, dispatch-delivered}
use fastapi_alertengine.Notifications.Reports.{telegram_reported_twice}

-- services that accept requests by a webhook only
abbrev services : Services
services = record {
  State = ℕ;
  is_open = λ channel tenant s. (false, s);
  get_verified_numbers = λ tenant s. ("+100" ∷ [], s);
  post = λ channel recipient message s. (str_eq channel "webhook", s);
  -- the ledger loses each entry
  record_from_result = λ result s. (false, s);
  clean = λ n. n;
  fallback_url = some "https://fallback";
}

abbrev acme : Tenant
acme = record {
  tenant_id = "acme";
  notification_channel = some "telegram";
  whatsapp_numbers = [];
  has_whatsapp_credentials = false;
  has_meta_credentials = false;
  has_sent_credentials = false;
  telegram_chat = some "42";
  slack_webhook_url = none;
  plan = record {
    plan = some "solo";
    service_count = none;
    services_monitored = none;
    incident_count = none;
    incidents_this_month = none;
    last_updated = none;
  };
}

dispatch-delivered_example :
    (dispatch services acme "down" 0).0 ≡ delivered (handed (dispatch services acme "down" 0).1)
dispatch-delivered_example = dispatch-delivered services acme "down" 0

telegram_reported_twice_example :
    (ok : Bool) × ((try_primary services acme "down" [] 0).0 ≡ ok)
    × ((try_primary services acme "down" [] 0).1
        ≡ posts "telegram" "42" ok
          ∷ reports "telegram" ok
          ∷ records (result_of "telegram" ok)
          ∷ reports "telegram" ok
          ∷ [])
telegram_reported_twice_example =
    telegram_reported_twice services acme "down" "42" [] 0 refl refl refl (λ s. refl)
