-- ===== src/Notifications/Ledger.antt =====
-- What the delivery ledger is handed, against what `dispatch` returns.
use fastapi_alertengine.Prelude.{
  ◌≡◌, refl, sym, ap, ◌∙◌, String, Bool, true, false, List, [], ◌∷◌, ◌++◌, str_eq, or_default, not,
  ◌&&◌, ◌||◌, if◌then◌else◌,
}
use fastapi_alertengine.Plans.{get_tenant_plan}
use fastapi_alertengine.Notifications.{
  Error, DeliveryResult, Event, posts, reports, records, Act, pure, call, ◌>>=◌, ◌>>◌, Tenant,
  Services, is_set, failed, result_of, request, request_and_report, deliver_each, deliver_numbers,
  unless_open, with_credentials, whatsapp_send, meta_send, send_all, send_cleaned, sent_send,
  send_one, telegram_send, slack_send, webhook_send, numbers_of, primary_send, record_result,
  record_primary, try_primary, try_slack, fall_back, dispatch, channel,
}

-- The results that a trace hands to the ledger.
abbrev pub handed : List Event → List DeliveryResult
handed [] = []
handed (records r ∷ es) = r ∷ handed es
handed (e ∷ es) = handed es

handed-append : (es fs : List Event) → handed (es ++ fs) ≡ handed es ++ handed fs
handed-append [] fs = refl
handed-append (records r ∷ es) fs = ap (λ x. r ∷ x) (handed-append es fs)
handed-append (posts a b c ∷ es) fs = handed-append es fs
handed-append (reports a b ∷ es) fs = handed-append es fs

-- whether a list of results has a delivery by another channel than Slack
abbrev pub delivered : List DeliveryResult → Bool
delivered [] = false
delivered (r ∷ rs) = (r.success && not (str_eq r.channel "slack")) || delivered rs

-- a part that hands nothing to the ledger, and ends with a value of this kind
pub record Quiet {S A : Type 0} (Q : A → Type 0) (m : Act S A) : Type 0 where
  pub at : (s : S) → (handed (m s).1 ≡ []) × Q (m s).0

module _ {S A B : Type 0} where
  Quiet-bind :
      {Q : A → Type 0} {R : B → Type 0} (m : Act S A) (f : A → Act S B)
      → Quiet Q m
      → ((a : A) → Q a → Quiet R (f a))
      → Quiet R (m >>= f)
  unfolding ◌>>=◌
  Quiet-bind m f h k = record {
    at = λ s.
        let (none_before, q) = h.at s in
        let (none_after, r) = (k (m s).0 q).at (m s).2 in
        (handed-append (m s).1 (f (m s).0 (m s).2).1 ∙ rw (none_before, none_after) refl, r);
  }

abbrev Anything : {A : Type 0} → A → Type 0
Anything a = Unit

module _ {S A : Type 0} {Q : A → Type 0} where
  Quiet-pure : (a : A) → Q a → Quiet {S = S} Q (pure a)
  Quiet-pure a q = record { at = λ s. (refl, q) }

  Quiet-call : (f : S → A × S) → ((s : S) → Q (f s).0) → Quiet Q (call f)
  Quiet-call f q = record { at = λ s. (refl, q s) }

-- a result that names its channel
abbrev Named : String → DeliveryResult → Type 0
Named c r = r.channel ≡ c

result_of-Named : (c : String) (ok : Bool) → Named c (result_of c ok)
result_of-Named c true = refl
result_of-Named c false = refl

module _ (V : Services) (tenant : Tenant) (message : String) where
  open V use {State}

  request-Quiet : (c r : String) → Quiet Anything (request V tenant message c r)
  unfolding request
  request-Quiet c r = Quiet-bind _ _ (Quiet-call {Q = Anything} _ (λ s. tt)) λ ok _.
      Quiet-bind {Q = Anything} _ _ (record { at = λ s. (refl, tt) }) λ _ _. Quiet-pure ok tt

  report-Quiet : (c r : String) → Quiet Anything (request_and_report V tenant message c r)
  unfolding request_and_report
  report-Quiet c r = Quiet-bind _ _ (request-Quiet c r) λ ok _.
      Quiet-bind {Q = Anything} _ _ (record { at = λ s. (refl, tt) }) λ _ _. Quiet-pure ok tt

  deliver_each-Quiet :
      (c : String) (ns : List String) → Quiet Anything (deliver_each V tenant message c ns)
  unfolding deliver_each
  deliver_each-Quiet c [] = Quiet-pure false tt
  deliver_each-Quiet c (n ∷ ns) =
      Quiet-bind _ _ (report-Quiet c n)
        λ ok _. Quiet-bind _ _ (deliver_each-Quiet c ns) λ rest _. Quiet-pure (ok || rest) tt

  deliver_numbers-Quiet :
      (c : String) (ns : List String) → Quiet (Named c) (deliver_numbers V tenant message c ns)
  unfolding deliver_numbers
  deliver_numbers-Quiet c [] = Quiet-pure _ refl
  deliver_numbers-Quiet c (n ∷ ns) =
      Quiet-bind _ _ (deliver_each-Quiet c (n ∷ ns)) λ ok _. Quiet-pure _ (result_of-Named c ok)

  -- the start of a `send`
  guarded-Quiet :
      (c : String) (has : Bool) (m : Act State DeliveryResult)
      → Quiet (Named c) m
      → Quiet (Named c) (unless_open V tenant message c (with_credentials V tenant message c has m))
  unfolding unless_open
  guarded-Quiet c has m h =
      Quiet-bind _ _ (Quiet-call {Q = Anything} _ (λ s. tt)) λ is_open _. by_flag is_open
    where
      by_has : (b : Bool) → Quiet (Named c) (with_credentials V tenant message c b m)
      by_has true = h
      by_has false = Quiet-pure _ refl

      by_flag :
          (b : Bool)
          → Quiet (Named c) (
              if b
              then pure (failed c Error.circuit_breaker_open)
              else with_credentials V tenant message c has m)
      by_flag true = Quiet-pure _ refl
      by_flag false = by_has has

  send_all-Quiet : (ns : List String) → Quiet Anything (send_all V tenant message ns)
  unfolding send_all
  send_all-Quiet [] = Quiet-pure true tt
  send_all-Quiet (n ∷ ns) =
      Quiet-bind _ _ (request-Quiet "sent" n) λ ok _. by_flag ok (send_all-Quiet ns)
    where
      by_flag :
          (b : Bool)
          → Quiet Anything (send_all V tenant message ns)
          → Quiet Anything (if b then send_all V tenant message ns else pure false)
      by_flag true h = h
      by_flag false h = Quiet-pure false tt

  send_cleaned-Quiet : (ns : List String) → Quiet (Named "sent") (send_cleaned V tenant message ns)
  unfolding send_cleaned
  send_cleaned-Quiet [] = Quiet-pure _ refl
  send_cleaned-Quiet (n ∷ ns) = Quiet-bind _ _ (send_all-Quiet (n ∷ ns)) λ ok _.
      Quiet-bind {Q = Anything} _ _ (record { at = λ s. (refl, tt) })
        λ _ _. Quiet-pure _ (result_of-Named "sent" ok)

  send_one-Quiet : (c r : String) → Quiet (Named c) (send_one V tenant message c r)
  unfolding send_one
  send_one-Quiet c r = Quiet-bind _ _ (report-Quiet c r) λ ok _. Quiet-pure _ (result_of-Named c ok)

  webhook_send-Quiet : Quiet (Named "webhook") (webhook_send V tenant message)
  unfolding webhook_send
  webhook_send-Quiet = by_flag (is_set V.fallback_url)
    where
      by_flag :
          (b : Bool)
          → Quiet (Named "webhook") (
              if b
              then (request V tenant message "webhook" (or_default V.fallback_url "") >>= λ ok.
                  pure (result_of "webhook" ok))
              else pure (failed "webhook" Error.no_webhook_url))
      by_flag true =
          Quiet-bind _ _ (request-Quiet "webhook" _)
            λ ok _. Quiet-pure _ (result_of-Named "webhook" ok)
      by_flag false = Quiet-pure _ refl

or_assoc : (a b c : Bool) → ((a || b) || c) ≡ (a || (b || c))
or_assoc true b c = refl
or_assoc false b c = refl

or_false : (a : Bool) → (a || false) ≡ a
or_false true = refl
or_false false = refl

and_true : (a : Bool) → (a && true) ≡ a
and_true true = refl
and_true false = refl

and_false : (a : Bool) → (a && false) ≡ false
and_false true = refl
and_false false = refl

delivered-append :
    (xs ys : List DeliveryResult) → delivered (xs ++ ys) ≡ (delivered xs || delivered ys)
delivered-append [] ys = refl
delivered-append (r ∷ xs) ys =
    ap (λ b. (r.success && not (str_eq r.channel "slack")) || b) (delivered-append xs ys)
    ∙ sym (or_assoc _ (delivered xs) (delivered ys))

-- whether a trace has a delivery
abbrev seen : List Event → Bool
seen es = delivered (handed es)

seen-append : (es fs : List Event) → seen (es ++ fs) ≡ (seen es || seen fs)
seen-append es fs = ap delivered (handed-append es fs) ∙ delivered-append (handed es) (handed fs)

-- a result of a channel that is not Slack's
abbrev Other : DeliveryResult → Type 0
Other r = str_eq r.channel "slack" ≡ false

Quiet-weaken :
    {S A : Type 0} {Q R : A → Type 0} (m : Act S A) → ((a : A) → Q a → R a) → Quiet Q m → Quiet R m
Quiet-weaken m k h = record { at = λ s. let (q, a) = h.at s in (q, k (m s).0 a) }

-- a part that delivers exactly where it returns True
record Shows {S : Type 0} (m : Act S Bool) : Type 0 where
  pub at : (s : S) → seen (m s).1 ≡ (m s).0

module _ {S A : Type 0} where
  Shows-bind :
      {Q : A → Type 0} (m : Act S A) (f : A → Act S Bool)
      → Quiet Q m
      → ((a : A) → Q a → Shows (f a))
      → Shows (m >>= f)
  unfolding ◌>>=◌
  Shows-bind m f h k = record {
    at = λ s.
        let (none_before, q) = h.at s in
        seen-append (m s).1 _ ∙ (rw none_before ((k (m s).0 q).at (m s).2));
  }

Named-Other : (c : String) → str_eq c "slack" ≡ false → (r : DeliveryResult) → Named c r → Other r
Named-Other c h r e = rw e h

module _ (V : Services) (tenant : Tenant) (message : String) where
  open V use {State}

  primary_send-Quiet : (ns : List String) → Quiet Other (primary_send V tenant message ns)
  unfolding primary_send whatsapp_send meta_send sent_send telegram_send
  primary_send-Quiet ns =
      choose (str_eq (channel V tenant message) "telegram")
        (of_channel "telegram" refl _ (
          guarded-Quiet V tenant message "telegram" _ _
            (send_one-Quiet V tenant message "telegram" _)))
        (choose (str_eq (channel V tenant message) "sent")
          (of_channel "sent" refl _
            (guarded-Quiet V tenant message "sent" _ _ (send_cleaned-Quiet V tenant message _)))
          (choose (str_eq (channel V tenant message) "whatsapp_meta")
            (of_channel "whatsapp_meta" refl _ (
              guarded-Quiet V tenant message "whatsapp_meta" _ _
                (deliver_numbers-Quiet V tenant message "whatsapp_meta" ns)))
            (of_channel "whatsapp" refl _ (
              guarded-Quiet V tenant message "whatsapp" _ _
                (deliver_numbers-Quiet V tenant message "whatsapp" ns)))))
    where
      choose :
          (b : Bool) {m n : Act State DeliveryResult}
          → Quiet Other m
          → Quiet Other n
          → Quiet Other (if b then m else n)
      choose true h k = h
      choose false h k = k

      of_channel :
          (c : String)
          → str_eq c "slack" ≡ false
          → (m : Act State DeliveryResult) → Quiet (Named c) m
          → Quiet Other m
      of_channel c q m h = Quiet-weaken m (Named-Other c q) h

  record_primary-Shows : (r : DeliveryResult) → Other r → Shows (record_primary V tenant message r)
  unfolding record_primary ◌>>=◌ record_result
  record_primary-Shows r h = record { at = λ s. rw h (or_false _ ∙ and_true r.success) }

  try_primary-Shows : (ns : List String) → Shows (try_primary V tenant message ns)
  unfolding try_primary
  try_primary-Shows ns =
      Shows-bind {Q = Anything} _ _ (Quiet-call _ (λ s. tt)) λ is_open _. by_flag is_open
    where
      by_flag :
          (b : Bool)
          → Shows (
              if b
              then pure false
              else (primary_send V tenant message ns >>= record_primary V tenant message))
      by_flag true = record { at = λ s. refl }
      by_flag false = Shows-bind _ _ (primary_send-Quiet ns) λ r h. record_primary-Shows r h

  slack_send-Quiet : Quiet (Named "slack") (slack_send V tenant message)
  unfolding slack_send
  slack_send-Quiet =
      guarded-Quiet V tenant message "slack" _ _ (send_one-Quiet V tenant message "slack" _)

  slack_unseen : (s : State) → seen (try_slack V tenant message s).1 ≡ false
  unfolding try_slack ◌>>=◌ record_result
  slack_unseen s =
      by_flag (is_set tenant.slack_webhook_url && (get_tenant_plan tenant.plan).has_slack)
    where
      sent :
          (x : DeliveryResult × List Event × State)
          → handed x.1 ≡ []
          → Named "slack" x.0
          → seen (x.1 ++ records x.0 ∷ []) ≡ false
      sent x q n =
          seen-append x.1 (records x.0 ∷ []) ∙ (rw (q, n) (or_false _ ∙ and_false x.0.success))

      by_flag :
          (b : Bool)
          → seen
              ((if b
                  then (slack_send V tenant message >>= λ result.
                      record_result V tenant message result)
                  else pure tt)
                s).1
            ≡ false
      by_flag true =
          let (q, n) = (slack_send-Quiet).at s in sent (slack_send V tenant message s) q n
      by_flag false = refl

  recorded-Shows :
      (r : DeliveryResult)
      → Other r
      → Shows {S = State} (record_result V tenant message r >> pure r.success)
  unfolding ◌>>=◌ record_result
  recorded-Shows r h = record { at = λ s. rw h (or_false _ ∙ and_true r.success) }

  fall_back-Shows : Shows (fall_back V tenant message false)
  unfolding fall_back ◌>>=◌
  fall_back-Shows =
      Shows-bind _ _
        (Quiet-weaken _ (Named-Other "webhook" refl) (webhook_send-Quiet V tenant message))
        λ r h. recorded-Shows r h

  -- what follows the primary provider adds a delivery only by the fallback
  rest_seen :
      (done : Bool) (s : State)
      → (done || seen ((try_slack V tenant message >> fall_back V tenant message done) s).1)
        ≡ ((try_slack V tenant message >> fall_back V tenant message done) s).0
  unfolding ◌>>=◌ fall_back
  rest_seen true s = refl
  rest_seen false s =
      seen-append (try_slack V tenant message s).1 _
      ∙ (rw (slack_unseen s) (fall_back-Shows.at (try_slack V tenant message s).2))

  attempts_seen :
      (ns : List String) (s : State)
      → let m = try_primary V tenant message ns >>= λ done.
          try_slack V tenant message >> fall_back V tenant message done in
        seen (m s).1 ≡ (m s).0
  unfolding ◌>>=◌
  attempts_seen ns s =
      let x = try_primary V tenant message ns s in
      seen-append x.1 _
      ∙ ap (λ b. b || seen ((try_slack V tenant message >> fall_back V tenant message x.0) x.2).1)
          ((try_primary-Shows ns).at s)
      ∙ rest_seen x.0 x.2

  numbers_of-Quiet : (ns : List String) → Quiet Anything (numbers_of V tenant message ns)
  unfolding numbers_of
  numbers_of-Quiet [] = Quiet-call _ (λ s. tt)
  numbers_of-Quiet (n ∷ ns) = Quiet-pure _ tt

  -- `dispatch` returns True exactly where it handed a delivery by another channel than Slack to the ledger, whether or not
  -- the ledger kept it.
  pub dispatch-delivered :
      (s : State)
      → (dispatch V tenant message s).0 ≡ delivered (handed (dispatch V tenant message s).1)
  unfolding dispatch
  dispatch-delivered s = sym (
      (Shows-bind _ _ (numbers_of-Quiet tenant.whatsapp_numbers)
          λ ns _. record { at = attempts_seen ns }).at
        s)
