-- ===== src/PriceAlerts.antt =====
-- Price alerts with double opt-in (backend/app/services/price_alert_service.py,
-- backend/app/repositories/price_subscription_repository.py and
-- backend/app/models/price_subscription.py).
pub mod Uniqueness
pub mod Consent
pub mod Expiry
mod Tests
use qiki.Base.{
  ℕ, ◌+◌, Bool, true, false, ◌&&◌, ◌||◌, not, Option, none, some, List, [], ◌∷◌, String, ◌==◌, any,
  select, map, length, leb, is_some, Result, ok, err, Error, Action, if◌then◌else◌,
}
use text.Mathlib.Text.{◌==◌ as str_eq}

pub record PriceSubscription : Type 0 where
  pub id : ℕ
  pub email : String
  pub user_id : Option ℕ
  pub confirmed : Bool
  pub confirm_token : ℕ
  pub unsubscribe_token : ℕ
  pub confirm_expires_at : Option ℕ
  pub confirmed_at : Option ℕ
  pub unsubscribed_at : Option ℕ

pub data Mail : Type 0 where
  price_alert_confirm : String → ℕ → ℕ → Mail
  price_alert_notification : String → ℕ → Mail

-- The rows and the mails handed to the provider, both newest first.
pub record Alerts : Type 0 where
  pub subscriptions : List PriceSubscription
  pub outbox : List Mail

abbrev pub is_active : PriceSubscription → Bool
is_active s = not (is_some s.unsubscribed_at)

-- Two rows that the unique indexes keep apart: by a token, or as active rows of one address.
abbrev pub clash : PriceSubscription → PriceSubscription → Bool
clash a b =
    (a.confirm_token == b.confirm_token)
    || (a.unsubscribe_token == b.unsubscribe_token)
    || (is_active a && is_active b && str_eq a.email b.email)

abbrev pub clashes : PriceSubscription → List PriceSubscription → Bool
clashes a rows = any (clash a) rows

-- None is the integrity error of an index.
unfoldable pub create : PriceSubscription → List PriceSubscription → Option (List PriceSubscription)
create row rows = if clashes row rows then none else some (row ∷ rows)

-- Raises for more than one row.
abbrev pub scalar_one_or_none {ℓ} : {A : Type ℓ} → List A → Result (Option A)
scalar_one_or_none [] = ok none
scalar_one_or_none (x ∷ []) = ok (some x)
scalar_one_or_none (x ∷ y ∷ xs) = err Error.internal_error

abbrev pub has_email : String → PriceSubscription → Bool
has_email email s = str_eq s.email email && is_active s

abbrev pub has_confirm_token : ℕ → PriceSubscription → Bool
has_confirm_token token s = s.confirm_token == token

abbrev pub has_unsubscribe_token : ℕ → PriceSubscription → Bool
has_unsubscribe_token token s = s.unsubscribe_token == token

unfoldable pub get_active_by_email :
    String → List PriceSubscription → Result (Option PriceSubscription)
get_active_by_email email rows = scalar_one_or_none (select (has_email email) rows)

unfoldable pub get_by_confirm_token : ℕ → List PriceSubscription → Result (Option PriceSubscription)
get_by_confirm_token token rows = scalar_one_or_none (select (has_confirm_token token) rows)

unfoldable pub get_by_unsubscribe_token :
    ℕ → List PriceSubscription → Result (Option PriceSubscription)
get_by_unsubscribe_token token rows = scalar_one_or_none (select (has_unsubscribe_token token) rows)

abbrev pub confirm_row : ℕ → PriceSubscription → PriceSubscription
confirm_row now s =
    if s.confirmed then s else record s { confirmed = true; confirmed_at = some now }

abbrev pub unsubscribe_row : ℕ → PriceSubscription → PriceSubscription
unsubscribe_row now s =
    if is_some s.unsubscribed_at then s else record s { unsubscribed_at = some now }

-- The rows that carry the row's token are the row itself.
unfoldable pub mark_confirmed : ℕ → ℕ → List PriceSubscription → List PriceSubscription
mark_confirmed now token [] = []
mark_confirmed now token (s ∷ rows) =
    (if has_confirm_token token s then confirm_row now s else s) ∷ mark_confirmed now token rows

unfoldable pub mark_unsubscribed : ℕ → ℕ → List PriceSubscription → List PriceSubscription
mark_unsubscribed now token [] = []
mark_unsubscribed now token (s ∷ rows) =
    (if has_unsubscribe_token token s then unsubscribe_row now s else s)
    ∷ mark_unsubscribed now token rows

abbrev pub reversed {ℓ} : {A : Type ℓ} → List A → List A → List A
reversed [] ys = ys
reversed (x ∷ xs) ys = reversed xs (x ∷ ys)

abbrev pub may_receive : PriceSubscription → Bool
may_receive s = s.confirmed && is_active s

-- Oldest first.
unfoldable pub list_confirmed_active : List PriceSubscription → List PriceSubscription
list_confirmed_active rows = reversed (select may_receive rows) []

-- 7 days, in seconds.
abbrev pub confirm_token_ttl : ℕ
confirm_token_ttl = 604800

-- What one request for a subscription is given: the time, fresh tokens, the account, and what
-- other transactions commit between its look at the table and its insertion.
pub record Request : Type 0 where
  pub now : ℕ
  pub new_id : ℕ
  pub confirm_token : ℕ
  pub unsubscribe_token : ℕ
  pub user_id : Option ℕ
  pub meanwhile : List PriceSubscription → List PriceSubscription

abbrev pub pending_row : Request → String → PriceSubscription
pending_row q email = record {
  id = q.new_id;
  email = email;
  user_id = q.user_id;
  confirmed = false;
  confirm_token = q.confirm_token;
  unsubscribe_token = q.unsubscribe_token;
  confirm_expires_at = some (q.now + confirm_token_ttl);
  confirmed_at = none;
  unsubscribed_at = none;
}

-- A mail that the provider refuses is only logged.
abbrev pub send : Mail → Alerts → Alerts
send m a = record a { outbox = m ∷ a.outbox }

abbrev pub confirm_mail : PriceSubscription → Mail
confirm_mail s = Mail.price_alert_confirm s.email s.confirm_token s.unsubscribe_token

abbrev subscribe_existing : PriceSubscription → Alerts → Alerts
subscribe_existing existing a = if existing.confirmed then a else send (confirm_mail existing) a

-- The insertion, after what others have committed; a lost race is acknowledged like the rest.
abbrev subscribe_new : Request → PriceSubscription → Alerts → Alerts
subscribe_new q row a =
    let rows = q.meanwhile a.subscriptions in
    elim (create row rows) [
      | none ↦ record a { subscriptions = rows }
      | some rows' ↦ send (confirm_mail row) (record a { subscriptions = rows' })
    ]

-- `email.strip().lower()` is the first argument.
unfoldable pub subscribe : (String → String) → Request → String → Action Alerts (Unit {0})
subscribe strip_lower q email a = elim (get_active_by_email (strip_lower email) a.subscriptions) [
  | err e ↦ (err e, a)
  | ok (some existing) ↦ (ok tt, subscribe_existing existing a)
  | ok none ↦ (ok tt, subscribe_new q (pending_row q (strip_lower email)) a)
]

pub data ConfirmResult : Type 0 where
  confirmed invalid expired : ConfirmResult

abbrev pub is_expired : ℕ → PriceSubscription → Bool
is_expired now s = elim s.confirm_expires_at [ none ↦ false | some t ↦ leb t now ]

unfoldable pub confirm_result : ℕ → PriceSubscription → ConfirmResult
confirm_result now s =
    if is_some s.unsubscribed_at
    then ConfirmResult.invalid
    else if s.confirmed
    then ConfirmResult.confirmed
    else if is_expired now s
    then ConfirmResult.expired
    else ConfirmResult.confirmed

abbrev pub marks : ConfirmResult → Bool
marks ConfirmResult.confirmed = true
marks _ = false

unfoldable pub confirm : ℕ → ℕ → Action Alerts ConfirmResult
confirm now token a = elim (get_by_confirm_token token a.subscriptions) [
  | err e ↦ (err e, a)
  | ok none ↦ (ok ConfirmResult.invalid, a)
  | ok (some s) ↦ (
    ok (confirm_result now s),
    if marks (confirm_result now s)
        then record a { subscriptions = mark_confirmed now token a.subscriptions }
        else a,
  )
]

unfoldable pub unsubscribe : ℕ → ℕ → Action Alerts Bool
unsubscribe now token a = elim (get_by_unsubscribe_token token a.subscriptions) [
  | err e ↦ (err e, a)
  | ok none ↦ (ok false, a)
  | ok (some s) ↦
      (ok true, record a { subscriptions = mark_unsubscribed now token a.subscriptions })
]

unfoldable pub notify_each : List PriceSubscription → List Mail → List Mail
notify_each [] outbox = outbox
notify_each (s ∷ recipients) outbox =
    notify_each recipients (Mail.price_alert_notification s.email s.unsubscribe_token ∷ outbox)

-- The number of recipients that the provider accepts, and of all recipients.
unfoldable pub notify_price_change : (String → Bool) → Action Alerts (ℕ × ℕ)
notify_price_change delivers a =
    let recipients = list_confirmed_active a.subscriptions in
    (
      ok (length (select (λ s. delivers s.email) recipients), length recipients),
      record a { outbox = notify_each recipients a.outbox },
    )
