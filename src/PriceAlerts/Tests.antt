-- ===== src/PriceAlerts/Tests.antt =====
-- Subscriptions of two addresses, and the theorems at these inputs.
use Prim.Native.String.{String}
use qiki.Base.{◌+◌, ℕ, true, ◌≡◌, refl, none, List, [], ◌++◌, All, ok, arith}
use qiki.PriceAlerts.{
  PriceSubscription, Alerts, Mail, Request, ConfirmResult, pending_row, confirm_mail, send, create,
  get_active_by_email, get_by_confirm_token, get_by_unsubscribe_token, mark_confirmed,
  mark_unsubscribed, list_confirmed_active, subscribe, confirm_result, confirm, unsubscribe,
  notify_each, notify_price_change,
}
use qiki.PriceAlerts.Uniqueness.{IsUnique, Call, run, run-Unique}
use qiki.PriceAlerts.Consent.{Reachable, IsToRecipient, notify_price_change-IsToRecipient}
use qiki.PriceAlerts.Expiry.{IsStuck, confirm-subscribe_expired}

unfoldable pub alerts_code : Unit {0}
unfolding create get_active_by_email get_by_confirm_token get_by_unsubscribe_token mark_confirmed
    mark_unsubscribed list_confirmed_active subscribe confirm_result confirm unsubscribe notify_each
    notify_price_change
alerts_code = tt

abbrev lower : String → String
lower t = t

abbrev request : ℕ → ℕ → ℕ → Request
request now id token = record {
  now = now;
  new_id = id;
  confirm_token = token;
  unsubscribe_token = token + 1;
  user_id = none;
  meanwhile = λ rows. rows;
}

abbrev empty_table : Alerts
empty_table = record { subscriptions = []; outbox = [] }

abbrev subscribed : Alerts
subscribed = (run lower (Call.subscribing (request 100 1 40) "an@qiki.vn") empty_table).1

abbrev joined : Alerts
joined = (run lower (Call.confirming 200 40) subscribed).1

subscribed_again :
    ((run lower (Call.subscribing (request 300 2 50) "an@qiki.vn") joined).1 ≡ joined)
unfolding alerts_code
subscribed_again = refl

joined_Unique : IsUnique joined.subscriptions
unfolding alerts_code
joined_Unique = (refl, tt)

run-Unique_example :
    ((run lower (Call.subscribing (request 300 2 50) "binh@qiki.vn") joined).0 ≡ ok tt)
    × IsUnique
        (run lower (Call.subscribing (request 300 2 50) "binh@qiki.vn") joined).1.subscriptions
run-Unique_example =
    run-Unique lower (Call.subscribing (request 300 2 50) "binh@qiki.vn") joined (λ rows h. h)
      joined_Unique

joined_Reachable : Reachable lower joined
joined_Reachable =
    Reachable.called (Call.confirming 200 40)
      (Reachable.called (Call.subscribing (request 100 1 40) "an@qiki.vn") Reachable.empty
        (λ rows h. h))
      tt

notify_price_change-IsToRecipient_example :
    (mails : List Mail) × ((notify_price_change (λ email. true) joined).1.outbox
      ≡ mails ++ joined.outbox)
    × All (IsToRecipient joined.subscriptions) mails
notify_price_change-IsToRecipient_example =
    notify_price_change-IsToRecipient lower (λ email. true) joined joined_Reachable

abbrev row : PriceSubscription
row = pending_row (request 100 1 40) "an@qiki.vn"

row_IsStuck : IsStuck subscribed.subscriptions "an@qiki.vn" 604900 row
unfolding alerts_code
row_IsStuck = record {
  of_address = refl;
  of_token = refl;
  kept = refl;
  pending = refl;
  expires = refl;
}

confirm-subscribe_expired_example :
    let (result, a') = subscribe lower (request 700000 2 50) "an@qiki.vn" subscribed in
    (result ≡ ok tt)
    × (a' ≡ send (confirm_mail row) subscribed)
    × (confirm 700000 40 a' ≡ (ok ConfirmResult.expired, a'))
    × IsStuck a'.subscriptions "an@qiki.vn" 604900 row
confirm-subscribe_expired_example =
    confirm-subscribe_expired lower (request 700000 2 50) "an@qiki.vn" subscribed row 604900 700000
      row_IsStuck (omega arith)
