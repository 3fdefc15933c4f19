-- ===== src/PriceAlerts/Expiry.antt =====
-- A subscription whose link has expired (`subscribe` and `confirm` of
-- backend/app/services/price_alert_service.py).
use qiki.Base.{ℕ, false, none, some, List, String, ◌≤◌, ◌≡◌, refl, sym, subst, arith, Result, ok}
use qiki.PriceAlerts.{
  PriceSubscription, Alerts, Request, ConfirmResult, get_active_by_email, get_by_confirm_token,
  confirm_mail, send, subscribe, confirm_result, confirm,
}

-- An active row of the address that was not confirmed before its link expired.
pub record IsStuck (rows : List PriceSubscription) (email : String) (limit : ℕ)
    (s : PriceSubscription) : Type 0 where
  pub of_address : get_active_by_email email rows ≡ ok (some s)
  pub of_token : get_by_confirm_token s.confirm_token rows ≡ ok (some s)
  pub kept : s.unsubscribed_at ≡ none
  pub pending : s.confirmed ≡ false
  pub expires : s.confirm_expires_at ≡ some limit

-- Once the link of the active row of an address has expired unconfirmed, a new subscription of the
-- address writes no row and mails the expired link again, and a confirmation by that link is refused
-- as expired and changes no row. The row is stuck after it as before: the address cannot be confirmed
-- by this link however often it subscribes.
pub confirm-subscribe_expired :
    (strip_lower : String → String) (q : Request) (email : String) (a : Alerts)
    (s : PriceSubscription) (limit now : ℕ)
    → IsStuck a.subscriptions (strip_lower email) limit s
    → limit ≤ now
    → let (result, a') = subscribe strip_lower q email a in
      (result ≡ ok tt)
      × (a' ≡ send (confirm_mail s) a)
      × (confirm now s.confirm_token a' ≡ (ok ConfirmResult.expired, a'))
      × IsStuck a'.subscriptions (strip_lower email) limit s
unfolding subscribe confirm confirm_result
confirm-subscribe_expired strip_lower q email a s limit now h late =
    let again : subscribe strip_lower q email a ≡ (ok tt, send (confirm_mail s) a) =
      ground (arith, h.of_address, h.pending) in
    subst
      (λ (r : Result (Unit {0}) × Alerts).
        (r.0 ≡ ok tt)
        × (r.1 ≡ send (confirm_mail s) a)
        × (confirm now s.confirm_token r.1 ≡ (ok ConfirmResult.expired, r.1))
        × IsStuck r.1.subscriptions (strip_lower email) limit s)
      (sym again) (refl, refl, ground (arith, h.of_token, h.kept, h.pending, h.expires), h)
