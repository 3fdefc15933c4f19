-- ===== src/Base/Actions.antt =====
-- Service methods: a state and exceptions. The state comes back after a raise too: what was written
-- stays written until the session rolls back.
use mathlib.Core.Bool.{Bool}
use mathlib.Core.Path.{◌≡◌, refl}
use mathlib.Core.Logic.{◌⊎◌, inl, inr}
use mathlib.Core.Option.{Option, none, some}
use qiki.Base.Tests.{if◌then◌else◌}

-- The error codes that the exceptions of core/exceptions.py carry; `internal_error` is any other
-- exception.
pub data Error : Type 0 where
  internal_error not_found validation_error conflict : Error
  order_not_found product_not_found product_inactive insufficient_stock : Error
  coupon_unavailable coupon_not_found coupon_inactive coupon_not_started : Error
  coupon_expired coupon_usage_exhausted coupon_min_order : Error
  coupon_requires_account coupon_per_user_exhausted : Error
  admin_required invalid_coupon duplicate_coupon_code : Error
  order_forbidden staff_required invalid_status_transition order_not_cancellable : Error
  delivery_not_found invalid_driver order_cancelled delivery_duplicate_item : Error
  delivery_item_invalid delivery_over_allocation invalid_delivery_status_transition : Error
  invalid_phone : Error
  account_locked invalid_credentials inactive_user invalid_token token_revoked : Error
  phone_already_exists email_already_exists phone_taken invalid_session : Error
  invalid_reset_token conversation_not_found message_not_found forbidden : Error

pub data Result {ℓ} (A : Type ℓ) : Type ℓ where
  ok : A → Result A
  err : Error → Result A

abbrev pub Action : Type 0 → Type 0 → Type 0
Action S A = S → Result A × S

module _ {S : Type 0} {A : Type 0} where
  abbrev pub pure : A → Action S A
  pure a s = (ok a, s)

  abbrev pub raise : Error → Action S A
  raise e s = (err e, s)

  abbrev pub gets : (S → A) → Action S A
  gets f s = (ok (f s), s)

  abbrev pub or_raise : Option A → Error → Action S A
  or_raise none e = raise e
  or_raise (some a) e = pure a

  abbrev pub lift : Result A → Action S A
  lift r s = (r, s)

infixl 5 ◌>>=◌ ◌>>◌
abbrev pub ◌>>=◌ : {S A B : Type 0} → Action S A → (A → Action S B) → Action S B
◌>>=◌ m f s = let (r, s') = m s in elim r [ ok a ↦ f a s' | err e ↦ (err e, s') ]

abbrev pub ◌>>◌ : {S A B : Type 0} → Action S A → Action S B → Action S B
m >> k = m >>= λ _. k

abbrev pub raise_if : {S : Type 0} → Bool → Error → Action S (Unit {0})
raise_if c e s = (if c then err e else ok tt, s)

abbrev pub modify : {S : Type 0} → (S → S) → Action S (Unit {0})
modify f s = (ok tt, f s)

pub Result-cases {ℓ} :
    {A : Type ℓ} (r : Result A) → ((e : Error) × (r ≡ err e)) ⊎ ((a : A) × (r ≡ ok a))
Result-cases (err e) = inl (e, refl)
Result-cases (ok a) = inr (a, refl)
