-- ===== src/Coupons.antt =====
-- backend/app/services/coupon_service.py and backend/app/repositories/coupon_repository.py: discount
-- computation, eligibility, redemption at checkout, and the administrator's updates.

pub mod Discount
pub mod Admin
pub mod Redeem
mod Tests
use qiki.Base.{
  ℕ, ◌+◌, ◌*◌, ◌/◌, ◌%◌, Bool, true, false, ◌&&◌, not, Option, none, some, List, [], ◌∷◌, ◌++◌,
  String, Dict, lookup, insert, select, length, ltb, leb, ◌==◌, same_id, is_some, if◌then◌else◌,
  Result, ok, err, Error, Action, gets, or_raise, lift, modify, raise_if, ◌>>=◌, ◌>>◌,
}
use text.Mathlib.Text.{◌==◌ as str_eq}
use qiki.Models.User.{User, is_admin}
use qiki.Models.Coupon.{DiscountType, Coupon, CouponRedemption}
use qiki.Models.Store.{Store}

-- `n / 10000` to the nearest whole number, a tie to the even one: `Decimal.quantize` in Python's
-- default rounding.
unfoldable pub round_half_even : ℕ → ℕ
round_half_even n =
    let q = n / 10_000 in
    let twice = 2 * (n % 10_000) in
    if ltb twice 10_000
    then q
    else if ltb 10_000 twice
    then q + 1
    else if q % 2 == 0
    then q
    else q + 1

raw_discount : DiscountType → ℕ → ℕ → ℕ
raw_discount DiscountType.percent value subtotal = round_half_even (subtotal * value)
raw_discount DiscountType.fixed value subtotal = value

cap_discount : Option ℕ → ℕ → ℕ
cap_discount none discount = discount
cap_discount (some top) discount = if ltb top discount then top else discount

-- Amounts are never negative here, so the last clamp of the source, at 0, changes nothing.
unfoldable pub compute_discount : Coupon → ℕ → ℕ
unfolding raw_discount cap_discount
compute_discount c subtotal =
    let discount = cap_discount c.max_discount (raw_discount c.discount_type c.value subtotal) in
    if ltb subtotal discount then subtotal else discount

-- `bound and now < bound`
abbrev before_start : Option ℕ → ℕ → Bool
before_start none now = false
before_start (some t) now = ltb now t

-- `bound and now >= bound`
abbrev past_end : Option ℕ → ℕ → Bool
past_end none now = false
past_end (some t) now = leb t now

-- `limit is not None and count >= limit`
abbrev pub reached : Option ℕ → ℕ → Bool
reached none count = false
reached (some limit) count = leb limit count

unfoldable pub check_eligibility : Option Coupon → ℕ → ℕ → Result Coupon
check_eligibility none subtotal now = err Error.coupon_not_found
check_eligibility (some c) subtotal now =
    if not c.active
    then err Error.coupon_inactive
    else if before_start c.starts_at now
    then err Error.coupon_not_started
    else if past_end c.ends_at now
    then err Error.coupon_expired
    else if reached c.usage_limit c.used_count
    then err Error.coupon_usage_exhausted
    else if ltb subtotal c.min_order
    then err Error.coupon_min_order
    else ok c

-- The schemas have already upper-cased and stripped the code that is looked up.
unfoldable pub get_by_code : String → Dict Coupon → Option Coupon
get_by_code code [] = none
get_by_code code ((k, c) ∷ d) = if str_eq c.code code then some c else get_by_code code d

pub record CouponQuote : Type 0 where
  pub code : String
  pub discount_type : DiscountType
  pub value : ℕ
  pub discount_amount : ℕ
  pub min_order : ℕ

unfoldable pub validate_coupon : ℕ → String → ℕ → Action Store CouponQuote
validate_coupon now code subtotal = do
  found ← gets (λ s. get_by_code code s.coupons)
  c ← lift (check_eligibility found subtotal now)
  gets (λ s. record {
    code = c.code;
    discount_type = c.discount_type;
    value = c.value;
    discount_amount = compute_discount c subtotal;
    min_order = c.min_order;
  })

unfoldable pub count_user_redemptions : ℕ → ℕ → List CouponRedemption → ℕ
count_user_redemptions coupon_id user_id rows =
    length (select (λ r. (r.coupon_id == coupon_id) && same_id r.user_id user_id) rows)

-- The limit per account, which a guest cannot meet.
unfoldable pub check_user_limit :
    Option ℕ → ℕ → Option User → List CouponRedemption → Result (Unit {0})
check_user_limit none coupon_id user rows = ok tt
check_user_limit (some limit) coupon_id none rows = err Error.coupon_requires_account
check_user_limit (some limit) coupon_id (some u) rows =
    if leb limit (count_user_redemptions coupon_id u.id rows)
    then err Error.coupon_per_user_exhausted
    else ok tt

unfoldable pub apply_coupon : ℕ → String → ℕ → Option User → Action Store (Coupon × ℕ)
apply_coupon now code subtotal user = do
  found ← gets (λ s. get_by_code code s.coupons)
  c ← lift (check_eligibility found subtotal now)
  rows ← gets (λ s. s.redemptions)
  lift (check_user_limit c.per_user_limit c.id user rows)
  gets (λ s. (c, compute_discount c subtotal))

-- Increments the row's counter and inserts the redemption.
unfoldable pub record_redemption : ℕ → Coupon → Option ℕ → ℕ → Action Store (Unit {0})
record_redemption now c user_id order_id = modify λ s. record s {
  coupons = insert c.id (record c { used_count = c.used_count + 1 }) s.coupons;
  redemptions =
      s.redemptions
      ++ (record { coupon_id = c.id; user_id = user_id; order_id = order_id; created_at = now }
          ∷ []);
}

-- A partial update: `none` is a field that the payload leaves unset, `some none` an explicit null.
pub record CouponUpdate : Type 0 where
  pub discount_type : Option (Option DiscountType)
  pub value : Option (Option ℕ)
  pub min_order : Option (Option ℕ)
  pub max_discount : Option (Option ℕ)
  pub usage_limit : Option (Option ℕ)
  pub per_user_limit : Option (Option ℕ)
  pub active : Option (Option Bool)
  pub starts_at : Option (Option ℕ)
  pub ends_at : Option (Option ℕ)

-- `update_data.get(field, current)` on a column that may be null.
abbrev pub merged {ℓ} : {A : Type ℓ} → Option A → A → A
merged none current = current
merged (some x) current = x

abbrev is_percent : Option DiscountType → Bool
is_percent (some DiscountType.percent) = true
is_percent _ = false

abbrev empty_window : Option ℕ → Option ℕ → Bool
empty_window (some from) (some to) = leb to from
empty_window _ _ = false

-- The checks on the merged state. `Decimal(str(None))` raises on an explicit null value.
unfoldable pub validate_update : Coupon → CouponUpdate → Result (Unit {0})
validate_update c u =
    let discount_type = merged u.discount_type (some c.discount_type) in
    let window = empty_window (merged u.starts_at c.starts_at) (merged u.ends_at c.ends_at) in
    elim (merged u.value (some c.value)) [
      | none ↦ err Error.internal_error
      | some value ↦
          if is_percent discount_type && ltb 10_000 value
          then err Error.invalid_coupon
          else if window
          then err Error.invalid_coupon
          else ok tt
    ]

abbrev or_null {ℓ κ} : {A : Type ℓ} {B : Type κ} → Option A → (A → Result B) → Result B
or_null none f = err Error.internal_error
or_null (some a) f = f a

-- Writes the row; the database refuses a null in a column that wants a value.
unfoldable pub updated_row : Coupon → CouponUpdate → Result Coupon
updated_row c u = or_null (merged u.discount_type (some c.discount_type)) (λ discount_type.
    or_null (merged u.value (some c.value)) (λ value.
      or_null (merged u.min_order (some c.min_order)) (λ min_order.
        or_null (merged u.active (some c.active)) (λ active. ok (record c {
          discount_type = discount_type;
          value = value;
          min_order = min_order;
          active = active;
          max_discount = merged u.max_discount c.max_discount;
          usage_limit = merged u.usage_limit c.usage_limit;
          per_user_limit = merged u.per_user_limit c.per_user_limit;
          starts_at = merged u.starts_at c.starts_at;
          ends_at = merged u.ends_at c.ends_at;
        })))))

unfoldable pub update_coupon : ℕ → CouponUpdate → User → Action Store Coupon
update_coupon coupon_id payload admin = do
  raise_if (not (is_admin admin)) Error.admin_required
  found ← gets (λ s. lookup coupon_id s.coupons)
  c ← or_raise found Error.coupon_not_found
  lift (validate_update c payload)
  c' ← lift (updated_row c payload)
  modify (λ s. record s { coupons = insert coupon_id c' s.coupons })
  gets (λ s. c')

-- The cross-field rules of `CouponBase`, which a payload has passed before the service sees it.
unfoldable pub validate_coupon_rules : Coupon → Bool
validate_coupon_rules c =
    not (is_percent (some c.discount_type) && ltb 10_000 c.value)
    && not (empty_window c.starts_at c.ends_at)

-- A payload is the row that it becomes; `id` is the identifier that the database draws.
unfoldable pub create_coupon : Coupon → User → Action Store Coupon
create_coupon c admin = do
  raise_if (not (is_admin admin)) Error.admin_required
  raise_if (not (validate_coupon_rules c)) Error.validation_error
  clash ← gets (λ s. get_by_code c.code s.coupons)
  raise_if (is_some clash) Error.duplicate_coupon_code
  modify (λ s. record s { coupons = insert c.id (record c { used_count = 0 }) s.coupons })
  gets (λ s. record c { used_count = 0 })
