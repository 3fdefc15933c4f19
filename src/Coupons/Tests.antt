-- ===== src/Coupons/Tests.antt =====
-- Coupons at concrete amounts, and the theorems at a redemption and an update.
use qiki.Base.{ℕ, ◌≤◌, ◌≡◌, refl, true, false, none, some, [], ◌∷◌, arith, lookup, insert}
use qiki.Models.User.{Role, User, is_admin}
use qiki.Models.Coupon.{DiscountType, Coupon}
use qiki.Models.Store.{Store}
use qiki.Coupons.{
  round_half_even, compute_discount, check_eligibility, get_by_code, check_user_limit,
  count_user_redemptions, apply_coupon, record_redemption, CouponUpdate, validate_update,
  updated_row, update_coupon,
}
use qiki.Coupons.Discount.{compute_discount_bounds}
use qiki.Coupons.Redeem.{IsLedger, redeem-IsLedger}
use qiki.Coupons.Admin.{AllWellFormed}

unfoldable coupon_code : Unit {0}
unfolding lookup insert is_admin round_half_even compute_discount check_eligibility get_by_code
    check_user_limit count_user_redemptions apply_coupon record_redemption validate_update
    updated_row update_coupon
coupon_code = tt

abbrev spring : Coupon
spring = record {
  id = 3;
  code = "SPRING";
  discount_type = DiscountType.percent;
  value = 1250;
  min_order = 0;
  max_discount = some 700;
  usage_limit = some 1;
  used_count = 0;
  per_user_limit = some 1;
  active = true;
  starts_at = some 10;
  ends_at = some 20;
}

abbrev desk : Store
desk = record { products = []; coupons = (3, spring) ∷ []; redemptions = []; orders = [] }

abbrev person : Role → User
person role = record {
  id = 5;
  email = none;
  phone = none;
  hashed_password = none;
  email_verified = false;
  role = role;
  is_active = true;
}

abbrev raise_value : CouponUpdate
raise_value = record {
  discount_type = none;
  value = some (some 2000);
  min_order = none;
  max_discount = some none;
  usage_limit = none;
  per_user_limit = none;
  active = none;
  starts_at = none;
  ends_at = some (some 30);
}

-- Ties go to the even hundredth: 12.5% of 0.04 is 0.005, of 0.12 it is 0.015.
ties : (compute_discount spring 4 ≡ 0) × (compute_discount spring 12 ≡ 2)
unfolding coupon_code
ties = (refl, refl)

desk-IsLedger : IsLedger desk
unfolding lookup
desk-IsLedger = record {
  table = ground arith;
  within = λ k c e limit lim. ground arith;
  counted = λ k c e. ground arith;
}

desk-AllWellFormed : AllWellFormed desk
unfolding lookup
desk-AllWellFormed k c e = record {
  percent_le = λ p. ground arith;
  window = λ from to p q. ground arith;
}

compute_discount_bounds_example :
    (compute_discount spring 9000 ≤ 9000)
    × ((top : ℕ) → spring.max_discount ≡ some top → compute_discount spring 9000 ≤ top)
compute_discount_bounds_example = compute_discount_bounds spring 9000

redeem-IsLedger_example : IsLedger (record_redemption 15 spring (some 5) 8 desk).1
unfolding coupon_code
redeem-IsLedger_example =
    redeem-IsLedger 15 "SPRING" 4000 (some (person Role.customer)) 8 desk {c = spring}
      {discount = 500} {s' = desk} desk-IsLedger refl

abbrev raised : Coupon
raised = record spring { value = 2000; max_discount = none; ends_at = some 30 }

abbrev raised_desk : Store
raised_desk = record desk { coupons = (3, raised) ∷ [] }
