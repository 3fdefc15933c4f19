-- ===== src/Models/Coupon.antt =====
-- backend/app/models/coupon.py: a discount code and its recorded uses.
use qiki.Base.{ℕ, Bool, Option, String}

pub data DiscountType : Type 0 where
  percent fixed : DiscountType

pub record Coupon : Type 0 where
  pub id : ℕ
  pub code : String
  pub discount_type : DiscountType
  -- A percentage is held in hundredths of a percent, an amount in hundredths.
  pub value : ℕ
  pub min_order : ℕ
  pub max_discount : Option ℕ
  pub usage_limit : Option ℕ
  pub used_count : ℕ
  pub per_user_limit : Option ℕ
  pub active : Bool
  pub starts_at : Option ℕ
  pub ends_at : Option ℕ

pub record CouponRedemption : Type 0 where
  pub coupon_id : ℕ
  pub user_id : Option ℕ
  pub order_id : ℕ
  pub created_at : ℕ
