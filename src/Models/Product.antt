-- ===== src/Models/Product.antt =====
-- backend/app/models/product.py and backend/app/utils/pricing.py: a priced and stocked product row.
use qiki.Base.{ℕ, Bool, ◌&&◌, Option, none, some, String, ltb, leb, if◌then◌else◌}

pub data Category : Type 0 where
  gas nuoc_uong : Category

pub record Product : Type 0 where
  pub id : ℕ
  pub sku : String
  pub name : String
  pub brand : String
  pub size_kg : ℕ
  pub category : Category
  pub unit : String
  pub price : ℕ
  pub sale_price : Option ℕ
  pub stock_quantity : ℕ
  pub image_url : Option String
  pub is_active : Bool

-- The sale price wins only when it is a valid discount, `0 < sale_price < price`.
unfoldable pub effective_price : ℕ → Option ℕ → ℕ
effective_price price none = price
effective_price price (some sale_price) =
    if ltb 0 sale_price && ltb sale_price price then sale_price else price

unfoldable pub product_price : Product → ℕ
unfolding effective_price
product_price p = effective_price p.price p.sale_price

unfoldable pub is_in_stock : Product → Bool
is_in_stock p = ltb 0 p.stock_quantity

unfoldable pub is_low_stock : Product → ℕ → Bool
is_low_stock p threshold = ltb 0 p.stock_quantity && leb p.stock_quantity threshold
