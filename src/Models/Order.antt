-- ===== src/Models/Order.antt =====
-- backend/app/models/order.py and backend/app/models/delivery.py: an order with the line items and
-- the deliveries that it owns.
use qiki.Base.{ℕ, Bool, true, false, Option, String, List, Dict, ◌==◌}

pub data OrderStatus : Type 0 where
  pending confirmed shipping delivered cancelled : OrderStatus

pub data DeliveryStatus : Type 0 where
  pending shipping delivered failed cancelled : DeliveryStatus

-- Equality of two status strings.
abbrev order_status_code : OrderStatus → ℕ
order_status_code OrderStatus.pending = 0
order_status_code OrderStatus.confirmed = 1
order_status_code OrderStatus.shipping = 2
order_status_code OrderStatus.delivered = 3
order_status_code OrderStatus.cancelled = 4

abbrev pub same_order_status : OrderStatus → OrderStatus → Bool
same_order_status s t = order_status_code s == order_status_code t

abbrev delivery_status_code : DeliveryStatus → ℕ
delivery_status_code DeliveryStatus.pending = 0
delivery_status_code DeliveryStatus.shipping = 1
delivery_status_code DeliveryStatus.delivered = 2
delivery_status_code DeliveryStatus.failed = 3
delivery_status_code DeliveryStatus.cancelled = 4

abbrev pub same_delivery_status : DeliveryStatus → DeliveryStatus → Bool
same_delivery_status s t = delivery_status_code s == delivery_status_code t

-- `GB-<day>-<counter>`, kept as its two parts.
pub record OrderNumber : Type 0 where
  pub day : ℕ
  pub counter : ℕ

pub record OrderItem : Type 0 where
  pub id : ℕ
  pub product_id : Option ℕ
  pub product_name : String
  pub product_brand : String
  pub product_size_kg : ℕ
  pub quantity : ℕ
  pub unit_price : ℕ
  pub subtotal : ℕ
  pub is_exchange : Bool

pub record DeliveryItem : Type 0 where
  pub order_item_id : ℕ
  pub quantity : ℕ

pub record Delivery : Type 0 where
  pub id : ℕ
  -- The `n` of the code `<order number>-D<n>`.
  pub code : ℕ
  pub status : DeliveryStatus
  pub driver_id : Option ℕ
  pub scheduled_at : Option ℕ
  pub delivered_at : Option ℕ
  pub notes : Option String
  pub location : Option (ℕ × ℕ)
  pub items : List DeliveryItem

pub data OrderSource : Type 0 where
  website chatbot : OrderSource

pub data PaymentMethod : Type 0 where
  cod bank_transfer : PaymentMethod

pub data PaymentStatus : Type 0 where
  pending paid refunded : PaymentStatus

pub record Order : Type 0 where
  pub id : ℕ
  pub order_number : OrderNumber
  pub user_id : Option ℕ
  pub customer_name : String
  pub customer_phone : String
  pub delivery_address : String
  pub subtotal : ℕ
  pub shipping_fee : ℕ
  pub discount_amount : ℕ
  pub coupon_id : Option ℕ
  pub coupon_code : Option String
  pub total_amount : ℕ
  pub payment_method : PaymentMethod
  pub payment_status : PaymentStatus
  pub status : OrderStatus
  pub source : OrderSource
  pub idempotency_key : Option ℕ
  pub internal_notes : Option String
  pub cancelled_at : Option ℕ
  pub cancelled_reason : Option String
  pub delivered_at : Option ℕ
  pub items : List OrderItem
  pub deliveries : Dict Delivery

cancellable_status : OrderStatus → Bool
cancellable_status OrderStatus.pending = true
cancellable_status OrderStatus.confirmed = true
cancellable_status _ = false

unfoldable pub can_be_cancelled : Order → Bool
unfolding cancellable_status
can_be_cancelled o = cancellable_status o.status
