-- ===== src/Orders/Checkout.antt =====
-- `OrderService.create_order`: from a checkout request to a stored order.
use qiki.Base.{
  ℕ, suc, ◌+◌, ◌-◌, ◌*◌, max, Bool, false, ◌||◌, not, Option, none, some, List, [], ◌∷◌, String,
  Dict, lookup, insert, contains, sum_of, ltb, ◌==◌, same_id, if◌then◌else◌, Result, ok, err, Error,
  Action, gets, lift, pure, modify, raise_if, ◌>>=◌, ◌>>◌,
}
use qiki.Models.User.{User, user_id_of}
use qiki.Models.Product.{Category, Product, product_price}
use qiki.Models.Coupon.{Coupon}
use qiki.Models.Order.{OrderStatus, OrderItem, OrderSource, PaymentMethod, PaymentStatus, Order}
use qiki.Models.Store.{Store}
use qiki.Stock.{get_many_for_update, decrement_stock}
use qiki.Coupons.{apply_coupon, record_redemption}
use qiki.Orders.Status.{put_order}

pub record OrderItemCreate : Type 0 where
  pub product_id : ℕ
  pub quantity : ℕ
  pub is_exchange : Bool

-- The fields of the request that the service reads, after the validators of its schema.
pub record CheckoutRequest : Type 0 where
  pub items : List OrderItemCreate
  pub customer_name : String
  pub customer_phone : String
  pub delivery_address : String
  pub payment_method : PaymentMethod
  pub source : OrderSource
  pub coupon_code : Option String

-- What the surroundings supply: the clock, the day that the order number names, the identifiers
-- that the database draws, and whether a coupon service was given.
pub record Surroundings : Type 0 where
  pub now : ℕ
  pub today : ℕ
  pub order_id : ℕ
  pub item_id : ℕ → ℕ
  pub has_coupon_service : Bool

abbrev pub water_delivery_fee_per_unit : ℕ
water_delivery_fee_per_unit = 500_000

unfoldable pub calculate_delivery_fee : Category → ℕ → ℕ
calculate_delivery_fee Category.nuoc_uong quantity = water_delivery_fee_per_unit * quantity
calculate_delivery_fee Category.gas quantity = 0

unfoldable pub get_by_idempotency_key : ℕ → Dict Order → Option Order
get_by_idempotency_key key [] = none
get_by_idempotency_key key ((k, o) ∷ d) =
    if same_id o.idempotency_key key then some o else get_by_idempotency_key key d

-- `list({item.product_id for item in items})`; a Python set has no order, this one keeps the last
-- occurrences.
unfoldable pub product_ids : List OrderItemCreate → List ℕ
product_ids [] = []
product_ids (i ∷ items) =
    let rest = product_ids items in if contains i.product_id rest then rest else i.product_id ∷ rest

-- Every product exists and is on sale.
unfoldable pub check_products : Dict Product → List ℕ → Result (Unit {0})
check_products products [] = ok tt
check_products products (k ∷ ids) = elim (lookup k products) [
  | none ↦ err Error.product_not_found
  | some p ↦
      let rest = check_products products ids in
      if p.is_active then rest else err Error.product_inactive
]

abbrev pub get_or_zero : Option ℕ → ℕ
get_or_zero none = 0
get_or_zero (some n) = n

abbrev pub get_or_false : Option Bool → Bool
get_or_false none = false
get_or_false (some b) = b

-- The requested quantities, summed per product.
unfoldable pub add_requests : List OrderItemCreate → Dict ℕ → Dict ℕ
add_requests [] d = d
add_requests (i ∷ items) d =
    add_requests items (insert i.product_id (get_or_zero (lookup i.product_id d) + i.quantity) d)

unfoldable pub add_exchanges : List OrderItemCreate → Dict Bool → Dict Bool
add_exchanges [] d = d
add_exchanges (i ∷ items) d =
    add_exchanges items
      (insert i.product_id (get_or_false (lookup i.product_id d) || i.is_exchange) d)

-- A row of `items_data`, before it is given an identifier.
unfoldable pub item_data : Product → ℕ → Bool → ℕ → OrderItem
item_data p quantity exchange item_id = record {
  id = item_id;
  product_id = some p.id;
  product_name = p.name;
  product_brand = p.brand;
  product_size_kg = p.size_kg;
  quantity = quantity;
  unit_price = product_price p;
  subtotal = product_price p * quantity;
  is_exchange = exchange;
}

-- The loop over the requested products: checks the stock, prices each line at its effective price.
-- The `n`-th item gets the identifier `item_id n`.
unfoldable pub build_items :
    Dict Product → Dict Bool → (ℕ → ℕ) → ℕ → Dict ℕ → Result (List OrderItem)
build_items products exchanges item_id n [] = ok []
build_items products exchanges item_id n ((k, quantity) ∷ requested) = elim (lookup k products) [
  | none ↦ err Error.internal_error
  | some p ↦
      let rest = build_items products exchanges item_id (suc n) requested in
      if ltb p.stock_quantity quantity then err Error.insufficient_stock else elim rest [
        | err e ↦ err e
        | ok items ↦
            ok (item_data p quantity (get_or_false (lookup k exchanges)) (item_id n) ∷ items)
      ]
]

unfoldable pub items_subtotal : List OrderItem → ℕ
items_subtotal = sum_of (λ i. i.subtotal)

unfoldable pub fee_of : Option Product → ℕ → ℕ
unfolding calculate_delivery_fee
fee_of none quantity = 0
fee_of (some p) quantity = calculate_delivery_fee p.category quantity

unfoldable pub calculate_shipping : Dict Product → Dict ℕ → ℕ
unfolding fee_of
calculate_shipping products [] = 0
calculate_shipping products ((k, quantity) ∷ requested) =
    fee_of (lookup k products) quantity + calculate_shipping products requested

-- The coupon and the discount that it gives, if the request carries a code.
unfoldable pub checkout_coupon :
    Surroundings → Option String → ℕ → Option User → Action Store (Option Coupon × ℕ)
checkout_coupon env none subtotal user = pure (none, 0)
checkout_coupon env (some code) subtotal user = do
  raise_if (not env.has_coupon_service) Error.coupon_unavailable
  (c, discount) ← apply_coupon env.now code subtotal user
  pure (some c, discount)

-- `if total_amount < 0: total_amount = 0`
unfoldable pub total_due : ℕ → ℕ → ℕ → ℕ
total_due subtotal shipping_fee discount =
    if ltb (subtotal + shipping_fee) discount then 0 else subtotal + shipping_fee - discount

unfoldable pub decrement_all : Dict ℕ → Action Store (Unit {0})
decrement_all [] = pure tt
decrement_all ((k, quantity) ∷ requested) = do decrement_stock k quantity; decrement_all requested

-- The highest counter among the order numbers of a day.
unfoldable pub last_counter : ℕ → Dict Order → ℕ
last_counter today [] = 0
last_counter today ((k, o) ∷ d) =
    let rest = last_counter today d in
    if o.order_number.day == today then max o.order_number.counter rest else rest

abbrev pub coupon_id_of : Option Coupon → Option ℕ
coupon_id_of none = none
coupon_id_of (some c) = some c.id

abbrev pub coupon_code_of : Option Coupon → Option String
coupon_code_of none = none
coupon_code_of (some c) = some c.code

-- The `order_data` of the request, with the number that `create_with_items` draws.
unfoldable pub new_order :
    Surroundings
    → CheckoutRequest
    → Option User
    → ℕ
    → List OrderItem
    → ℕ
    → Option Coupon
    → ℕ
    → Dict Order
    → Order
new_order env request user key items shipping_fee coupon discount orders = record {
  id = env.order_id;
  order_number = record { day = env.today; counter = last_counter env.today orders + 1 };
  user_id = user_id_of user;
  customer_name = request.customer_name;
  customer_phone = request.customer_phone;
  delivery_address = request.delivery_address;
  subtotal = items_subtotal items;
  shipping_fee = shipping_fee;
  discount_amount = discount;
  coupon_id = coupon_id_of coupon;
  coupon_code = coupon_code_of coupon;
  total_amount = total_due (items_subtotal items) shipping_fee discount;
  payment_method = request.payment_method;
  payment_status = PaymentStatus.pending;
  status = OrderStatus.pending;
  source = request.source;
  idempotency_key = some key;
  internal_notes = none;
  cancelled_at = none;
  cancelled_reason = none;
  delivered_at = none;
  items = items;
  deliveries = [];
}

unfoldable pub redeem : Surroundings → Option Coupon → Option User → Action Store (Unit {0})
redeem env none user = pure tt
redeem env (some c) user = record_redemption env.now c (user_id_of user) env.order_id

unfoldable pub place_order : Surroundings → CheckoutRequest → Option User → ℕ → Action Store Order
place_order env request user key = do
  let ids = product_ids request.items
  products ← gets (λ s. get_many_for_update ids s.products)
  lift (check_products products ids)
  let requested = add_requests request.items []
  items ← lift (build_items products (add_exchanges request.items []) env.item_id 0 requested)
  let shipping_fee = calculate_shipping products requested
  (coupon, discount) ← checkout_coupon env request.coupon_code (items_subtotal items) user
  decrement_all requested
  o ← gets (λ s. new_order env request user key items shipping_fee coupon discount s.orders)
  modify (put_order env.order_id o)
  redeem env coupon user
  pure o

unfoldable pub create_order : Surroundings → CheckoutRequest → Option User → ℕ → Action Store Order
create_order env request user key s = elim (get_by_idempotency_key key s.orders) [
  | some existing ↦ (ok existing, s)
  | none ↦ place_order env request user key s
]
