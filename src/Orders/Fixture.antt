-- ===== src/Orders/Fixture.antt =====
-- A small store for the tests: two products, one coupon, one order of an earlier day.
use qiki.Base.{
  ℕ, ◌+◌, true, false, none, some, [], ◌∷◌, lookup, insert, sum_values, Result, ok, err,
}
use qiki.Models.User.{Role, User, is_staff}
use qiki.Models.Product.{Category, Product, product_price, effective_price}
use qiki.Models.Coupon.{DiscountType, Coupon}
use qiki.Models.Order.{
  OrderStatus, DeliveryStatus, OrderItem, Delivery, OrderSource, PaymentMethod, PaymentStatus,
  Order, can_be_cancelled,
}
use qiki.Models.Store.{Store, transaction}
use qiki.Stock.{get_many_for_update, decrement_stock, increment_stock}
use qiki.Coupons.{
  compute_discount, round_half_even, check_eligibility, get_by_code, check_user_limit,
  count_user_redemptions, apply_coupon, record_redemption,
}
use qiki.Orders.Status.{may_become, with_status, update_status}
use qiki.Orders.Checkout.{
  calculate_delivery_fee, get_by_idempotency_key, product_ids, check_products, add_requests,
  add_exchanges, item_data, build_items, items_subtotal, fee_of, calculate_shipping,
  checkout_coupon, total_due, decrement_all, last_counter, new_order, redeem, place_order,
  create_order, CheckoutRequest, Surroundings,
}
use qiki.Orders.Cancel.{restock_item, restock, can_view, update_order_status, cancel_order}
use qiki.Orders.Reorder.{reorder_line, reorder_lines, reorder}
use qiki.Orders.Lines.{price_of}

abbrev pub cylinder : Product
cylinder = record {
  id = 1;
  sku = "ELF12";
  name = "Elf";
  brand = "Elf";
  size_kg = 1200;
  category = Category.gas;
  unit = "kg";
  price = 46_000_000;
  sale_price = some 45_000_000;
  stock_quantity = 5;
  image_url = none;
  is_active = true;
}

abbrev pub water : Product
water = record {
  id = 2;
  sku = "LAVIE";
  name = "Lavie";
  brand = "Lavie";
  size_kg = 1900;
  category = Category.nuoc_uong;
  unit = "lit";
  price = 6_000_000;
  sale_price = none;
  stock_quantity = 10;
  image_url = none;
  is_active = true;
}

abbrev pub tenth_off : Coupon
tenth_off = record {
  id = 9;
  code = "GAS10";
  discount_type = DiscountType.percent;
  value = 1000;
  min_order = 1_000_000;
  max_discount = some 5_000_000;
  usage_limit = some 2;
  used_count = 0;
  per_user_limit = some 1;
  active = true;
  starts_at = none;
  ends_at = some 900;
}

abbrev pub past_item : OrderItem
past_item = record {
  id = 70;
  product_id = some 1;
  product_name = "Elf";
  product_brand = "Elf";
  product_size_kg = 1200;
  quantity = 2;
  unit_price = 46_000_000;
  subtotal = 92_000_000;
  is_exchange = false;
}

abbrev pub first_trip : Delivery
first_trip = record {
  id = 40;
  code = 1;
  status = DeliveryStatus.pending;
  driver_id = some 4;
  scheduled_at = none;
  delivered_at = none;
  notes = none;
  location = none;
  items = record { order_item_id = 70; quantity = 1 } ∷ [];
}

abbrev pub past_order : Order
past_order = record {
  id = 7;
  order_number = record { day = 100; counter = 3 };
  user_id = some 5;
  customer_name = "An";
  customer_phone = "+84912345678";
  delivery_address = "1 Le Loi";
  subtotal = 92_000_000;
  shipping_fee = 0;
  discount_amount = 0;
  coupon_id = none;
  coupon_code = none;
  total_amount = 92_000_000;
  payment_method = PaymentMethod.cod;
  payment_status = PaymentStatus.pending;
  status = OrderStatus.confirmed;
  source = OrderSource.website;
  idempotency_key = some 77;
  internal_notes = none;
  cancelled_at = none;
  cancelled_reason = none;
  delivered_at = none;
  items = past_item ∷ [];
  deliveries = (40, first_trip) ∷ [];
}

abbrev pub shop : Store
shop = record {
  products = (1, cylinder) ∷ (2, water) ∷ [];
  coupons = (9, tenth_off) ∷ [];
  redemptions = [];
  orders = (7, past_order) ∷ [];
}

abbrev pub account : ℕ → Role → User
account id role = record {
  id = id;
  email = none;
  phone = some "+84912345678";
  hashed_password = none;
  email_verified = false;
  role = role;
  is_active = true;
}

abbrev pub owner : User
owner = account 5 Role.customer

abbrev pub clerk : User
clerk = account 6 Role.staff

abbrev pub env : Surroundings
env = record {
  now = 500;
  today = 100;
  order_id = 8;
  item_id = λ n. 80 + n;
  has_coupon_service = true;
}

abbrev pub basket : CheckoutRequest
basket = record {
  items =
      record { product_id = 1; quantity = 1; is_exchange = false }
      ∷ record { product_id = 2; quantity = 3; is_exchange = false }
      ∷ record { product_id = 1; quantity = 1; is_exchange = true }
      ∷ [];
  customer_name = "An";
  customer_phone = "+84912345678";
  delivery_address = "1 Le Loi";
  payment_method = PaymentMethod.cod;
  source = OrderSource.website;
  coupon_code = some "GAS10";
}

-- The basket with more cylinders than there are.
abbrev pub large_basket : CheckoutRequest
large_basket = record basket {
  items = record { product_id = 1; quantity = 6; is_exchange = false } ∷ [];
}

-- Everything that a run of these operations computes with.
unfoldable pub checkout_code : Unit {0}
unfolding lookup insert sum_values effective_price product_price is_staff can_be_cancelled
    transaction get_many_for_update decrement_stock increment_stock round_half_even compute_discount
    check_eligibility get_by_code check_user_limit count_user_redemptions apply_coupon
    record_redemption may_become with_status update_status calculate_delivery_fee
    get_by_idempotency_key product_ids check_products add_requests add_exchanges item_data
    build_items items_subtotal fee_of calculate_shipping checkout_coupon total_due decrement_all
    last_counter new_order redeem place_order create_order restock_item restock can_view
    update_order_status cancel_order reorder_line reorder_lines reorder price_of
checkout_code = tt

abbrev pub order_of : Result Order → Order
order_of (ok o) = o
order_of (err e) = past_order

abbrev pub placed : Order
placed = order_of (create_order env basket (some owner) 88 shop).0

abbrev pub placed_shop : Store
placed_shop = (create_order env basket (some owner) 88 shop).1
