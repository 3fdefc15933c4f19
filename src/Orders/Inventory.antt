-- ===== src/Orders/Inventory.antt =====
-- Checkout and the stock: what an order takes is what the shelves lose.
use qiki.Base.{
  ℕ, ◌+◌, ◌≡◌, refl, Option, none, some, [], arith, sum_values, sum_values-insert_new, lookup,
  insert, if◌then◌else◌,
}
use qiki.Models.User.{User}
use qiki.Models.Coupon.{Coupon}
use qiki.Models.Order.{Order}
use qiki.Models.Store.{Store}
use qiki.Stock.Levels.{stock_of, ProductTable}
use qiki.Coupons.{record_redemption}
use qiki.Orders.Status.{put_order}
use qiki.Orders.Cancel.{is_cancelled}
use qiki.Orders.Checkout.{
  CheckoutRequest, Surroundings, add_exchanges, new_order, redeem, calculate_shipping,
}
use qiki.Orders.Requests.{requested_units, lookup-add_requests, add_requests-HasKeysOnce}
use qiki.Orders.Lines.{units_of, units_of-build_items}
use qiki.Orders.Placed.{rows_of, requested_of, rows_of-IsKeyed, Placed}

-- The units of a product that an order holds: none once it is cancelled.
abbrev pub order_units : ℕ → Order → ℕ
order_units k o = if is_cancelled o.status then 0 else units_of k o.items

abbrev pub held : ℕ → Store → ℕ
held k s = sum_values (order_units k) s.orders

-- Units on hand and units in orders that are not cancelled.
abbrev pub inventory : ℕ → Store → ℕ
inventory k s = stock_of k s + held k s

pub redeem_same :
    (env : Surroundings) (coupon : Option Coupon) (user : Option User) (s : Store)
    → ((redeem env coupon user s).1.products ≡ s.products)
      × ((redeem env coupon user s).1.orders ≡ s.orders)
unfolding redeem record_redemption
redeem_same env none user s = (refl, refl)
redeem_same env (some c) user s = (refl, refl)

module _ (env : Surroundings) (request : CheckoutRequest) (user : Option User) (key : ℕ) (s : Store)
    {o : Order} {s' : Store} (placed : Placed env request user key s o s') where
  pub rest_same :
      (s'.products ≡ placed.middle.products) × (s'.orders ≡ insert env.order_id o s.orders)
  rest_same =
      let order =
        new_order env request user key placed.items
          (calculate_shipping (rows_of request s) (requested_of request)) placed.coupon
          placed.discount placed.middle.orders in
      let same = redeem_same env placed.coupon user (put_order env.order_id order placed.middle) in
      (
        ground (arith, placed.stored, same.0),
        ground (arith, placed.stored, placed.order, placed.taken.same.orders, same.1),
      )

  pub placed_orders : s'.orders ≡ insert env.order_id o s.orders
  placed_orders = rest_same.1

  -- The stock of each product falls by the units that the request asks for.
  pub placed_stock : (k : ℕ) → stock_of k s' + requested_units k request.items ≡ stock_of k s
  unfolding lookup
  placed_stock k =
      ground (arith, rest_same.0, placed.taken.stock k, lookup-add_requests k request.items [])

  pub placed_units : ProductTable s → (k : ℕ) → order_units k o ≡ requested_units k request.items
  unfolding new_order lookup
  placed_units h k = ground (
    arith,
    placed.order,
    lookup-add_requests k request.items [],
    units_of-build_items (rows_of request s) (add_exchanges request.items []) env.item_id 0
        (requested_of request) (rows_of-IsKeyed request s h)
        (add_requests-HasKeysOnce request.items [] tt) placed.lines k,
  )

  pub placed_inventory :
      ProductTable s
      → lookup env.order_id s.orders ≡ none
      → (k : ℕ) → inventory k s' ≡ inventory k s
  placed_inventory h fresh k = ground (
    arith,
    placed_stock k,
    placed_units h k,
    placed_orders,
    sum_values-insert_new (order_units k) env.order_id o s.orders fresh,
  )
