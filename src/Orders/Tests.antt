-- ===== src/Orders/Tests.antt =====
-- Runs of checkout, status changes and reorders on the small store, and the theorems at these inputs.
use qiki.Base.{
  ℕ, ◌+◌, ◌*◌, ◌≤◌, ◌≡◌, ◌≢◌, refl, ◌⊎◌, true, Option, none, some, String, [], arith, lookup,
  sum_of, Result, ok, err, Error,
}
use qiki.Models.User.{User}
use qiki.Models.Order.{OrderStatus, Order}
use qiki.Models.Store.{Store, transaction}
use qiki.Stock.Levels.{stock_of, ProductTable}
use qiki.Orders.Checkout.{get_by_idempotency_key, create_order}
use qiki.Orders.Cancel.{can_view, update_order_status, cancel_order}
use qiki.Orders.Reorder.{ReorderResponse, reorder}
use qiki.Orders.Lines.{units_of, rate_of, fee_rate}
use qiki.Orders.Placed.{rows_of}
use qiki.Orders.Inventory.{inventory}
use qiki.Orders.Create.{inventory-create_order, create_order_replay, create_order_amounts}
use qiki.Orders.Cancellation.{inventory-cancel_order, cancel_order_lem}
use qiki.Orders.Fixture.{
  shop, owner, clerk, env, basket, large_basket, checkout_code, order_of, placed, placed_shop,
}

abbrev cancelled_shop : Store
cancelled_shop = (cancel_order 600 7 (some owner) none none shop).1

abbrev shipped : Order
shipped = order_of (update_order_status 600 7 OrderStatus.shipping clerk none shop).0

abbrev shipped_shop : Store
shipped_shop = (update_order_status 600 7 OrderStatus.shipping clerk none shop).1

abbrev cart_of : Result ReorderResponse → ReorderResponse
cart_of (ok r) = r
cart_of (err e) = record { items = []; skipped = [] }

abbrev cart : ReorderResponse
cart = cart_of (reorder 7 owner shop).0

shop-ProductTable : ProductTable shop
unfolding lookup
shop-ProductTable = ground arith

total_example : placed.total_amount ≡ 104_500_000
unfolding checkout_code
total_example = refl

too_many : create_order env large_basket (some owner) 88 shop ≡ (err Error.insufficient_stock, shop)
unfolding checkout_code
too_many = refl

inventory-create_order_example : inventory 1 placed_shop ≡ inventory 1 shop
unfolding lookup
inventory-create_order_example =
    inventory-create_order env basket (some owner) 88 shop shop-ProductTable refl 1

create_order_replay_example :
    (((get_by_idempotency_key 88 shop.orders ≡ some placed) × (placed_shop ≡ shop))
      ⊎ ((get_by_idempotency_key 88 shop.orders ≡ none)
          × (placed.id ≡ env.order_id)
          × (lookup placed.id placed_shop.orders ≡ some placed)))
    × (create_order env large_basket none 88 placed_shop ≡ (ok placed, placed_shop))
unfolding checkout_code
create_order_replay_example =
    create_order_replay env basket (some owner) 88 shop {o = placed} {s' = placed_shop}
      shop-ProductTable refl env large_basket none

create_order_amounts_example :
    (placed.subtotal
      ≡ sum_of (λ i. rate_of (rows_of basket shop) i.product_id * i.quantity) basket.items)
    × (placed.shipping_fee
        ≡ sum_of (λ i. fee_rate (rows_of basket shop) i.product_id * i.quantity) basket.items)
    × (placed.discount_amount ≤ placed.subtotal)
    × (placed.total_amount + placed.discount_amount ≡ placed.subtotal + placed.shipping_fee)
unfolding checkout_code
create_order_amounts_example =
    create_order_amounts env basket (some owner) 88 shop {o = placed} {s' = placed_shop}
      shop-ProductTable refl refl

inventory-cancel_order_example :
    inventory 1 (transaction (cancel_order 600 7 (some owner) none none) shop).1 ≡ inventory 1 shop
inventory-cancel_order_example = inventory-cancel_order 600 7 (some owner) none none shop 1

cancel_order_lem_example :
    let o' = order_of (cancel_order 600 7 (some owner) none none shop).0 in
    ((o : Order) × (lookup 7 shop.orders ≡ some o)
      × (can_view o (some owner) none ≡ true)
      × ((o.status ≡ OrderStatus.pending) ⊎ (o.status ≡ OrderStatus.confirmed))
      × ((k : ℕ) → stock_of k cancelled_shop ≡ stock_of k shop + units_of k o.items))
    × (lookup 7 cancelled_shop.orders ≡ some o')
    × (o'.status ≡ OrderStatus.cancelled)
    × ((later : ℕ) (user' : Option User) (reason' phone' : Option String) (o'' : Order)
        → (cancel_order later 7 user' reason' phone' cancelled_shop).0 ≢ ok o'')
unfolding checkout_code
cancel_order_lem_example =
    cancel_order_lem 600 7 (some owner) none none shop
      {o' = order_of (cancel_order 600 7 (some owner) none none shop).0} {s' = cancelled_shop} refl
