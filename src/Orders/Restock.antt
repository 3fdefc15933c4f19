-- ===== src/Orders/Restock.antt =====
-- Cancellation and the stock: the units of a cancelled order come back, once.
use qiki.Base.{
  ℕ, ◌+◌, ◌≡◌, refl, inl, inr, true, false, Option, none, some, String, List, [], ◌∷◌, arith,
  sum_values-insert, lookup, same_id, if◌then◌else◌, ok, Option-cases, Result-cases, Bool-cases,
}
use qiki.Models.Order.{OrderStatus, OrderItem, Order}
use qiki.Models.Store.{Store}
use qiki.Stock.{set_stock, increment_stock}
use qiki.Stock.Levels.{stock_of, stock_of-set_stock}
use qiki.Orders.Status.{may_become, with_status, put_order, update_status}
use qiki.Orders.Cancel.{restock_item, restock, is_cancelled}
use qiki.Orders.Decrement.{SameRest}
use qiki.Orders.Lines.{units_of}
use qiki.Orders.Inventory.{order_units, inventory}

-- What giving items back leaves behind.
pub record Restocked (items : List OrderItem) (s s' : Store) : Type 0 where
  pub stock : (k : ℕ) → stock_of k s' ≡ stock_of k s + units_of k items
  pub same : SameRest s s'

restock_item_lem :
    (o : Option ℕ) (q : ℕ) (s : Store)
    → (restock_item o q s).0 ≡ ok tt
    → let s' = (restock_item o q s).1 in
      ((k : ℕ) → stock_of k s' ≡ stock_of k s + (if same_id o k then q else 0)) × SameRest s s'
unfolding restock_item increment_stock
restock_item_lem none q s h =
    (λ k. omega arith, record { coupons = refl; redemptions = refl; orders = refl })
restock_item_lem (some j) q s h = elim (Option-cases (lookup j s.products)) [
  | inl absent ↦ absurd (ground arith)
  | inr (p, found) ↦ (
    λ k. ground (arith, stock_of-set_stock j k p (p.stock_quantity + q) s),
    unfold set_stock in
        record { coupons = ground arith; redemptions = ground arith; orders = ground arith },
  )
]

pub restock_lem :
    (items : List OrderItem) (s : Store)
    → (restock items s).0 ≡ ok tt
    → Restocked items s (restock items s).1
unfolding restock
restock_lem [] s h = record {
  stock = λ k. omega arith;
  same = record { coupons = refl; redemptions = refl; orders = refl };
}
restock_lem (i ∷ items) s h = elim (Result-cases (restock_item i.product_id i.quantity s).0) [
  | inl (e, failed) ↦ absurd (ground arith)
  | inr (_, done) ↦
      let middle = (restock_item i.product_id i.quantity s).1 in
      let (stock, same) = restock_item_lem i.product_id i.quantity s done in
      let rest = restock_lem items middle (ground arith) in
      record {
        stock = λ k. ground (arith, stock k, rest.stock k);
        same = record {
          coupons = ground (arith, same.coupons, rest.same.coupons);
          redemptions = ground (arith, same.redemptions, rest.same.redemptions);
          orders = ground (arith, same.orders, rest.same.orders);
        };
      }
]

-- An order that may change its status is not cancelled.
may_become-live :
    (status new_status : OrderStatus)
    → may_become status new_status ≡ true
    → is_cancelled status ≡ false
unfolding may_become
may_become-live OrderStatus.cancelled new_status h = cc
may_become-live OrderStatus.pending new_status h = refl
may_become-live _ new_status h = refl

abbrev pub returned : OrderStatus → Order → List OrderItem
returned new_status o = if is_cancelled new_status then o.items else []

abbrev pub after : ℕ → ℕ → OrderStatus → Option String → Order → Store → Store
after now order_id new_status notes o s =
    put_order order_id (with_status new_status notes now o) (restock (returned new_status o) s).1

module _ (now order_id : ℕ) (new_status : OrderStatus) (notes : Option String) (o : Order)
    (s : Store) (found : lookup order_id s.orders ≡ some o)
    (allowed : may_become o.status new_status ≡ true)
    (done : (restock (returned new_status o) s).0 ≡ ok tt) where
  pub update_status-after :
      update_status now order_id new_status notes (restock (returned new_status o) s).1
      ≡ (ok (with_status new_status notes now o), after now order_id new_status notes o s)
  unfolding update_status
  update_status-after = ground (arith, (restock_lem (returned new_status o) s done).same.orders)

  pub inventory-after :
      (k : ℕ) → inventory k (after now order_id new_status notes o s) ≡ inventory k s
  unfolding with_status
  inventory-after k =
      let d = restock_lem (returned new_status o) s done in
      let live = may_become-live o.status new_status allowed in
      ground (
        arith,
        d.stock k,
        d.same.orders,
        sum_values-insert (order_units k) order_id (with_status new_status notes now o) o s.orders
            found,
        Bool-cases (is_cancelled new_status),
      )
