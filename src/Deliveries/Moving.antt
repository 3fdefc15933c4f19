-- ===== src/Deliveries/Moving.antt =====
-- What a status change of a delivery leaves in the tables (`DeliveryService.update_delivery_status` of
-- backend/app/services/delivery_service.py).
use qiki.Base.{
  ℕ, ◌≡◌, Option, some, String, arith, lookup, insert, lookup-insert, lookup-insert_self,
  if◌then◌else◌, ◌==◌,
}
use qiki.Models.Order.{DeliveryStatus, Delivery, Order}
use qiki.Models.Store.{Store}
use qiki.Orders.Status.{put_order}
use qiki.Deliveries.{rolled_up, roll_up_order_status, with_delivery, moved}
use qiki.Deliveries.Allocation.{rolled_up_same, roll_up_found}

-- In `s'` the delivery `v` of the order `o` has the new status and its old lines and driver; no other
-- delivery, no other order and no line of an order has changed.
pub record IsMoved (order_id delivery_id : ℕ) (new_status : DeliveryStatus) (o : Order)
    (v : Delivery) (s s' : Store) : Type 0 where
  pub order : Order
  pub delivery : Delivery
  pub status : delivery.status ≡ new_status
  pub driver : delivery.driver_id ≡ v.driver_id
  pub lines : delivery.items ≡ v.items
  pub items : order.items ≡ o.items
  pub deliveries :
      (j : ℕ)
      → lookup j order.deliveries
        ≡ (if j == delivery_id then some delivery else lookup j o.deliveries)
  pub orders :
      (k : ℕ) → lookup k s'.orders ≡ (if k == order_id then some order else lookup k s.orders)
  pub products : s'.products ≡ s.products

roll_up-put_order :
    (now k : ℕ) (o : Order) (s : Store)
    → (roll_up_order_status now k (put_order k o s)).1
      ≡ put_order k (rolled_up now o) (put_order k o s)
roll_up-put_order now k o s =
    roll_up_found now k (put_order k o s) o (lookup-insert_self k o s.orders)

pub stored-IsMoved :
    (now order_id delivery_id : ℕ) (new_status : DeliveryStatus) (notes : Option String)
    (location : Option (ℕ × ℕ)) (o : Order) (v : Delivery) (s s' : Store)
    → s'
      ≡ (roll_up_order_status now order_id (
          put_order order_id
            (with_delivery delivery_id (moved now new_status notes location v) o)
            s)).1
    → IsMoved order_id delivery_id new_status o v s s'
unfolding moved
stored-IsMoved now order_id delivery_id new_status notes location o v s s' stored =
    let v' = moved now new_status notes location v in
    let o₁ = with_delivery delivery_id v' o in
    let (_, same_items, same_deliveries) = rolled_up_same now o₁ in
    let after = roll_up-put_order now order_id o₁ s in
    record {
      order = rolled_up now o₁;
      delivery = v';
      status = ground arith;
      driver = ground arith;
      lines = ground arith;
      items = same_items;
      deliveries =
          λ j. ground (arith, same_deliveries, lookup-insert delivery_id j v' o.deliveries);
      orders = λ k. ground (
        arith,
        stored,
        after,
        lookup-insert order_id k (rolled_up now o₁) (insert order_id o₁ s.orders),
        lookup-insert order_id k o₁ s.orders,
      );
      products = ground (arith, stored, after);
    }
