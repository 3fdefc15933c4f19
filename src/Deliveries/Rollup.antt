-- ===== src/Deliveries/Rollup.antt =====
-- The order's status as its deliveries give it, and the life of an order under every operation.
use qiki.Base.{
  ℕ, ◌≤◌, ◌≡◌, ◌↔◌, ◌∙◌, refl, ◌⊎◌, Bool, true, false, Option, some, String, [], ◌∷◌, arith, Dict,
  lookup, sum_values, leb,
}
use qiki.Models.Order.{OrderStatus, same_order_status, OrderItem, Delivery, Order}
use qiki.Orders.Checkout.{get_or_zero}
use qiki.Orders.Status.{may_become, with_status}
use qiki.Deliveries.{
  is_active_status, is_delivered_status, carried_by, find_item, fully_delivered, rolled_up,
  with_delivery,
}
use qiki.Deliveries.Units.{carried_units, lookup-carried_by, all-find_item}
use qiki.Deliveries.Allocation.{WithinOrder}

delivered-le-active :
    (id : ℕ) (deliveries : Dict Delivery)
    → carried_units is_delivered_status id deliveries ≤ carried_units is_active_status id deliveries
unfolding sum_values
delivered-le-active id [] = omega arith
delivered-le-active id ((k, v) ∷ deliveries) = ground (arith, delivered-le-active id deliveries)

-- Where no item is promised beyond its quantity, an order counts as fully delivered only if each of
-- its items has been delivered in exactly the quantity that was ordered.
pub fully_delivered_exact :
    (o : Order) (id : ℕ) (i : OrderItem)
    → WithinOrder o
    → fully_delivered o ≡ true
    → find_item id o.items ≡ some i
    → carried_units is_delivered_status id o.deliveries ≡ i.quantity
unfolding fully_delivered
fully_delivered_exact o id i h full e =
    let delivered = carried_by is_delivered_status o.deliveries [] in
    ground (
      arith,
      h id i e,
      all-find_item (λ i. leb i.quantity (get_or_zero (lookup i.id delivered))) id o.items i e,
      lookup-carried_by is_delivered_status id o.deliveries,
      delivered-le-active id o.deliveries,
    )

-- A change that some operation makes to a stored order: along the table of transitions, or to its
-- deliveries, or by rolling their statuses up.
pub data Change (o : Order) : Order → Type 0 where
  transition :
      (new_status : OrderStatus) (notes : Option String) (now : ℕ)
      → may_become o.status new_status ≡ true
      → Change o (with_status new_status notes now o)
  delivery : (k : ℕ) (v : Delivery) → Change o (with_delivery k v o)
  rollup : (now : ℕ) → Change o (rolled_up now o)

pub data History (o : Order) : Order → Type 0 where
  here : History o o
  next : {p q : Order} → History o p → Change p q → History o q

abbrev pub is_final : OrderStatus → Bool
is_final OrderStatus.delivered = true
is_final OrderStatus.cancelled = true
is_final _ = false

with_status-final :
    (o : Order) (new_status : OrderStatus) (notes : Option String) (now : ℕ)
    → may_become o.status new_status ≡ true
    → is_final o.status ≡ false
unfolding may_become
with_status-final o new_status notes now h = ground arith

rolled_up_status :
    (now : ℕ) (o : Order)
    → (is_final o.status ≡ true → (rolled_up now o).status ≡ o.status)
      × ((rolled_up now o).items ≡ o.items)
      × ((rolled_up now o).total_amount ≡ o.total_amount)
unfolding rolled_up
rolled_up_status now o = ground arith

abbrev Kept : Order → Order → Type 0
Kept o p =
    (is_final o.status ≡ true → p.status ≡ o.status)
    × (p.items ≡ o.items)
    × (p.total_amount ≡ o.total_amount)

Change-Kept : {p q : Order} → Change p q → Kept p q
unfolding with_status
Change-Kept {p} (transition new_status notes now h) =
    (λ f. absurd (ground (arith, with_status-final p new_status notes now h)), refl, refl)
Change-Kept (delivery k v) = (λ f. refl, refl, refl)
Change-Kept {p} (rollup now) = rolled_up_status now p

-- Through any sequence of status changes, deliveries and roll-ups, an order that is delivered or
-- cancelled keeps that status for good, and no order ever changes its items or its total.
History-Kept :
    {o p : Order}
    → History o p
    → (is_final o.status ≡ true → p.status ≡ o.status)
      × (p.items ≡ o.items)
      × (p.total_amount ≡ o.total_amount)
History-Kept here = (λ f. refl, refl, refl)
History-Kept {o} (next {p} {q} h c) =
    let (first, items, total) = History-Kept h in
    let (second, items', total') = Change-Kept c in
    (λ f. final_step first second f, items' ∙ items, total' ∙ total)
  where
    final_step :
        (is_final o.status ≡ true → p.status ≡ o.status)
        → (is_final p.status ≡ true → q.status ≡ p.status)
        → is_final o.status ≡ true
        → q.status ≡ o.status
    final_step first second f = second (rw (first f) f) ∙ first f

-- The roll-up makes an order delivered exactly when it is not cancelled, has deliveries, and all its
-- items are delivered in full, or it was delivered before.
rolled_up_delivered :
    (now : ℕ) (o : Order) (k : ℕ) (v : Delivery) (rest : Dict Delivery)
    → o.deliveries ≡ (k, v) ∷ rest
    → ((rolled_up now o).status ≡ OrderStatus.delivered) ↔ (
        (o.status ≡ OrderStatus.delivered)
        ⊎ ((fully_delivered o ≡ true) × (same_order_status o.status OrderStatus.cancelled ≡ false)))
unfolding rolled_up
rolled_up_delivered now o k v rest e = (λ h. ground arith, λ h. ground arith)
