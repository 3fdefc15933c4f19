-- ===== src/Deliveries/Allocation.antt =====
-- No item of an order is ever promised to deliveries in a larger quantity than was ordered.
use qiki.Base.{
  ℕ, ◌≤◌, ◌≡◌, sym, ◌∙◌, inl, inr, true, Option, none, some, String, [], arith, IsTable, lookup,
  lookup-insert, insert-IsTable, sum_values-insert, sum_values-insert_new, ok, Option-cases,
  lookup-IsTable,
}
use mathlib.Core.Path.{subst}
use qiki.Models.Order.{DeliveryStatus, OrderItem, Delivery, Order}
use qiki.Models.Store.{Store}
use qiki.Orders.Status.{put_order}
use qiki.Deliveries.{
  is_active_status, allocated_quantities, find_item, check_lines, may_move, rolled_up,
  roll_up_order_status, DeliveryCreate, new_delivery, with_delivery, moved,
}
use qiki.Deliveries.Units.{
  delivery_units, carried_units, lookup-carried_by, check_lines-le, may_move-active,
}

-- Of each item at most the ordered quantity is in deliveries that are neither failed nor cancelled.
abbrev pub WithinOrder : Order → Type 0
WithinOrder o =
    (id : ℕ) (i : OrderItem)
    → find_item id o.items ≡ some i
    → carried_units is_active_status id o.deliveries ≤ i.quantity

-- Every stored order stands under its identifier and stays within its quantities.
pub record IsAllocated (s : Store) : Type 0 where
  pub table : IsTable (λ (o : Order). o.id) s.orders
  pub within : (k : ℕ) (o : Order) → lookup k s.orders ≡ some o → WithinOrder o

pub new_delivery-WithinOrder :
    (delivery_id : ℕ) (payload : DeliveryCreate) (o : Order)
    → WithinOrder o
    → lookup delivery_id o.deliveries ≡ none
    → check_lines o.items (allocated_quantities o) [] payload.items ≡ ok tt
    → WithinOrder (with_delivery delivery_id (new_delivery delivery_id payload o) o)
unfolding new_delivery allocated_quantities
new_delivery-WithinOrder delivery_id payload o h fresh checked id i e =
    let v = new_delivery delivery_id payload o in
    ground (
      arith,
      h id i e,
      check_lines-le o.items (allocated_quantities o) [] payload.items id i checked e,
      lookup-carried_by is_active_status id o.deliveries,
      sum_values-insert_new (delivery_units is_active_status id) delivery_id v o.deliveries fresh,
    )

pub moved-WithinOrder :
    (now delivery_id : ℕ) (new_status : DeliveryStatus) (notes : Option String)
    (location : Option (ℕ × ℕ)) (o : Order) (v : Delivery)
    → WithinOrder o
    → lookup delivery_id o.deliveries ≡ some v
    → may_move v.status new_status ≡ true
    → WithinOrder (with_delivery delivery_id (moved now new_status notes location v) o)
unfolding moved
moved-WithinOrder now delivery_id new_status notes location o v h found allowed id i e = ground (
  arith,
  h id i e,
  may_move-active v.status new_status allowed,
  sum_values-insert (delivery_units is_active_status id) delivery_id
      (moved now new_status notes location v) v o.deliveries found,
)

pub rolled_up_same :
    (now : ℕ) (o : Order)
    → ((rolled_up now o).id ≡ o.id)
      × ((rolled_up now o).items ≡ o.items)
      × ((rolled_up now o).deliveries ≡ o.deliveries)
unfolding rolled_up
rolled_up_same now o = ground arith

pub put_order-IsAllocated :
    (k : ℕ) (o : Order) (s : Store)
    → IsAllocated s
    → k ≡ o.id
    → WithinOrder o
    → IsAllocated (put_order k o s)
put_order-IsAllocated k o s h same within = record {
  table = rw same (insert-IsTable (λ (o : Order). o.id) o s.orders h.table);
  within = λ j o' e id i found. ground (
    arith,
    lookup-insert k j o s.orders,
    λ (q : lookup j s.orders ≡ some o'). h.within j o' q id i found,
    λ (q : o ≡ o'). within_moved q id i found,
  );
}
  where
    within_moved : {o' : Order} → o ≡ o' → WithinOrder o'
    within_moved q = subst WithinOrder q within

roll_up_absent :
    (now k : ℕ) (s : Store) → lookup k s.orders ≡ none → (roll_up_order_status now k s).1 ≡ s
unfolding roll_up_order_status
roll_up_absent now k s absent = rw (absent, roll_up_order_status)

pub roll_up_found :
    (now k : ℕ) (s : Store) (o : Order)
    → lookup k s.orders ≡ some o
    → (roll_up_order_status now k s).1 ≡ put_order k (rolled_up now o) s
unfolding roll_up_order_status
roll_up_found now k s o found = rw (found, roll_up_order_status)

pub roll_up-IsAllocated :
    (now k : ℕ) (s : Store) → IsAllocated s → IsAllocated (roll_up_order_status now k s).1
roll_up-IsAllocated now k s h = elim (Option-cases (lookup k s.orders)) [
  | inl absent ↦ rw (roll_up_absent now k s absent) h
  | inr (o, found) ↦
      let (same_id, same_items, same_deliveries) = rolled_up_same now o in
      let within : WithinOrder (rolled_up now o) =
        λ id i e. rw same_deliveries (h.within k o found id i (rw same_items at e)) in
      rw (roll_up_found now k s o found) (
        put_order-IsAllocated k (rolled_up now o) s h
          (lookup-IsTable (λ (o : Order). o.id) k o s.orders h.table found ∙ sym same_id) within)
]
