-- ===== src/Deliveries.antt =====
-- backend/app/services/delivery_service.py: an order split into deliveries, their life cycle, and the
-- order's status derived from theirs.
pub mod Units
pub mod Allocation
pub mod Moving
pub mod Promise
pub mod Rollup
mod Tests
use qiki.Base.{
  ℕ, suc, ◌+◌, Bool, true, false, ◌&&◌, ◌||◌, not, Option, none, some, String, List, [], ◌∷◌, any,
  all, Dict, lookup, insert, contains, length, ltb, leb, ◌==◌, same_id, is_some, if◌then◌else◌,
  Result, ok, err, Error, Action, gets, or_raise, lift, pure, modify, raise_if, ◌>>=◌, ◌>>◌,
}
use qiki.Models.User.{User, is_driver}
use qiki.Models.Order.{
  OrderStatus, DeliveryStatus, same_order_status, same_delivery_status, OrderItem, DeliveryItem,
  Delivery, Order,
}
use qiki.Models.Store.{Store}
use qiki.Orders.Checkout.{get_or_zero}
use qiki.Orders.Status.{put_order}

abbrev pub delivery_status_transitions : DeliveryStatus → List DeliveryStatus
delivery_status_transitions DeliveryStatus.pending =
    DeliveryStatus.shipping ∷ DeliveryStatus.delivered ∷ DeliveryStatus.failed
    ∷ DeliveryStatus.cancelled ∷ []
delivery_status_transitions DeliveryStatus.shipping =
    DeliveryStatus.delivered ∷ DeliveryStatus.failed ∷ DeliveryStatus.cancelled ∷ []
delivery_status_transitions DeliveryStatus.delivered = []
delivery_status_transitions DeliveryStatus.failed = []
delivery_status_transitions DeliveryStatus.cancelled = []

unfoldable pub may_move : DeliveryStatus → DeliveryStatus → Bool
may_move status new_status =
    any (same_delivery_status new_status) (delivery_status_transitions status)

-- `table[item.order_item_id] = table.get(item.order_item_id, 0) + item.quantity`, line by line.
unfoldable pub add_lines : List DeliveryItem → Dict ℕ → Dict ℕ
add_lines [] d = d
add_lines (i ∷ items) d =
    add_lines items (insert i.order_item_id (get_or_zero (lookup i.order_item_id d) + i.quantity) d)

-- The quantities that the deliveries of some statuses carry, per order item.
unfoldable pub carried_by : (DeliveryStatus → Bool) → Dict Delivery → Dict ℕ → Dict ℕ
carried_by p [] d = d
carried_by p ((k, v) ∷ deliveries) d =
    carried_by p deliveries (if p v.status then add_lines v.items d else d)

abbrev pub is_active_status : DeliveryStatus → Bool
is_active_status DeliveryStatus.cancelled = false
is_active_status DeliveryStatus.failed = false
is_active_status _ = true

abbrev pub is_delivered_status : DeliveryStatus → Bool
is_delivered_status DeliveryStatus.delivered = true
is_delivered_status _ = false

unfoldable pub allocated_quantities : Order → Dict ℕ
allocated_quantities o = carried_by is_active_status o.deliveries []

unfoldable pub find_item : ℕ → List OrderItem → Option OrderItem
find_item id [] = none
find_item id (i ∷ items) = if id == i.id then some i else find_item id items

-- The checks on the lines of a new delivery. Python's `quantity > remaining` on integers that may be
-- negative is written with the allocated quantity on the other side.
unfoldable pub check_lines :
    List OrderItem → Dict ℕ → List ℕ → List DeliveryItem → Result (Unit {0})
check_lines items allocated seen [] = ok tt
check_lines items allocated seen (line ∷ lines) =
    let rest = check_lines items allocated (line.order_item_id ∷ seen) lines in
    if contains line.order_item_id seen
    then err Error.delivery_duplicate_item
    else elim (find_item line.order_item_id items) [
      | none ↦ err Error.delivery_item_invalid
      | some item ↦
          if ltb item.quantity (get_or_zero (lookup item.id allocated) + line.quantity)
          then err Error.delivery_over_allocation
          else rest
    ]

abbrev is_empty {ℓ} : {A : Type ℓ} → List A → Bool
is_empty [] = true
is_empty (x ∷ xs) = false

-- Every item has been delivered in full.
unfoldable pub fully_delivered : Order → Bool
fully_delivered o =
    let delivered = carried_by is_delivered_status o.deliveries [] in
    not (is_empty o.items)
    && all (λ i. leb i.quantity (get_or_zero (lookup i.id delivered))) o.items

abbrev first_time : Option ℕ → ℕ → Option ℕ
first_time none now = some now
first_time (some t) now = some t

abbrev not_shipped_yet : OrderStatus → Bool
not_shipped_yet OrderStatus.pending = true
not_shipped_yet OrderStatus.confirmed = true
not_shipped_yet _ = false

unfoldable pub any_shipping : Order → Bool
any_shipping o = any (λ e. same_delivery_status e.1.status DeliveryStatus.shipping) o.deliveries

-- The order with the status that its deliveries give it.
unfoldable pub rolled_up : ℕ → Order → Order
rolled_up now o =
    if is_empty o.deliveries || same_order_status o.status OrderStatus.cancelled
    then o
    else if fully_delivered o
    then record o { status = OrderStatus.delivered; delivered_at = first_time o.delivered_at now }
    else if any_shipping o && not_shipped_yet o.status
    then record o { status = OrderStatus.shipping }
    else o

unfoldable pub roll_up_order_status : ℕ → ℕ → Action Store (Unit {0})
roll_up_order_status now order_id s = elim (lookup order_id s.orders) [
  | none ↦ (ok tt, s)
  | some o ↦ (ok tt, put_order order_id (rolled_up now o) s)
]

pub record DeliveryCreate : Type 0 where
  pub items : List DeliveryItem
  pub scheduled_at : Option ℕ
  pub notes : Option String

unfoldable pub new_delivery : ℕ → DeliveryCreate → Order → Delivery
new_delivery delivery_id payload o = record {
  id = delivery_id;
  code = length o.deliveries + 1;
  status = DeliveryStatus.pending;
  driver_id = none;
  scheduled_at = payload.scheduled_at;
  delivered_at = none;
  notes = payload.notes;
  location = none;
  items = payload.items;
}

abbrev pub with_delivery : ℕ → Delivery → Order → Order
with_delivery delivery_id v o = record o { deliveries = insert delivery_id v o.deliveries }

-- The order row stays locked from the read to the insert.
unfoldable pub create_delivery : ℕ → ℕ → ℕ → DeliveryCreate → Action Store Delivery
create_delivery now delivery_id order_id payload = do
  found ← gets (λ s. lookup order_id s.orders)
  o ← or_raise found Error.order_not_found
  raise_if (same_order_status o.status OrderStatus.cancelled) Error.order_cancelled
  lift (check_lines o.items (allocated_quantities o) [] payload.items)
  modify (put_order order_id (with_delivery delivery_id (new_delivery delivery_id payload o) o))
  roll_up_order_status now order_id
  pure (new_delivery delivery_id payload o)

-- A delivery by its identifier, with the identifier of the order that owns it.
unfoldable pub find_delivery : ℕ → Dict Order → Option (ℕ × Order × Delivery)
find_delivery delivery_id [] = none
find_delivery delivery_id ((k, o) ∷ d) = elim (lookup delivery_id o.deliveries) [
  | none ↦ find_delivery delivery_id d
  | some v ↦ some (k, o, v)
]

abbrev keep_some {ℓ} : {A : Type ℓ} → Option A → Option A → Option A
keep_some none old = old
keep_some (some x) old = some x

abbrev stamp_delivered : DeliveryStatus → ℕ → Option ℕ → Option ℕ
stamp_delivered DeliveryStatus.delivered now old = some now
stamp_delivered _ now old = old

unfoldable pub moved : ℕ → DeliveryStatus → Option String → Option (ℕ × ℕ) → Delivery → Delivery
moved now new_status notes location v = record v {
  status = new_status;
  notes = keep_some notes v.notes;
  location = keep_some location v.location;
  delivered_at = stamp_delivered new_status now v.delivered_at;
}

unfoldable pub update_delivery_status :
    ℕ → ℕ → ℕ → DeliveryStatus → Option String → Action Store (Unit {0})
update_delivery_status now order_id delivery_id new_status notes = do
  found ← gets (λ s. find_delivery delivery_id s.orders)
  (owner, o, v) ← or_raise found Error.delivery_not_found
  raise_if (not (owner == order_id)) Error.delivery_not_found
  raise_if (not (may_move v.status new_status)) Error.invalid_delivery_status_transition
  modify (put_order owner (with_delivery delivery_id (moved now new_status notes none v) o))
  roll_up_order_status now order_id

-- A driver's update of a delivery of theirs; the location is kept where both coordinates are given.
unfoldable pub driver_update_status :
    ℕ → ℕ → ℕ → Bool → DeliveryStatus → Option String → Option (ℕ × ℕ) → Action Store (Unit {0})
driver_update_status now delivery_id actor_id is_admin new_status notes location = do
  found ← gets (λ s. find_delivery delivery_id s.orders)
  (owner, o, v) ← or_raise found Error.delivery_not_found
  raise_if (not is_admin && not (same_id v.driver_id actor_id)) Error.delivery_not_found
  raise_if (not (may_move v.status new_status)) Error.invalid_delivery_status_transition
  modify (put_order owner (with_delivery delivery_id (moved now new_status notes location v) o))
  roll_up_order_status now owner

driver_account : Option User → Bool
driver_account none = false
driver_account (some u) = is_driver u

-- The identifier of an assignee must be an account that may drive.
assignable : Dict User → Option ℕ → Bool
assignable users none = true
assignable users (some k) = driver_account (lookup k users)

unfoldable pub assign_driver : Dict User → ℕ → Option ℕ → Action Store (Unit {0})
unfolding assignable driver_account
assign_driver users delivery_id driver_id = do
  found ← gets (λ s. find_delivery delivery_id s.orders)
  (owner, o, v) ← or_raise found Error.delivery_not_found
  raise_if (not (assignable users driver_id)) Error.invalid_driver
  modify (put_order owner (with_delivery delivery_id (record v { driver_id = driver_id }) o))
