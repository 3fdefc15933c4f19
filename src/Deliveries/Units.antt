-- ===== src/Deliveries/Units.antt =====
-- The quantities of the deliveries as sums, and the dictionaries that hold them.
use qiki.Base.{
  ℕ, ◌+◌, ◌≤◌, ◌≡◌, refl, ◌⊎◌, inl, Bool, true, some, List, [], ◌∷◌, arith, Dict, IsTable, lookup,
  insert, lookup-insert, sum_values, sum_of, all, contains, ◌==◌, if◌then◌else◌, ok, Option-cases,
}
use qiki.Models.Order.{DeliveryStatus, OrderItem, DeliveryItem, Delivery, Order}
use qiki.Orders.Checkout.{get_or_zero}
use qiki.Deliveries.{
  add_lines, carried_by, is_active_status, find_item, check_lines, may_move, find_delivery,
}

-- The quantity of an order item in the lines of one delivery.
abbrev pub line_units : ℕ → List DeliveryItem → ℕ
line_units id = sum_of (λ i. if id == i.order_item_id then i.quantity else 0)

abbrev pub delivery_units : (DeliveryStatus → Bool) → ℕ → Delivery → ℕ
delivery_units p id v = if p v.status then line_units id v.items else 0

-- The quantity of an order item in all deliveries of some statuses.
abbrev pub carried_units : (DeliveryStatus → Bool) → ℕ → Dict Delivery → ℕ
carried_units p id = sum_values (delivery_units p id)

lookup-add_lines :
    (id : ℕ) (items : List DeliveryItem) (d : Dict ℕ)
    → get_or_zero (lookup id (add_lines items d)) ≡ get_or_zero (lookup id d) + line_units id items
unfolding add_lines
lookup-add_lines id [] d = omega arith
lookup-add_lines id (i ∷ items) d =
    let sum : ℕ = get_or_zero (lookup i.order_item_id d) + i.quantity in
    ground (
      arith,
      lookup-add_lines id items (insert i.order_item_id sum d),
      lookup-insert i.order_item_id id sum d,
    )

lookup-carried_by_from :
    (p : DeliveryStatus → Bool) (id : ℕ) (deliveries : Dict Delivery) (d : Dict ℕ)
    → get_or_zero (lookup id (carried_by p deliveries d))
      ≡ get_or_zero (lookup id d) + carried_units p id deliveries
unfolding carried_by sum_values
lookup-carried_by_from p id [] d = omega arith
lookup-carried_by_from p id ((k, v) ∷ deliveries) d = ground (
  arith,
  lookup-carried_by_from p id deliveries (if p v.status then add_lines v.items d else d),
  lookup-add_lines id v.items d,
)

-- The dictionary that the service builds holds the sums.
pub lookup-carried_by :
    (p : DeliveryStatus → Bool) (id : ℕ) (deliveries : Dict Delivery)
    → get_or_zero (lookup id (carried_by p deliveries [])) ≡ carried_units p id deliveries
unfolding lookup
lookup-carried_by p id deliveries = ground (arith, lookup-carried_by_from p id deliveries [])

pub find_item-id :
    (id : ℕ) (items : List OrderItem) (i : OrderItem) → find_item id items ≡ some i → i.id ≡ id
unfolding find_item
find_item-id id [] i e = cc
find_item-id id (j ∷ items) i e = ground (arith, find_item-id id items i)

pub all-find_item :
    (p : OrderItem → Bool) (id : ℕ) (items : List OrderItem) (i : OrderItem)
    → find_item id items ≡ some i
    → all p items ≡ true
    → (p i ≡ true) × (i.id ≡ id)
unfolding find_item
all-find_item p id [] i e h = cc
all-find_item p id (j ∷ items) i e h = ground (arith, all-find_item p id items i)

seen_line_units :
    (items : List OrderItem) (allocated : Dict ℕ) (seen : List ℕ) (lines : List DeliveryItem)
    (id : ℕ)
    → check_lines items allocated seen lines ≡ ok tt
    → contains id seen ≡ true
    → line_units id lines ≡ 0
unfolding check_lines
seen_line_units items allocated seen [] id h c = refl
seen_line_units items allocated seen (line ∷ lines) id h c = ground (
  arith,
  seen_line_units items allocated (line.order_item_id ∷ seen) lines id,
  Option-cases (find_item line.order_item_id items),
)

-- Lines that pass the checks stay within what is left of each item.
pub check_lines-le :
    (items : List OrderItem) (allocated : Dict ℕ) (seen : List ℕ) (lines : List DeliveryItem)
    (id : ℕ) (i : OrderItem)
    → check_lines items allocated seen lines ≡ ok tt
    → find_item id items ≡ some i
    → (line_units id lines ≡ 0)
      ⊎ (line_units id lines + get_or_zero (lookup id allocated) ≤ i.quantity)
unfolding check_lines
check_lines-le items allocated seen [] id i h e = inl refl
check_lines-le items allocated seen (line ∷ lines) id i h e = ground (
  arith,
  check_lines-le items allocated (line.order_item_id ∷ seen) lines id i,
  seen_line_units items allocated (line.order_item_id ∷ seen) lines id,
  find_item-id id items i e,
  Option-cases (find_item line.order_item_id items),
)

-- A delivery that may still move is one whose quantities count.
pub may_move-active :
    (status new_status : DeliveryStatus)
    → may_move status new_status ≡ true
    → is_active_status status ≡ true
unfolding may_move
may_move-active DeliveryStatus.pending new_status h = refl
may_move-active DeliveryStatus.shipping new_status h = refl
may_move-active DeliveryStatus.delivered new_status h = refl
may_move-active DeliveryStatus.failed new_status h = cc
may_move-active DeliveryStatus.cancelled new_status h = cc

pub find_delivery-lookup :
    (delivery_id : ℕ) (d : Dict Order) (k : ℕ) (o : Order) (v : Delivery)
    → IsTable (λ (o : Order). o.id) d
    → find_delivery delivery_id d ≡ some (k, o, v)
    → (lookup k d ≡ some o) × (lookup delivery_id o.deliveries ≡ some v)
unfolding find_delivery lookup
find_delivery-lookup delivery_id [] k o v h e = cc
find_delivery-lookup delivery_id ((j, o') ∷ d) k o v h e =
    ground (arith, find_delivery-lookup delivery_id d k o v h.2)
