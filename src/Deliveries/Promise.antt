-- ===== src/Deliveries/Promise.antt =====
-- The operations on deliveries keep every order within its quantities.
use qiki.Base.{
  ℕ, ◌≡◌, ◌⊎◌, inl, inr, Bool, true, Option, none, some, String, [], ◌∷◌, arith, Dict, lookup, ok,
  err, Error, Option-cases, lookup-IsTable,
}
use qiki.Models.Order.{DeliveryStatus, Delivery, Order}
use qiki.Models.Store.{Store}
use qiki.Orders.Status.{put_order}
use qiki.Deliveries.{
  allocated_quantities, check_lines, may_move, roll_up_order_status, DeliveryCreate, new_delivery,
  with_delivery, create_delivery, find_delivery, moved, update_delivery_status,
  driver_update_status,
}
use qiki.Deliveries.Moving.{IsMoved, stored-IsMoved}
use qiki.Deliveries.Units.{find_delivery-lookup}
use qiki.Deliveries.Allocation.{
  IsAllocated, new_delivery-WithinOrder, moved-WithinOrder, put_order-IsAllocated,
  roll_up-IsAllocated,
}

find_delivery-none :
    (delivery_id k : ℕ) (o : Order) (d : Dict Order)
    → find_delivery delivery_id d ≡ none
    → lookup k d ≡ some o
    → lookup delivery_id o.deliveries ≡ none
unfolding find_delivery lookup
find_delivery-none delivery_id k o [] h e = cc
find_delivery-none delivery_id k o ((j, o') ∷ d) h e =
    ground
      (arith, find_delivery-none delivery_id k o d, Option-cases (lookup delivery_id o'.deliveries))

roll_up_ok : (now k : ℕ) (s : Store) → (roll_up_order_status now k s).0 ≡ ok tt
unfolding roll_up_order_status
roll_up_ok now k s = ground arith

create_delivery_inv :
    (now delivery_id order_id : ℕ) (payload : DeliveryCreate) (s : Store) {v : Delivery}
    {s' : Store}
    → create_delivery now delivery_id order_id payload s ≡ (ok v, s')
    → (o : Order) × (lookup order_id s.orders ≡ some o)
      × (check_lines o.items (allocated_quantities o) [] payload.items ≡ ok tt)
      × (s'
          ≡ (roll_up_order_status now order_id (
              put_order order_id
                (with_delivery delivery_id (new_delivery delivery_id payload o) o)
                s)).1)
unfolding create_delivery
create_delivery_inv now delivery_id order_id payload s e =
    elim (Option-cases (lookup order_id s.orders)) [
      | inl absent ↦ absurd (ground arith)
      | inr (o, found) ↦ (o, found, ground arith, ground arith)
    ]

-- Accepting a new delivery, under an identifier that no delivery has, keeps every order within its
-- quantities: counted over all its deliveries that are neither failed nor cancelled, no item is
-- promised in a larger quantity than was ordered.
pub create_delivery-IsAllocated :
    (now delivery_id order_id : ℕ) (payload : DeliveryCreate) (s : Store) {v : Delivery}
    {s' : Store}
    → IsAllocated s
    → find_delivery delivery_id s.orders ≡ none
    → create_delivery now delivery_id order_id payload s ≡ (ok v, s')
    → IsAllocated s'
create_delivery-IsAllocated now delivery_id order_id payload s h fresh e =
    let (o, found, checked, stored) = create_delivery_inv now delivery_id order_id payload s e in
    let o' = with_delivery delivery_id (new_delivery delivery_id payload o) o in
    rw stored (
      roll_up-IsAllocated now order_id (put_order order_id o' s) (
        put_order-IsAllocated order_id o' s h
          (lookup-IsTable (λ (o : Order). o.id) order_id o s.orders h.table found)
          (new_delivery-WithinOrder delivery_id payload o (h.within order_id o found)
            (find_delivery-none delivery_id order_id o s.orders fresh found) checked)))

-- A refused delivery writes nothing.
pub create_delivery_err :
    (now delivery_id order_id : ℕ) (payload : DeliveryCreate) (s : Store) {e : Error} {s' : Store}
    → create_delivery now delivery_id order_id payload s ≡ (err e, s')
    → s' ≡ s
unfolding create_delivery
create_delivery_err now delivery_id order_id payload s h =
    elim (Option-cases (lookup order_id s.orders)) [
      | inl absent ↦ ground arith
      | inr (o, found) ↦ ground (
        arith,
        roll_up_ok now order_id (
            put_order order_id (with_delivery delivery_id (new_delivery delivery_id payload o) o)
              s),
      )
    ]

moved_stored :
    (now k delivery_id : ℕ) (new_status : DeliveryStatus) (notes : Option String)
    (location : Option (ℕ × ℕ)) (o : Order) (v : Delivery) (s : Store)
    → IsAllocated s
    → find_delivery delivery_id s.orders ≡ some (k, o, v)
    → may_move v.status new_status ≡ true
    → IsAllocated
        (roll_up_order_status now k
          (put_order k (with_delivery delivery_id (moved now new_status notes location v) o) s)).1
moved_stored now k delivery_id new_status notes location o v s h e allowed =
    let (found, inside) = find_delivery-lookup delivery_id s.orders k o v h.table e in
    let o' = with_delivery delivery_id (moved now new_status notes location v) o in
    roll_up-IsAllocated now k (put_order k o' s) (
      put_order-IsAllocated k o' s h
        (lookup-IsTable (λ (o : Order). o.id) k o s.orders h.table found)
        (moved-WithinOrder now delivery_id new_status notes location o v (h.within k o found) inside
          allowed))

-- A status change by the staff that succeeds moves the named delivery of the named order along the
-- delivery's own transitions: the delivery stands there with the new status and its old lines and
-- driver, and no other delivery, no other order and no product has changed. Every order stays
-- within its quantities: a failed or cancelled delivery, whose units may have been promised
-- again, never comes back.
pub update_delivery_status-IsAllocated :
    (now order_id delivery_id : ℕ) (new_status : DeliveryStatus) (notes : Option String) (s : Store)
    {s' : Store}
    → IsAllocated s
    → update_delivery_status now order_id delivery_id new_status notes s ≡ (ok tt, s')
    → IsAllocated s'
      × ((o : Order) × (v : Delivery) × (lookup order_id s.orders ≡ some o)
          × (lookup delivery_id o.deliveries ≡ some v)
          × (may_move v.status new_status ≡ true)
          × IsMoved order_id delivery_id new_status o v s s')
unfolding update_delivery_status
update_delivery_status-IsAllocated now order_id delivery_id new_status notes s {s'} h e =
    elim (Option-cases (find_delivery delivery_id s.orders)) [
      | inl absent ↦ absurd (ground arith)
      | inr ((k, o, v), found) ↦
          let allowed : may_move v.status new_status ≡ true = ground arith in
          let same : k ≡ order_id = ground arith in
          let stored : s'
              ≡ (roll_up_order_status now k (
                  put_order k (with_delivery delivery_id (moved now new_status notes none v) o)
                    s)).1 =
            ground arith in
          let (row, inside) = find_delivery-lookup delivery_id s.orders k o v h.table found in
          (
            rw stored (moved_stored now k delivery_id new_status notes none o v s h found allowed),
            (
              o,
              v,
              ground arith,
              inside,
              allowed,
              stored-IsMoved now order_id delivery_id new_status notes none o v s s'
                  (rw same at stored),
            ),
          )
    ]

-- A driver's update succeeds only on a delivery that is assigned to the driver, unless an
-- administrator makes it, moves that delivery alone, and keeps every order within its quantities.
driver_update_status-IsAllocated :
    (now delivery_id actor_id : ℕ) (is_admin : Bool) (new_status : DeliveryStatus)
    (notes : Option String) (location : Option (ℕ × ℕ)) (s : Store) {s' : Store}
    → IsAllocated s
    → driver_update_status now delivery_id actor_id is_admin new_status notes location s
      ≡ (ok tt, s')
    → IsAllocated s'
      × ((k : ℕ) × (o : Order) × (v : Delivery) × (lookup k s.orders ≡ some o)
          × (lookup delivery_id o.deliveries ≡ some v)
          × (may_move v.status new_status ≡ true)
          × ((is_admin ≡ true) ⊎ (v.driver_id ≡ some actor_id))
          × IsMoved k delivery_id new_status o v s s')
unfolding driver_update_status
driver_update_status-IsAllocated now delivery_id actor_id is_admin new_status notes location s {s'}
      h e =
    elim (Option-cases (find_delivery delivery_id s.orders)) [
      | inl absent ↦ absurd (ground arith)
      | inr ((k, o, v), found) ↦
          let allowed : may_move v.status new_status ≡ true = ground arith in
          let stored : s'
              ≡ (roll_up_order_status now k (
                  put_order k (with_delivery delivery_id (moved now new_status notes location v) o)
                    s)).1 =
            ground arith in
          let (row, inside) = find_delivery-lookup delivery_id s.orders k o v h.table found in
          (
            rw stored
                (moved_stored now k delivery_id new_status notes location o v s h found allowed),
            (
              k,
              o,
              v,
              row,
              inside,
              allowed,
              ground arith,
              stored-IsMoved now k delivery_id new_status notes location o v s s' stored,
            ),
          )
    ]
