-- ===== src/Deliveries/Tests.antt =====
-- Deliveries of the order of the small store, and the theorems at these runs.
use qiki.Base.{
  ◌≡◌, refl, true, false, none, some, [], ◌∷◌, arith, lookup, insert, sum_values, err, Error,
}
use qiki.Models.Order.{DeliveryStatus, Delivery, Order}
use qiki.Models.Store.{Store}
use qiki.Orders.Status.{may_become, with_status}
use qiki.Orders.Fixture.{shop, past_order, past_item, first_trip}
use qiki.Deliveries.{
  may_move, add_lines, carried_by, is_delivered_status, allocated_quantities, find_item,
  check_lines, fully_delivered, any_shipping, rolled_up, roll_up_order_status, DeliveryCreate,
  new_delivery, create_delivery, find_delivery, moved, update_delivery_status, driver_update_status,
}
use qiki.Deliveries.Units.{carried_units}
use qiki.Deliveries.Allocation.{WithinOrder, IsAllocated}
use qiki.Deliveries.Moving.{IsMoved}
use qiki.Deliveries.Promise.{create_delivery-IsAllocated, update_delivery_status-IsAllocated}
use qiki.Deliveries.Rollup.{fully_delivered_exact, rollup, History, here, next}

unfoldable delivery_code : Unit {0}
unfolding lookup insert sum_values may_become with_status may_move add_lines carried_by
    allocated_quantities find_item check_lines fully_delivered any_shipping rolled_up
    roll_up_order_status new_delivery create_delivery find_delivery moved update_delivery_status
    driver_update_status
delivery_code = tt

shop-IsAllocated : IsAllocated shop
unfolding delivery_code
shop-IsAllocated = record { table = ground arith; within = λ k o e id i f. ground arith }

abbrev rest_of_it : DeliveryCreate
rest_of_it = record {
  items = record { order_item_id = 70; quantity = 1 } ∷ [];
  scheduled_at = none;
  notes = none;
}

abbrev two_trips : Store
two_trips = (create_delivery 600 41 7 rest_of_it shop).1

abbrev second_trip : Delivery
second_trip = new_delivery 41 rest_of_it past_order

create_delivery-IsAllocated_example : IsAllocated two_trips
unfolding delivery_code
create_delivery-IsAllocated_example =
    create_delivery-IsAllocated 600 41 7 rest_of_it shop {v = second_trip} {s' = two_trips}
      shop-IsAllocated refl refl

-- A third trip would carry more than was ordered.
over_allocation :
    (create_delivery 600 42 7 rest_of_it two_trips).0 ≡ err Error.delivery_over_allocation
unfolding delivery_code
over_allocation = refl

abbrev done_shop : Store
done_shop = (update_delivery_status 700 7 40 DeliveryStatus.delivered none shop).1

update_delivery_status-IsAllocated_example :
    IsAllocated done_shop
    × ((o : Order) × (v : Delivery) × (lookup 7 shop.orders ≡ some o)
        × (lookup 40 o.deliveries ≡ some v)
        × (may_move v.status DeliveryStatus.delivered ≡ true)
        × IsMoved 7 40 DeliveryStatus.delivered o v shop done_shop)
unfolding delivery_code
update_delivery_status-IsAllocated_example =
    update_delivery_status-IsAllocated 700 7 40 DeliveryStatus.delivered none shop {s' = done_shop}
      shop-IsAllocated refl

abbrev driven_shop : Store
driven_shop = (driver_update_status 700 40 4 false DeliveryStatus.failed none none shop).1

-- The past order, all of it delivered in one trip.
abbrev whole_trip : Delivery
whole_trip = record first_trip {
  status = DeliveryStatus.delivered;
  items = record { order_item_id = 70; quantity = 2 } ∷ [];
}

abbrev whole_order : Order
whole_order = record past_order { deliveries = (40, whole_trip) ∷ [] }

whole_order-WithinOrder : WithinOrder whole_order
unfolding delivery_code
whole_order-WithinOrder id i f = ground arith

fully_delivered_exact_example : carried_units is_delivered_status 70 whole_order.deliveries ≡ 2
unfolding delivery_code
fully_delivered_exact_example =
    fully_delivered_exact whole_order 70 past_item whole_order-WithinOrder refl refl

whole-History : History whole_order (rolled_up 700 (rolled_up 650 whole_order))
whole-History = next (next here (rollup 650)) (rollup 700)
