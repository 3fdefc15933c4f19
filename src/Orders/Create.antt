-- ===== src/Orders/Create.antt =====
-- What `create_order` promises: units are moved and never lost, a failed checkout writes nothing, a
-- repeated one is answered with the same order, and the amounts add up.
use qiki.Base.{
  Result-cases, String, ℕ, ◌+◌, ◌*◌, ◌≤◌, ◌≡◌, ◌≢◌, ap, ◌⊎◌, inl, inr, Option, none, some, [], ◌∷◌,
  arith, Dict, sum_of, lookup, insert, ok, err, Error, Option-cases, lookup-insert_self,
}
use mathlib.Core.Path.{subst₂}
use qiki.Models.User.{User}
use qiki.Models.Coupon.{Coupon}
use qiki.Models.Order.{OrderNumber, Order}
use qiki.Models.Store.{Store}
use qiki.Stock.Levels.{stock_of, ProductTable}
use qiki.Coupons.{apply_coupon}
use qiki.Coupons.Discount.{compute_discount_bounds}
use qiki.Orders.Checkout.{
  add_exchanges, CheckoutRequest, Surroundings, get_by_idempotency_key, new_order, create_order,
  last_counter, total_due, items_subtotal, checkout_coupon,
}
use qiki.Orders.Requests.{requested_units, weigh-add_requests}
use qiki.Orders.Lines.{rate_of, fee_rate, items_subtotal-build_items, calculate_shipping-eq-weigh}
use qiki.Orders.Placed.{Placed, place_order_cases, rows_of, requested_of}
use qiki.Orders.Inventory.{
  order_units, inventory, placed_orders, placed_stock, placed_units, placed_inventory,
}

get_by_idempotency_key-insert :
    (key k : ℕ) (o : Order) (d : Dict Order)
    → get_by_idempotency_key key d ≡ none
    → o.idempotency_key ≡ some key
    → get_by_idempotency_key key (insert k o d) ≡ some o
unfolding get_by_idempotency_key insert
get_by_idempotency_key-insert key k o [] e h = ground arith
get_by_idempotency_key-insert key k o ((j, o') ∷ d) e h =
    ground (arith, get_by_idempotency_key-insert key k o d)

last_counter-ge :
    (today k : ℕ) (o : Order) (d : Dict Order)
    → lookup k d ≡ some o
    → o.order_number.day ≡ today
    → o.order_number.counter ≤ last_counter today d
unfolding last_counter lookup
last_counter-ge today k o [] e h = cc
last_counter-ge today k o ((j, o') ∷ d) e h = ground (arith, last_counter-ge today k o d)

apply_coupon-le :
    (now : ℕ) (code : String) (subtotal : ℕ) (user : Option User) (s : Store) {c : Coupon}
    {discount : ℕ}
    → (apply_coupon now code subtotal user s).0 ≡ ok (c, discount)
    → discount ≤ subtotal
unfolding apply_coupon
apply_coupon-le now code subtotal user s {c} e =
    ground (arith, (compute_discount_bounds c subtotal).0)

checkout_coupon-le :
    (env : Surroundings) (code : Option String) (subtotal : ℕ) (user : Option User) (s : Store)
    {coupon : Option Coupon} {discount : ℕ}
    → checkout_coupon env code subtotal user s ≡ (ok (coupon, discount), s)
    → discount ≤ subtotal
unfolding checkout_coupon
checkout_coupon-le env none subtotal user s e = ground arith
checkout_coupon-le env (some code) subtotal user s {coupon} {discount} e =
    elim (Result-cases (apply_coupon env.now code subtotal user s).0) [
      | inl (f, failed) ↦ absurd (ground arith)
      | inr ((c, d), applied) ↦ ground (arith, apply_coupon-le env.now code subtotal user s applied)
    ]

module _ (env : Surroundings) (request : CheckoutRequest) (user : Option User) (key : ℕ)
    (s : Store) where
  -- A checkout finds the order of its key, or raises and writes nothing, or places a new order.
  create_order_cases :
      ProductTable s
      → ((o : Order) × (create_order env request user key s ≡ (ok o, s))
          × (get_by_idempotency_key key s.orders ≡ some o))
        ⊎ ((e : Error) × (create_order env request user key s ≡ (err e, s)))
        ⊎ ((o : Order) × (s' : Store) × (create_order env request user key s ≡ (ok o, s'))
            × (get_by_idempotency_key key s.orders ≡ none)
            × Placed env request user key s o s')
  unfolding create_order
  create_order_cases h = elim (Option-cases (get_by_idempotency_key key s.orders)) [
    | inr (o, found) ↦ inl (o, ground arith, found)
    | inl absent ↦ elim (place_order_cases env request user key s h) [
      | inl (e, run) ↦ inr (inl (e, ground arith))
      | inr (o, s', run, placed) ↦ inr (inr (o, s', ground arith, absent, placed))
    ]
  ]

  -- For every product the units on hand and the units in orders that are not cancelled are together
  -- what they were before the checkout, whether it succeeds, raises, or repeats an earlier one; the
  -- new order's identifier is one that no order has.
  pub inventory-create_order :
      ProductTable s
      → lookup env.order_id s.orders ≡ none
      → (k : ℕ) → inventory k (create_order env request user key s).1 ≡ inventory k s
  inventory-create_order h fresh k = elim (create_order_cases h) [
    | inl (o, run, _) ↦ rw run
    | inr (inl (e, run)) ↦ rw run
    | inr (inr (o, s', run, absent, placed)) ↦
        rw run (placed_inventory env request user key s placed h fresh k)
  ]

  module _ {o : Order} {s' : Store} (h : ProductTable s)
      (run : create_order env request user key s ≡ (ok o, s')) where
    Placed-of : get_by_idempotency_key key s.orders ≡ none → Placed env request user key s o s'
    Placed-of absent = elim (create_order_cases h) [
      | inl (o, run', found) ↦ absurd (ground arith)
      | inr (inl (e, run')) ↦ absurd (ground arith)
      | inr (inr (o', s₁, run', _, placed)) ↦
          let same_order : o' ≡ o = ground arith in
          let same_store : s₁ ≡ s' = ground arith in
          subst₂ (Placed env request user key s) same_order same_store placed
    ]

    -- A new order moves exactly the requested units from the shelves into its lines, and no more
    -- than there were.
    create_order_moves :
        get_by_idempotency_key key s.orders ≡ none
        → (k : ℕ)
        → (stock_of k s' + requested_units k request.items ≡ stock_of k s)
          × (order_units k o ≡ requested_units k request.items)
    create_order_moves absent k =
        let placed = Placed-of absent in
        (
          placed_stock env request user key s placed k,
          placed_units env request user key s placed h k,
        )

    replayed :
        (env' : Surroundings) (request' : CheckoutRequest) (user' : Option User)
        → create_order env' request' user' key s' ≡ (ok o, s')
    unfolding create_order new_order
    replayed env' request' user' = elim (Option-cases (get_by_idempotency_key key s.orders)) [
      | inr (old, found) ↦ ground arith
      | inl absent ↦
          let placed = Placed-of absent in
          ground (
            arith,
            placed.order,
            placed_orders env request user key s placed,
            get_by_idempotency_key-insert key env.order_id o s.orders absent,
          )
    ]

    kept_or_stored :
        ((get_by_idempotency_key key s.orders ≡ some o) × (s' ≡ s))
        ⊎ ((get_by_idempotency_key key s.orders ≡ none)
            × (o.id ≡ env.order_id)
            × (lookup o.id s'.orders ≡ some o))
    unfolding new_order
    kept_or_stored = elim (create_order_cases h) [
      | inl (old, run', found) ↦ inl (ground arith, ground arith)
      | inr (inl (e, run')) ↦ absurd (ground arith)
      | inr (inr (o', s₁, run', absent, _)) ↦
          let placed = Placed-of absent in
          let same : o.id ≡ env.order_id = ground (arith, placed.order) in
          inr (
            absent,
            same,
            ground (
              arith,
              same,
              placed_orders env request user key s placed,
              lookup-insert_self env.order_id o s.orders,
            ),
          )
    ]

    -- A checkout that answers with an order has found it under its key and changed nothing, or the key was
    -- new and the order is stored under its identifier, the new one. A later checkout
    -- with the same key, whatever it asks for and whoever sends it, is answered with the same
    -- order and changes nothing.
    pub create_order_replay :
        (env' : Surroundings) (request' : CheckoutRequest) (user' : Option User)
        → (((get_by_idempotency_key key s.orders ≡ some o) × (s' ≡ s))
            ⊎ ((get_by_idempotency_key key s.orders ≡ none)
                × (o.id ≡ env.order_id)
                × (lookup o.id s'.orders ≡ some o)))
          × (create_order env' request' user' key s' ≡ (ok o, s'))
    create_order_replay env' request' user' = (kept_or_stored, replayed env' request' user')

    -- Where the key is new, so that this request makes the order: the subtotal is the sum over the request's lines of the product's price times the quantity, the
    -- shipping fee that of the delivery rate times the quantity; the discount is at most the subtotal;
    -- and the total is what remains, so it is never less than the shipping fee.
    pub create_order_amounts :
        get_by_idempotency_key key s.orders ≡ none
        → let rows = rows_of request s in
          (o.subtotal ≡ sum_of (λ i. rate_of rows i.product_id * i.quantity) request.items)
          × (o.shipping_fee ≡ sum_of (λ i. fee_rate rows i.product_id * i.quantity) request.items)
          × (o.discount_amount ≤ o.subtotal)
          × (o.total_amount + o.discount_amount ≡ o.subtotal + o.shipping_fee)
    unfolding new_order total_due
    create_order_amounts absent =
        let placed = Placed-of absent in
        let rows = rows_of request s in
        let sums =
          items_subtotal-build_items rows (add_exchanges request.items []) env.item_id 0
            (requested_of request) placed.lines in
        let fees = calculate_shipping-eq-weigh rows (requested_of request) in
        let below =
          checkout_coupon-le env request.coupon_code (items_subtotal placed.items) user s
            placed.priced in
        let first = weigh-add_requests (rate_of rows) request.items [] in
        let second = weigh-add_requests (fee_rate rows) request.items [] in
        (
          ground (arith, placed.order),
          ground (arith, placed.order),
          ground (arith, placed.order),
          ground (arith, placed.order),
        )

    -- No other order has the new order's number.
    create_order_number :
        get_by_idempotency_key key s.orders ≡ none
        → (k : ℕ) (other : Order) → lookup k s.orders ≡ some other
        → other.order_number ≢ o.order_number
    unfolding new_order
    create_order_number absent k other found same =
        let placed = Placed-of absent in
        ground (
          arith,
          placed.order,
          placed.taken.same.orders,
          last_counter-ge env.today k other s.orders found,
          ap (λ (n : OrderNumber). n.day) same,
          ap (λ (n : OrderNumber). n.counter) same,
        )
