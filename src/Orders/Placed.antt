-- ===== src/Orders/Placed.antt =====
-- What a checkout that succeeds has read, computed and written, step by step.
use qiki.Base.{
  ℕ, ◌≡◌, refl, ◌⊎◌, inl, inr, Option, none, some, String, List, [], ◌∷◌, arith, Dict, Result, ok,
  err, Error, Result-cases, lookup-IsTable,
}
use qiki.Models.User.{User}
use qiki.Models.Product.{Product}
use qiki.Models.Coupon.{Coupon}
use qiki.Models.Order.{OrderItem, Order}
use qiki.Models.Store.{Store}
use qiki.Stock.{get_many_for_update}
use qiki.Stock.Levels.{ProductTable, lookup-get_many}
use qiki.Coupons.{apply_coupon, check_eligibility}
use qiki.Orders.Status.{put_order}
use qiki.Orders.Checkout.{
  CheckoutRequest, Surroundings, product_ids, check_products, add_requests, add_exchanges,
  build_items, items_subtotal, calculate_shipping, checkout_coupon, decrement_all, new_order,
  redeem, place_order,
}
use qiki.Orders.Requests.{add_requests-HasKeysOnce}
use qiki.Orders.Decrement.{AllCovered, Decremented, decrement_all_covered}
use qiki.Orders.Lines.{IsKeyed, build_items-AllCovered}

abbrev pub rows_of : CheckoutRequest → Store → Dict Product
rows_of request s = get_many_for_update (product_ids request.items) s.products

abbrev pub requested_of : CheckoutRequest → Dict ℕ
requested_of request = add_requests request.items []

abbrev pub built : Surroundings → CheckoutRequest → Store → Result (List OrderItem)
built env request s =
    build_items (rows_of request s) (add_exchanges request.items []) env.item_id 0
      (requested_of request)

-- Computing the discount writes nothing.
pub checkout_coupon_state :
    (env : Surroundings) (code : Option String) (subtotal : ℕ) (user : Option User) (s : Store)
    → (checkout_coupon env code subtotal user s).1 ≡ s
unfolding checkout_coupon apply_coupon
checkout_coupon_state env none subtotal user s = refl
checkout_coupon_state env (some code) subtotal user s = ground arith

pub redeem_ok :
    (env : Surroundings) (coupon : Option Coupon) (user : Option User) (s : Store)
    → (redeem env coupon user s).0 ≡ ok tt
unfolding redeem
redeem_ok env none user s = refl
redeem_ok env (some c) user s = unfold qiki.Coupons.record_redemption in refl

pub rows_of-IsKeyed :
    (request : CheckoutRequest) (s : Store) → ProductTable s → IsKeyed (rows_of request s)
rows_of-IsKeyed request s h k p e = ground (
  arith,
  lookup-get_many (product_ids request.items) k s.products,
  lookup-IsTable (λ (p : Product). p.id) k p s.products h,
)

AllCovered-rows :
    (request : CheckoutRequest) (s : Store) (requested : Dict ℕ)
    → AllCovered (rows_of request s) requested
    → AllCovered s.products requested
AllCovered-rows request s [] h = tt
AllCovered-rows request s ((k, q) ∷ requested) ((p, e, h), hs) = (
  (p, ground (arith, lookup-get_many (product_ids request.items) k s.products), h),
  AllCovered-rows request s requested hs,
)

-- Once the lines are built, taking the units out of the stock cannot fail.
pub decrement_all-built :
    (env : Surroundings) (request : CheckoutRequest) (s : Store) {items : List OrderItem}
    → ProductTable s
    → built env request s ≡ ok items
    → (s' : Store) × (decrement_all (requested_of request) s ≡ (ok tt, s'))
      × Decremented (requested_of request) s s'
decrement_all-built env request s h e =
    decrement_all_covered (requested_of request) s (add_requests-HasKeysOnce request.items [] tt) h
      (AllCovered-rows request s (requested_of request) (
        build_items-AllCovered (rows_of request s) (add_exchanges request.items []) env.item_id 0
          (requested_of request) e))

pub record Placed (env : Surroundings) (request : CheckoutRequest) (user : Option User) (key : ℕ)
    (s : Store) (o : Order) (s' : Store) : Type 0 where
  pub items : List OrderItem
  pub coupon : Option Coupon
  pub discount : ℕ
  pub middle : Store
  pub on_sale : check_products (rows_of request s) (product_ids request.items) ≡ ok tt
  pub lines : built env request s ≡ ok items
  pub priced :
      checkout_coupon env request.coupon_code (items_subtotal items) user s
      ≡ (ok (coupon, discount), s)
  pub taken : Decremented (requested_of request) s middle
  pub order :
      o
      ≡ new_order env request user key items
          (calculate_shipping (rows_of request s) (requested_of request))
          coupon
          discount
          middle.orders
  pub stored : s' ≡ (redeem env coupon user (put_order env.order_id o middle)).1

-- Either the checkout succeeds, or it raises and has written nothing.
pub place_order_cases :
    (env : Surroundings) (request : CheckoutRequest) (user : Option User) (key : ℕ) (s : Store)
    → ProductTable s
    → ((e : Error) × (place_order env request user key s ≡ (err e, s)))
      ⊎ ((o : Order) × (s' : Store) × (place_order env request user key s ≡ (ok o, s'))
          × Placed env request user key s o s')
unfolding place_order
place_order_cases env request user key s h =
    elim (Result-cases (check_products (rows_of request s) (product_ids request.items))) [
      | inl (e, p) ↦ inl (e, ground arith)
      | inr (_, p) ↦ elim (Result-cases (built env request s)) [
        | inl (e, q) ↦ inl (e, ground arith)
        | inr (items, q) ↦ priced_cases items p q
      ]
    ]
  where
    priced_cases :
        (items : List OrderItem)
        → check_products (rows_of request s) (product_ids request.items) ≡ ok tt
        → built env request s ≡ ok items
        → ((e : Error) × (place_order env request user key s ≡ (err e, s)))
          ⊎ ((o : Order) × (s' : Store) × (place_order env request user key s ≡ (ok o, s'))
              × Placed env request user key s o s')
    priced_cases items p q =
        let same = checkout_coupon_state env request.coupon_code (items_subtotal items) user s in
        elim (Result-cases
          (checkout_coupon env request.coupon_code (items_subtotal items) user s).0) [
            | inl (e, r) ↦ inl (e, ground arith)
            | inr ((coupon, discount), r) ↦
                let (middle, run, taken) = decrement_all-built env request s h q in
                let o : Order =
                  new_order env request user key items
                    (calculate_shipping (rows_of request s) (requested_of request)) coupon discount
                    middle.orders in
                let fine = redeem_ok env coupon user (put_order env.order_id o middle) in
                inr (
                  o,
                  (redeem env coupon user (put_order env.order_id o middle)).1,
                  ground arith,
                  record {
                    items = items;
                    coupon = coupon;
                    discount = discount;
                    middle = middle;
                    on_sale = p;
                    lines = q;
                    priced = ground arith;
                    taken = taken;
                    order = refl;
                    stored = refl;
                  },
                )
          ]
