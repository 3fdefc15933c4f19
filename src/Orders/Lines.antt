-- ===== src/Orders/Lines.antt =====
-- The lines that checkout builds: covered by the stock, and as many units as requested.
use qiki.Base.{
  ℕ, suc, ◌≤◌, ◌≡◌, refl, ap, inl, inr, Bool, Option, none, some, List, [], ◌∷◌, arith, Dict,
  HasKeysOnce, lookup, sum_of, same_id, if◌then◌else◌, ok, Option-cases, Result-cases,
}
use qiki.Models.Product.{Product, product_price}
use qiki.Models.Order.{OrderItem}
use qiki.Orders.Checkout.{
  get_or_zero, get_or_false, item_data, build_items, items_subtotal, calculate_shipping,
  calculate_delivery_fee, fee_of,
}
use qiki.Orders.Requests.{weigh}
use qiki.Orders.Decrement.{AllCovered}

-- The units of a product in the lines of an order.
abbrev pub units_of : ℕ → List OrderItem → ℕ
units_of k = sum_of (λ i. if same_id i.product_id k then i.quantity else 0)

abbrev pub IsKeyed : Dict Product → Type 0
IsKeyed products = (k : ℕ) (p : Product) → lookup k products ≡ some p → k ≡ p.id

unfoldable pub price_of : Option Product → ℕ
price_of none = 0
price_of (some p) = product_price p

-- The price that checkout charges for a product, and the fee for delivering one unit of it.
abbrev pub rate_of : Dict Product → ℕ → ℕ
rate_of products k = price_of (lookup k products)

abbrev pub fee_rate : Dict Product → ℕ → ℕ
fee_rate products k = fee_of (lookup k products) 1

module _ (products : Dict Product) (exchanges : Dict Bool) (item_id : ℕ → ℕ) where
  -- A build that succeeds at the head.
  build_items_inv :
      (n k q : ℕ) (requested : Dict ℕ) {items : List OrderItem}
      → build_items products exchanges item_id n ((k, q) ∷ requested) ≡ ok items
      → (p : Product) × (rest : List OrderItem) × (lookup k products ≡ some p)
        × (q ≤ p.stock_quantity)
        × (build_items products exchanges item_id (suc n) requested ≡ ok rest)
        × (items ≡ item_data p q (get_or_false (lookup k exchanges)) (item_id n) ∷ rest)
  unfolding build_items
  build_items_inv n k q requested e = elim (Option-cases (lookup k products)) [
    | inl absent ↦ absurd (ground arith)
    | inr (p, found) ↦
        elim (Result-cases (build_items products exchanges item_id (suc n) requested)) [
          | inl (f, failed) ↦ absurd (ground arith)
          | inr (rest, built) ↦ (p, rest, found, ground arith, built, ground arith)
        ]
  ]

  pub build_items-AllCovered :
      (n : ℕ) (requested : Dict ℕ) {items : List OrderItem}
      → build_items products exchanges item_id n requested ≡ ok items
      → AllCovered products requested
  build_items-AllCovered n [] e = tt
  build_items-AllCovered n ((k, q) ∷ requested) e =
      let (p, rest, found, enough, built, _) = build_items_inv n k q requested e in
      ((p, found, enough), build_items-AllCovered (suc n) requested built)

  pub units_of-build_items :
      (n : ℕ) (requested : Dict ℕ) {items : List OrderItem}
      → IsKeyed products
      → HasKeysOnce requested
      → build_items products exchanges item_id n requested ≡ ok items
      → (j : ℕ) → units_of j items ≡ get_or_zero (lookup j requested)
  unfolding item_data lookup build_items
  units_of-build_items n [] keyed once e j = ground arith
  units_of-build_items n ((k, q) ∷ requested) keyed once e j =
      let (p, rest, found, enough, built, same) = build_items_inv n k q requested e in
      let ih = units_of-build_items (suc n) requested keyed once.1 built in
      ground (arith, keyed k p found, ih j, ap (units_of j) same)

  pub items_subtotal-build_items :
      (n : ℕ) (requested : Dict ℕ) {items : List OrderItem}
      → build_items products exchanges item_id n requested ≡ ok items
      → items_subtotal items ≡ weigh (rate_of products) requested
  unfolding item_data price_of items_subtotal build_items
  items_subtotal-build_items n [] e = ground arith
  items_subtotal-build_items n ((k, q) ∷ requested) e =
      let (p, rest, found, enough, built, same) = build_items_inv n k q requested e in
      let ih = items_subtotal-build_items (suc n) requested built in
      ground (arith, ih, ap items_subtotal same)

pub calculate_shipping-eq-weigh :
    (products : Dict Product) (requested : Dict ℕ)
    → calculate_shipping products requested ≡ weigh (fee_rate products) requested
unfolding calculate_shipping fee_of calculate_delivery_fee
calculate_shipping-eq-weigh products [] = refl
calculate_shipping-eq-weigh products ((k, q) ∷ requested) =
    ground (arith, calculate_shipping-eq-weigh products requested)
