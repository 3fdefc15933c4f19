-- ===== src/Orders/Requests.antt =====
-- The dictionary of requested quantities says what the request says.
use qiki.Base.{
  ℕ, ◌+◌, ◌*◌, ◌≡◌, List, [], ◌∷◌, arith, Dict, HasKeysOnce, lookup, insert, lookup-insert,
  insert-HasKeysOnce, sum_of, ◌==◌, if◌then◌else◌,
}
use qiki.Orders.Checkout.{OrderItemCreate, get_or_zero, add_requests}

-- The units of a product that a request asks for, over all its lines.
abbrev pub requested_units : ℕ → List OrderItemCreate → ℕ
requested_units k = sum_of (λ i. if k == i.product_id then i.quantity else 0)

pub lookup-add_requests :
    (k : ℕ) (items : List OrderItemCreate) (d : Dict ℕ)
    → get_or_zero (lookup k (add_requests items d))
      ≡ get_or_zero (lookup k d) + requested_units k items
unfolding add_requests
lookup-add_requests k [] d = omega arith
lookup-add_requests k (i ∷ items) d =
    let sum : ℕ = get_or_zero (lookup i.product_id d) + i.quantity in
    ground (
      arith,
      lookup-add_requests k items (insert i.product_id sum d),
      lookup-insert i.product_id k sum d,
    )

pub add_requests-HasKeysOnce :
    (items : List OrderItemCreate) (d : Dict ℕ) → HasKeysOnce d → HasKeysOnce (add_requests items d)
unfolding add_requests
add_requests-HasKeysOnce [] d h = h
add_requests-HasKeysOnce (i ∷ items) d h =
    let sum : ℕ = get_or_zero (lookup i.product_id d) + i.quantity in
    add_requests-HasKeysOnce items (insert i.product_id sum d)
      (insert-HasKeysOnce i.product_id sum d h)

-- The requested quantities, each weighed by a rate of its product.
abbrev pub weigh : (ℕ → ℕ) → Dict ℕ → ℕ
weigh rate [] = 0
weigh rate ((k, q) ∷ d) = rate k * q + weigh rate d

weigh-insert :
    (rate : ℕ → ℕ) (k q : ℕ) (d : Dict ℕ)
    → weigh rate (insert k (get_or_zero (lookup k d) + q) d) ≡ weigh rate d + rate k * q
unfolding lookup insert
weigh-insert rate k q [] = omega arith
weigh-insert rate k q ((j, r) ∷ d) = grind (arith, weigh-insert rate k q d)

-- Weighing the sums of the dictionary is weighing the lines of the request.
pub weigh-add_requests :
    (rate : ℕ → ℕ) (items : List OrderItemCreate) (d : Dict ℕ)
    → weigh rate (add_requests items d)
      ≡ weigh rate d + sum_of (λ i. rate i.product_id * i.quantity) items
unfolding add_requests
weigh-add_requests rate [] d = omega arith
weigh-add_requests rate (i ∷ items) d = omega (
  arith,
  weigh-add_requests rate items
      (insert i.product_id (get_or_zero (lookup i.product_id d) + i.quantity) d),
  weigh-insert rate i.product_id i.quantity d,
)
