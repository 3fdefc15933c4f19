-- ===== src/Orders/Rebuild.antt =====
-- The cart that `reorder` builds can be checked out, and no line of the past order is forgotten.
use qiki.Base.{
  suc, Bool-cases, ℕ, ◌+◌, ◌≤◌, ◌<◌, ◌≡◌, refl, inl, inr, true, Option, none, some, List, [], ◌∷◌,
  arith, All, Dict, lookup, lookup-IsTable, length, ok, Option-cases, leb,
}
use qiki.Models.User.{User}
use qiki.Models.Product.{Product, product_price}
use qiki.Models.Order.{OrderItem, Order}
use qiki.Models.Store.{Store}
use qiki.Stock.Levels.{ProductTable}
use qiki.Orders.Reorder.{
  ReorderItem, ReorderResponse, Outcome, keep, skip, add_outcome, find_product, reorder_product,
  reorder_line, reorder_lines, reorder,
}

-- An item that a checkout would accept now, at the price that it would charge.
abbrev pub IsAvailable : Dict Product → ReorderItem → Type 0
IsAvailable products i =
    (p : Product) × (lookup i.product_id products ≡ some p)
    × (p.is_active ≡ true)
    × (0 < i.quantity)
    × (i.quantity ≤ p.stock_quantity)
    × (i.price ≡ product_price p)

abbrev OutcomeOk : Dict Product → Outcome → Type 0
OutcomeOk products (keep i) = IsAvailable products i
OutcomeOk products (skip i) = Unit

find_product-lookup :
    (o : Option ℕ) (products : Dict Product) (p : Product)
    → find_product o products ≡ some p
    → (k : ℕ) × (lookup k products ≡ some p)
unfolding find_product
find_product-lookup none products p e = absurd (ground arith)
find_product-lookup (some k) products p e = (k, e)

reorder_product-ok :
    (products : Dict Product) (line : OrderItem) (k : ℕ) (p : Product)
    → 0 < line.quantity
    → lookup k products ≡ some p
    → k ≡ p.id
    → OutcomeOk products (reorder_product line (some p))
unfolding reorder_product
reorder_product-ok products line k p h e same = elim (Bool-cases p.is_active) [
  | inr hidden ↦ simp hidden tt
  | inl active ↦ elim (Bool-cases (leb p.stock_quantity 0)) [
    | inl out ↦ simp (active, out) tt
    | inr stocked ↦
        simp (active, stocked) (p, ground arith, active, ground arith, ground arith, refl)
  ]
]

add_outcome-ok :
    (products : Dict Product) (outcome : Outcome) (r : ReorderResponse)
    → OutcomeOk products outcome
    → All (IsAvailable products) r.items
    → All (IsAvailable products) (add_outcome outcome r).items
unfolding add_outcome
add_outcome-ok products (keep i) r h hs = (h, hs)
add_outcome-ok products (skip i) r h hs = hs

add_outcome-length :
    (outcome : Outcome) (r : ReorderResponse)
    → length (add_outcome outcome r).items + length (add_outcome outcome r).skipped
      ≡ suc (length r.items + length r.skipped)
unfolding add_outcome
add_outcome-length (keep i) r = omega arith
add_outcome-length (skip i) r = omega arith

module _ (s : Store) (table : ProductTable s) where
  reorder_line-ok :
      (line : OrderItem) → 0 < line.quantity → OutcomeOk s.products (reorder_line s.products line)
  unfolding reorder_line
  reorder_line-ok line h = found_ok (find_product line.product_id s.products) refl
    where
      found_ok :
          (o : Option Product)
          → find_product line.product_id s.products ≡ o
          → OutcomeOk s.products (reorder_product line o)
      found_ok none e = unfold reorder_product in tt
      found_ok (some p) e =
          let (k, found) = find_product-lookup line.product_id s.products p e in
          reorder_product-ok s.products line k p h found
            (lookup-IsTable (λ (p : Product). p.id) k p s.products table found)

  reorder_lines-ok :
      (lines : List OrderItem)
      → All (λ l. 0 < l.quantity) lines
      → All (IsAvailable s.products) (reorder_lines s.products lines).items
  unfolding reorder_lines
  reorder_lines-ok [] h = tt
  reorder_lines-ok (line ∷ lines) (h, hs) =
      add_outcome-ok s.products (reorder_line s.products line) (reorder_lines s.products lines)
        (reorder_line-ok line h) (reorder_lines-ok lines hs)

reorder_lines-length :
    (products : Dict Product) (lines : List OrderItem)
    → length (reorder_lines products lines).items + length (reorder_lines products lines).skipped
      ≡ length lines
unfolding reorder_lines
reorder_lines-length products [] = omega arith
reorder_lines-length products (line ∷ lines) = omega (
  arith,
  add_outcome-length (reorder_line products line) (reorder_lines products lines),
  reorder_lines-length products lines,
)

-- A reorder that succeeds was asked for by the order's owner. Each item of the new cart is an active
-- product that is on hand in that quantity, at the price that checkout charges now; every line of the
-- past order is either such an item or skipped with a reason; and nothing is written.
reorder_lem :
    (order_id : ℕ) (user : User) (s : Store) {r : ReorderResponse} {s' : Store}
    → ProductTable s
    → ((o : Order) → lookup order_id s.orders ≡ some o → All (λ l. 0 < l.quantity) o.items)
    → reorder order_id user s ≡ (ok r, s')
    → (o : Order) × (lookup order_id s.orders ≡ some o)
      × (o.user_id ≡ some user.id)
      × All (IsAvailable s.products) r.items
      × (length r.items + length r.skipped ≡ length o.items)
      × (s' ≡ s)
unfolding reorder
reorder_lem order_id user s {r} table positive e = elim (Option-cases (lookup order_id s.orders)) [
  | inl absent ↦ absurd (ground arith)
  | inr (o, found) ↦
      let same : r ≡ reorder_lines s.products o.items = ground arith in
      (
        o,
        found,
        ground arith,
        rw same (reorder_lines-ok s table o.items (positive o found)),
        rw same (reorder_lines-length s.products o.items),
        ground arith,
      )
]
