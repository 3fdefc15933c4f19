-- ===== src/Stock.antt =====
-- The stock operations of backend/app/repositories/product_repository.py, under the row locks that
-- the transaction holds.
pub mod Levels
use qiki.Base.{
  ℕ, ◌+◌, ◌-◌, Bool, Option, none, some, List, [], ◌∷◌, Dict, lookup, insert, contains, ltb,
  if◌then◌else◌, Action, Error, gets, or_raise, modify, raise_if, ◌>>=◌, ◌>>◌,
}
use qiki.Models.Product.{Product}
use qiki.Models.Store.{Store}

-- The rows whose identifier is asked for.
unfoldable pub get_many_for_update : List ℕ → Dict Product → Dict Product
get_many_for_update ids [] = []
get_many_for_update ids ((k, p) ∷ d) =
    if contains k ids then (k, p) ∷ get_many_for_update ids d else get_many_for_update ids d

unfoldable pub set_stock : ℕ → Product → ℕ → Store → Store
set_stock product_id p stock s = record s {
  products = insert product_id (record p { stock_quantity = stock }) s.products;
}

unfoldable pub decrement_stock : ℕ → ℕ → Action Store Product
unfolding set_stock
decrement_stock product_id quantity = do
  found ← gets (λ s. lookup product_id s.products)
  p ← or_raise found Error.product_not_found
  raise_if (ltb p.stock_quantity quantity) Error.insufficient_stock
  modify (set_stock product_id p (p.stock_quantity - quantity))
  gets (λ s. record p { stock_quantity = p.stock_quantity - quantity })

unfoldable pub increment_stock : ℕ → ℕ → Action Store Product
unfolding set_stock
increment_stock product_id quantity = do
  found ← gets (λ s. lookup product_id s.products)
  p ← or_raise found Error.product_not_found
  modify (set_stock product_id p (p.stock_quantity + quantity))
  gets (λ s. record p { stock_quantity = p.stock_quantity + quantity })
