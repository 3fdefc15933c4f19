-- ===== src/Stock/Levels.antt =====
-- The stock level of a product under each stock operation.
use qiki.Base.{
  ℕ, ◌+◌, ◌-◌, ◌≤◌, ◌≡◌, Option, none, some, List, [], ◌∷◌, arith, Dict, IsTable, lookup,
  lookup-insert, insert-IsTable, lookup-IsTable, contains, ◌==◌, if◌then◌else◌, ok,
}
use qiki.Models.Product.{Product}
use qiki.Models.Store.{Store}
use qiki.Stock.{get_many_for_update, set_stock, decrement_stock, increment_stock}

abbrev pub level : Option Product → ℕ
level none = 0
level (some p) = p.stock_quantity

-- The units of a product on hand.
abbrev pub stock_of : ℕ → Store → ℕ
stock_of k s = level (lookup k s.products)

abbrev pub ProductTable : Store → Type 0
ProductTable s = IsTable (λ (p : Product). p.id) s.products

pub lookup-get_many :
    (ids : List ℕ) (k : ℕ) (d : Dict Product)
    → lookup k (get_many_for_update ids d) ≡ (if contains k ids then lookup k d else none)
unfolding get_many_for_update lookup
lookup-get_many ids k [] = ground arith
lookup-get_many ids k ((j, p) ∷ d) = ground (arith, lookup-get_many ids k d)

pub stock_of-set_stock :
    (k j : ℕ) (p : Product) (n : ℕ) (s : Store)
    → stock_of j (set_stock k p n s) ≡ (if j == k then n else stock_of j s)
unfolding set_stock
stock_of-set_stock k j p n s =
    ground (arith, lookup-insert k j (record p { stock_quantity = n }) s.products)

pub set_stock-ProductTable :
    (k : ℕ) (p : Product) (n : ℕ) (s : Store)
    → ProductTable s
    → lookup k s.products ≡ some p
    → ProductTable (set_stock k p n s)
unfolding set_stock
set_stock-ProductTable k p n s h e =
    rw (lookup-IsTable (λ (p : Product). p.id) k p s.products h e)
      (insert-IsTable (λ (p : Product). p.id) (record p { stock_quantity = n }) s.products h)

-- A covered decrement succeeds.
pub decrement_stock_enough :
    (k q : ℕ) (p : Product) (s : Store)
    → lookup k s.products ≡ some p
    → q ≤ p.stock_quantity
    → decrement_stock k q s ≡ (
      ok (record p { stock_quantity = p.stock_quantity - q }),
      set_stock k p (p.stock_quantity - q) s,
    )
unfolding decrement_stock
decrement_stock_enough k q p s e h = ground arith

pub increment_stock_found :
    (k q : ℕ) (p : Product) (s : Store)
    → lookup k s.products ≡ some p
    → increment_stock k q s ≡ (
      ok (record p { stock_quantity = p.stock_quantity + q }),
      set_stock k p (p.stock_quantity + q) s,
    )
unfolding increment_stock
increment_stock_found k q p s e = ground arith
