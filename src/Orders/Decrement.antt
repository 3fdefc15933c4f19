-- ===== src/Orders/Decrement.antt =====
-- Taking the requested units out of the stock: it succeeds once every line is covered.
use qiki.Base.{
  ℕ, ◌+◌, ◌-◌, ◌≤◌, ◌≡◌, refl, none, some, [], ◌∷◌, arith, Dict, HasKeysOnce, lookup, lookup-insert,
  ok,
}
use qiki.Models.Product.{Product}
use qiki.Models.Store.{Store}
use qiki.Stock.{set_stock}
use qiki.Stock.Levels.{
  stock_of, ProductTable, stock_of-set_stock, set_stock-ProductTable, decrement_stock_enough,
}
use qiki.Orders.Checkout.{get_or_zero, decrement_all}

abbrev pub Covered : Dict Product → ℕ × ℕ → Type 0
Covered products (k, q) = (p : Product) × (lookup k products ≡ some p) × (q ≤ p.stock_quantity)

-- Every requested quantity is on hand.
abbrev pub AllCovered : Dict Product → Dict ℕ → Type 0
AllCovered products [] = Unit
AllCovered products (line ∷ requested) = Covered products line × AllCovered products requested

-- Everything but the products is as before.
pub record SameRest (s s' : Store) : Type 0 where
  pub coupons : s'.coupons ≡ s.coupons
  pub redemptions : s'.redemptions ≡ s.redemptions
  pub orders : s'.orders ≡ s.orders

Covered-set_stock :
    (k : ℕ) (p : Product) (n : ℕ) (s : Store) (j q : ℕ) (requested : Dict ℕ)
    → lookup k ((j, q) ∷ requested) ≡ none
    → Covered s.products (j, q)
    → Covered (set_stock k p n s).products (j, q)
unfolding set_stock lookup
Covered-set_stock k p n s j q requested fresh (p', e, h) =
    (p', ground (arith, lookup-insert k j (record p { stock_quantity = n }) s.products), h)

lookup-tail :
    (k : ℕ) (line : ℕ × ℕ) (requested : Dict ℕ)
    → lookup k (line ∷ requested) ≡ none
    → lookup k requested ≡ none
unfolding lookup
lookup-tail k (j, q) requested e = ground arith

AllCovered-set_stock :
    (k : ℕ) (p : Product) (n : ℕ) (s : Store) (requested : Dict ℕ)
    → lookup k requested ≡ none
    → AllCovered s.products requested
    → AllCovered (set_stock k p n s).products requested
AllCovered-set_stock k p n s [] fresh h = tt
AllCovered-set_stock k p n s ((j, q) ∷ requested) fresh (h, hs) = (
  Covered-set_stock k p n s j q requested fresh h,
  AllCovered-set_stock k p n s requested (lookup-tail k (j, q) requested fresh) hs,
)

-- What the loop leaves behind.
pub record Decremented (requested : Dict ℕ) (s s' : Store) : Type 0 where
  pub table : ProductTable s'
  pub stock : (j : ℕ) → stock_of j s' + get_or_zero (lookup j requested) ≡ stock_of j s
  pub same : SameRest s s'

set_stock-SameRest : (k : ℕ) (p : Product) (n : ℕ) (s : Store) → SameRest s (set_stock k p n s)
unfolding set_stock
set_stock-SameRest k p n s = record { coupons = refl; redemptions = refl; orders = refl }

Decremented-step :
    (k q : ℕ) (p : Product) (requested : Dict ℕ) (s s' : Store)
    → lookup k requested ≡ none
    → lookup k s.products ≡ some p
    → q ≤ p.stock_quantity
    → Decremented requested (set_stock k p (p.stock_quantity - q) s) s'
    → Decremented ((k, q) ∷ requested) s s'
unfolding lookup
Decremented-step k q p requested s s' fresh e h d =
    let first = set_stock-SameRest k p (p.stock_quantity - q) s in
    record {
      table = d.table;
      stock = λ j. ground (arith, d.stock j, stock_of-set_stock k j p (p.stock_quantity - q) s);
      same = record {
        coupons = ground (arith, d.same.coupons, first.coupons);
        redemptions = ground (arith, d.same.redemptions, first.redemptions);
        orders = ground (arith, d.same.orders, first.orders);
      };
    }

pub decrement_all_covered :
    (requested : Dict ℕ) (s : Store)
    → HasKeysOnce requested
    → ProductTable s
    → AllCovered s.products requested
    → (s' : Store) × (decrement_all requested s ≡ (ok tt, s')) × Decremented requested s s'
unfolding decrement_all
decrement_all_covered [] s once table covered = (
  s,
  refl,
  record {
    table = table;
    stock = λ j. unfold lookup in omega arith;
    same = record { coupons = refl; redemptions = refl; orders = refl };
  },
)
decrement_all_covered ((k, q) ∷ requested) s once table ((p, e, h), covered) =
    let n = p.stock_quantity - q in
    let (s', run, d) =
      decrement_all_covered requested (set_stock k p n s) once.1
        (set_stock-ProductTable k p n s table e)
        (AllCovered-set_stock k p n s requested once.0 covered) in
    (
      s',
      ground (arith, decrement_stock_enough k q p s e h, run),
      Decremented-step k q p requested s s' once.0 e h d,
    )
