-- ===== src/Catalogue/Ranking.antt =====
-- The products that the shop suggests (backend/app/services/recommendation_service.py, with
-- `list_active_catalog` of product_service.py and `get_best_sellers` of order_repository.py). A
-- score is a fraction over the sales of the best seller, in hundredths; the code keeps it as a float.
use qiki.Base.{
  ℕ, ◌*◌, ◌-◌, Bool, true, false, ◌&&◌, not, Option, none, some, List, [], ◌∷◌, ◌++◌, map, String,
  Dict, lookup, ltb, leb, ◌==◌, select, take, sum_of, max, Result, ok, err, Error, same_id,
  if◌then◌else◌,
}
use text.Mathlib.Text.{◌==◌ as str_eq, is_lt}
use Prim.Native.String.{compare}
use qiki.Models.Product.{Product, Category}
use qiki.Models.Order.{Order, OrderItem, OrderStatus, same_order_status}
use qiki.Models.Store.{Store}
use qiki.Catalogue.Sorting.{sort_by}
use qiki.Catalogue.Query.{same_category as is_category}

pub data Reason : Type 0 where
  popular_fallback best_seller gas_with_water other_water : Reason
  same_category price_band : Reason
  same_brand : String → Reason
  larger_size smaller_size : ℕ → Reason

pub record RecommendationCandidate : Type 0 where
  pub product : Product
  pub score : ℕ
  pub reason : Reason

abbrev is_gas : Category → Bool
is_gas Category.gas = true
is_gas Category.nuoc_uong = false

abbrev when {ℓ} : {A : Type ℓ} → Bool → A → List A
when true x = x ∷ []
when false x = []

-- `product.sale_price or product.price`
abbrev sale_or_price : Product → ℕ
sale_or_price p = elim p.sale_price [
  | none ↦ p.price
  | some sale ↦ if sale == 0 then p.price else sale
]

abbrev distance : ℕ → ℕ → ℕ
distance a b = if ltb a b then b - a else a - b

-- Each contribution over `most`, the sales of the best seller, of which the product has `sold`.
unfoldable pub signal_contributions : ℕ → ℕ → Option Product → Product → List (ℕ × Reason)
signal_contributions most sold none c = (25 * sold, Reason.best_seller) ∷ []
signal_contributions most sold (some v) c =
    ((25 * sold, Reason.best_seller) ∷ [])
    ++ ((if is_gas v.category && not (is_gas c.category)
          then (40 * most, Reason.gas_with_water) ∷ []
          else when
              (not (is_gas v.category) && not (is_gas c.category) && not (str_eq c.brand v.brand))
              (40 * most, Reason.other_water))
        ++ (when (str_eq c.brand v.brand) (30 * most, Reason.same_brand c.brand)
            ++ (when (is_gas c.category && is_gas v.category && not (c.size_kg == v.size_kg)) (
              20 * most,
              if ltb v.size_kg c.size_kg
                  then Reason.larger_size c.size_kg
                  else Reason.smaller_size c.size_kg,
            )
                ++ (when (is_category c.category v.category) (10 * most, Reason.same_category)
                    ++ when
                        (ltb 0 (sale_or_price v)
                          && leb (4 * distance (sale_or_price c) (sale_or_price v))
                              (sale_or_price v))
                        (10 * most, Reason.price_band)))))

-- The first contribution that none exceeds.
unfoldable pub largest : ℕ × Reason → List (ℕ × Reason) → ℕ × Reason
largest best [] = best
largest best (c ∷ rest) = largest (if ltb best.0 c.0 then c else best) rest

unfoldable pub best_reason : List (ℕ × Reason) → ℕ × Reason
best_reason contributions =
    let total = sum_of (λ c. c.0) contributions in
    elim (select (λ c. ltb 0 c.0) contributions) [
      | [] ↦ (total, Reason.popular_fallback)
      | c ∷ rest ↦ (total, (largest c rest).1)
    ]

-- The lines of all orders that are not cancelled.
abbrev lines_of : Dict Order → List OrderItem
lines_of [] = []
lines_of ((id, o) ∷ orders) =
    (if same_order_status o.status OrderStatus.cancelled then [] else o.items) ++ lines_of orders

abbrev sold_lines : Store → Product → List OrderItem
sold_lines s p = select (λ i. same_id i.product_id p.id) (lines_of s.orders)

abbrev is_empty {ℓ} : {A : Type ℓ} → List A → Bool
is_empty [] = true
is_empty (x ∷ xs) = false

abbrev total_sold : Store → Product → ℕ
total_sold s p = sum_of (λ i. i.quantity) (sold_lines s p)

abbrev values_of : Dict Product → List Product
values_of [] = []
values_of ((id, p) ∷ products) = p ∷ values_of products

abbrev most_sold : List (Product × ℕ) → ℕ
most_sold [] = 0
most_sold ((p, n) ∷ rows) = max n (most_sold rows)

abbrev sold_of : ℕ → List (Product × ℕ) → ℕ
sold_of id [] = 0
sold_of id ((p, n) ∷ rows) = if id == p.id then n else sold_of id rows

-- With no sales at all every ratio is zero, over one.
abbrev pub denominator : List (Product × ℕ) → ℕ
denominator rows = max 1 (most_sold rows)

abbrev pub candidate_of : List (Product × ℕ) → Option Product → Product → RecommendationCandidate
candidate_of rows viewed p =
    let (score, reason) =
      best_reason (signal_contributions (denominator rows) (sold_of p.id rows) viewed p) in
    record { product = p; score = score; reason = reason }

abbrev pub is_viewed : Option Product → Product → Bool
is_viewed none p = false
is_viewed (some v) p = p.id == v.id

-- The higher score, then the name that Python puts first.
abbrev pub ranks_before : RecommendationCandidate → RecommendationCandidate → Bool
ranks_before a b =
    if a.score == b.score
    then not (is_lt (compare b.product.name a.product.name))
    else ltb b.score a.score

-- `get_product`, for a product that is viewed.
unfoldable pub viewed_product : Option ℕ → Store → Result (Option Product)
viewed_product none s = ok none
viewed_product (some id) s = elim (lookup id s.products) [
  | none ↦ err Error.product_not_found
  | some p ↦ if p.is_active then ok (some p) else err Error.product_not_found
]

-- The database orders names by its own collation.
module _ (collates : String → String → Bool) where
  unfoldable pub list_active_catalog : ℕ → Store → List Product
  list_active_catalog limit s =
      take limit
        (sort_by (λ p q. collates p.name q.name) (select (λ p. p.is_active) (values_of s.products)))

  abbrev sells_before : Product × ℕ → Product × ℕ → Bool
  sells_before (p, m) (q, n) = if m == n then collates p.name q.name else ltb n m

  -- Active products that some order names, the best seller first.
  unfoldable pub get_best_sellers : ℕ → Store → List (Product × ℕ)
  get_best_sellers limit s = take limit (
      sort_by sells_before (
        map (λ p. (p, total_sold s p))
          (select (λ p. p.is_active && not (is_empty (sold_lines s p))) (values_of s.products))))

  -- All candidates, ranked.
  unfoldable pub ranking : Option Product → Store → List RecommendationCandidate
  ranking viewed s = sort_by ranks_before (
      map (candidate_of (get_best_sellers 100 s) viewed)
        (select (λ p. not (is_viewed viewed p)) (list_active_catalog 100 s)))

  unfoldable pub recommend : Option ℕ → ℕ → Store → Result (List RecommendationCandidate)
  recommend product_id limit s = elim (viewed_product product_id s) [
    | err e ↦ err e
    | ok viewed ↦ ok (take limit (ranking viewed s))
  ]
