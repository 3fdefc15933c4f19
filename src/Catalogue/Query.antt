-- ===== src/Catalogue/Query.antt =====
-- A question about products and their prices, and the products that answer it
-- (backend/app/services/product_query.py). Prices are numbers of the smallest unit; a bound is in
-- hundredths of it.
use qiki.Base.{
  ℕ, ◌*◌, Bool, true, false, ◌&&◌, ◌||◌, not, Option, none, some, List, String, is_some, leb, ◌==◌,
  select, if◌then◌else◌,
}
use text.Mathlib.Text.{find?}
use qiki.Models.Product.{Product, Category}
use qiki.Catalogue.Sorting.{sort_by}

pub data PriceKind : Type 0 where
  cheapest most_expensive around under over : PriceKind

pub record ProductQuery : Type 0 where
  pub brand : Option String
  pub size_kg : Option ℕ
  pub category : Option Category
  pub colour : Option String
  pub price_kind : Option PriceKind
  pub price_value : Option ℕ

-- Unicode's and the expressions' part: `strip_accents` and `_has_word`.
pub record Words : Type 0 where
  pub strip_accents : String → String
  pub has_word : String → String → Bool

-- True for a brand or a size.
unfoldable pub is_specific : ProductQuery → Bool
is_specific query = is_some query.brand || is_some query.size_kg

-- Around a price is six percent below it to six percent above.
abbrev pub bounds : Option PriceKind → Option ℕ → Option ℕ × Option ℕ
bounds (some PriceKind.around) (some value) = (some (94 * value), some (106 * value))
bounds (some PriceKind.under) (some value) = (none, some (100 * value))
bounds (some PriceKind.over) (some value) = (some (100 * value), none)
bounds _ _ = (none, none)

unfoldable pub price_bounds : ProductQuery → Option ℕ × Option ℕ
price_bounds query = bounds query.price_kind query.price_value

abbrev pub same_category : Category → Category → Bool
same_category Category.gas Category.gas = true
same_category Category.nuoc_uong Category.nuoc_uong = true
same_category _ _ = false

abbrev pub or_any {ℓ} : {A : Type ℓ} → (A → Bool) → Option A → Bool
or_any test none = true
or_any test (some x) = test x

module _ (w : Words) where
  -- A colour counts only beside a brand or a size.
  unfoldable pub apply_colour : ProductQuery → Bool
  apply_colour query = is_some query.colour && (is_some query.brand || is_some query.size_kg)

  abbrev pub names_colour : Option String → Product → Bool
  names_colour none p = w.has_word (w.strip_accents p.name) ""
  names_colour (some colour) p = w.has_word (w.strip_accents p.name) colour

  abbrev pub has_brand : Product → String → Bool
  has_brand p brand = is_some (find? (w.strip_accents p.brand) (w.strip_accents brand))

  abbrev pub in_bounds : Option ℕ × Option ℕ → ℕ → Bool
  in_bounds (low, high) price =
      or_any (λ bound. leb bound (100 * price)) low
      && or_any (λ bound. leb (100 * price) bound) high

  -- Whether the loop reaches its last line for the product.
  unfoldable pub matches : ProductQuery → Product → Bool
  matches query p =
      if not (or_any (has_brand p) query.brand)
      then false
      else if not (or_any (λ size. p.size_kg == size) query.size_kg)
      then false
      else if not (or_any (same_category p.category) query.category)
      then false
      else if apply_colour query && not (names_colour query.colour p)
      then false
      else in_bounds (price_bounds query) p.price

  abbrev pub cheaper : Product → Product → Bool
  cheaper p q = leb p.price q.price

  unfoldable pub filter_products : List Product → ProductQuery → List Product
  filter_products products query = sort_by cheaper (select (matches query) products)
