-- ===== src/Catalogue/Tests.antt =====
-- The small shop's products, and the theorems at these inputs.
use Prim.Native.String.{String}
use qiki.Base.{
  Among, Bool, Option, ◌≤◌, true, ◌≡◌, ◌↔◌, ◌⊎◌, none, some, List, [], ◌∷◌, ok, err, Error,
}
use qiki.Models.Product.{Product, Category}
use qiki.Orders.Fixture.{cylinder, water, shop}
use qiki.Catalogue.Sorting.{Ordered}
use qiki.Catalogue.Query.{ProductQuery, PriceKind, Words, filter_products}
use qiki.Catalogue.Answers.{IsAnswer, filter_products-IsAnswer}
use qiki.Catalogue.Ranking.{RecommendationCandidate, recommend}
use qiki.Catalogue.Suggestions.{IsBest, IsViewed, NoActive, recommend-IsBest}

abbrev words : Words
words = record { strip_accents = λ t. t; has_word = λ t word. true }

abbrev under_price : ProductQuery
under_price = record {
  brand = none;
  size_kg = none;
  category = some Category.gas;
  colour = none;
  price_kind = some PriceKind.under;
  price_value = some 500000;
}

filter_products-IsAnswer_example :
    Ordered (λ p q. p.price ≤ q.price) (filter_products words (cylinder ∷ water ∷ []) under_price)
    × ((p : Product)
        → Among p (filter_products words (cylinder ∷ water ∷ []) under_price)
          ↔ (Among p (cylinder ∷ water ∷ []) × IsAnswer words under_price p))
filter_products-IsAnswer_example =
    filter_products-IsAnswer words under_price (cylinder ∷ water ∷ [])

abbrev by_name : String → String → Bool
by_name a b = true

recommend-IsBest_example :
    (NoActive by_name (some 1) shop
      × (recommend by_name (some 1) 6 shop ≡ err Error.product_not_found))
    ⊎ ((viewed : Option Product) × (chosen : List RecommendationCandidate) × IsViewed by_name shop
          (some 1)
          viewed
        × (recommend by_name (some 1) 6 shop ≡ ok chosen)
        × IsBest by_name viewed 6 shop chosen)
recommend-IsBest_example = recommend-IsBest by_name (some 1) 6 shop
