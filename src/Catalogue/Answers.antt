-- ===== src/Catalogue/Answers.antt =====
-- Which products answer a question (`filter_products` of backend/app/services/product_query.py).
use qiki.Base.{
  Among, ℕ, ◌*◌, ◌≤◌, Bool, true, false, Option, none, some, List, String, is_some, ◌&&◌, ◌||◌, not,
  ◌==◌, ==_iff, select, ◌≡◌, refl, ◌↔◌, ◌⊎◌, inl, inr, Bool-cases, arith,
}
use text.Mathlib.Text.{find?}
use qiki.Models.Product.{Product, Category}
use qiki.Catalogue.Sorting.{Ordered, sort_by-Ordered, among_sort_by, among_select}
use qiki.Catalogue.Query.{
  ProductQuery, PriceKind, or_any, bounds, same_category, names_colour, has_brand, in_bounds, Words,
  price_bounds, matches, apply_colour, cheaper, filter_products,
}

abbrev pub IfSome {ℓ} : {A : Type ℓ} → Option A → (A → Type 0) → Type 0
IfSome none P = Unit
IfSome (some x) P = P x

-- The price is in the range that the question names.
abbrev pub InRange : Option PriceKind → Option ℕ → ℕ → Type 0
InRange (some PriceKind.around) (some value) price =
    (94 * value ≤ 100 * price) × (100 * price ≤ 106 * value)
InRange (some PriceKind.under) (some value) price = price ≤ value
InRange (some PriceKind.over) (some value) price = value ≤ price
InRange _ _ price = Unit

or_any-IfSome :
    {A : Type 0} (test : A → Bool) (P : A → Type 0)
    → ((x : A) → (test x ≡ true) ↔ P x)
    → (o : Option A) → (or_any test o ≡ true) ↔ IfSome o P
or_any-IfSome test P h none = (λ e. tt, λ p. refl)
or_any-IfSome test P h (some x) = h x

or_cases : (a b : Bool) → (a || b) ≡ true → (a ≡ true) ⊎ (b ≡ true)
or_cases true b h = inl refl
or_cases false b h = inr h

same_category_iff : (c d : Category) → (same_category c d ≡ true) ↔ (c ≡ d)
same_category_iff Category.gas Category.gas = ground arith
same_category_iff Category.gas Category.nuoc_uong = ground arith
same_category_iff Category.nuoc_uong Category.gas = ground arith
same_category_iff Category.nuoc_uong Category.nuoc_uong = ground arith

module _ (w : Words) (query : ProductQuery) where
  -- The product is what the question asks for. A colour is heeded beside a brand or a size only.
  pub record IsAnswer (p : Product) : Type 0 where
    pub brand :
        IfSome query.brand
          (λ brand. is_some (find? (w.strip_accents p.brand) (w.strip_accents brand)) ≡ true)
    pub size : IfSome query.size_kg (λ size. p.size_kg ≡ size)
    pub category : IfSome query.category (λ category. p.category ≡ category)
    pub colour : IfSome query.colour (λ colour.
        (is_some query.brand ≡ true) ⊎ (is_some query.size_kg ≡ true)
        → w.has_word (w.strip_accents p.name) colour ≡ true)
    pub price : InRange query.price_kind query.price_value p.price

  in_bounds-InRange :
      (kind : Option PriceKind) (value : Option ℕ) (price : ℕ)
      → (in_bounds w (bounds kind value) price ≡ true) ↔ InRange kind value price
  in_bounds-InRange none value price = (λ e. tt, λ p. refl)
  in_bounds-InRange (some PriceKind.cheapest) value price = (λ e. tt, λ p. refl)
  in_bounds-InRange (some PriceKind.most_expensive) value price = (λ e. tt, λ p. refl)
  in_bounds-InRange (some PriceKind.around) none price = (λ e. tt, λ p. refl)
  in_bounds-InRange (some PriceKind.around) (some value) price =
      (λ e. ground arith, λ p. ground arith)
  in_bounds-InRange (some PriceKind.under) none price = (λ e. tt, λ p. refl)
  in_bounds-InRange (some PriceKind.under) (some value) price =
      (λ e. ground arith, λ p. ground arith)
  in_bounds-InRange (some PriceKind.over) none price = (λ e. tt, λ p. refl)
  in_bounds-InRange (some PriceKind.over) (some value) price =
      (λ e. ground arith, λ p. ground arith)

  abbrev Colour : Product → Type 0
  Colour p = IfSome query.colour (λ colour.
      (is_some query.brand ≡ true) ⊎ (is_some query.size_kg ≡ true)
      → w.has_word (w.strip_accents p.name) colour ≡ true)

  colour_lem :
      (o : Option String) (p : Product)
      → (((is_some o && (is_some query.brand || is_some query.size_kg)) && not (names_colour w o p))
          ≡ false)
        ↔ IfSome o (λ colour.
          (is_some query.brand ≡ true) ⊎ (is_some query.size_kg ≡ true)
          → w.has_word (w.strip_accents p.name) colour ≡ true)
  colour_lem none p = (λ e. tt, λ c. refl)
  colour_lem (some colour) p = (
    λ e. λ beside. ground arith,
    λ c. elim (Bool-cases (is_some query.brand || is_some query.size_kg)) [
      | inl beside ↦
          let named = c (or_cases (is_some query.brand) (is_some query.size_kg) beside) in
          ground arith
      | inr alone ↦ ground arith
    ],
  )

  brand_lem :
      (p : Product)
      → (or_any (has_brand w p) query.brand ≡ true)
        ↔ IfSome query.brand
            (λ brand. is_some (find? (w.strip_accents p.brand) (w.strip_accents brand)) ≡ true)
  brand_lem p =
      or_any-IfSome (has_brand w p)
        (λ brand. is_some (find? (w.strip_accents p.brand) (w.strip_accents brand)) ≡ true)
        (λ brand. (λ e. e, λ e. e)) query.brand

  matches-IsAnswer : (p : Product) → matches w query p ≡ true → IsAnswer p
  unfolding matches apply_colour price_bounds
  matches-IsAnswer p h = record {
    brand = (brand_lem p).0 (ground arith);
    size =
        (or_any-IfSome (λ size. p.size_kg == size) (λ size. p.size_kg ≡ size)
            (λ size. ==_iff p.size_kg size) query.size_kg).0
          (ground arith);
    category =
        (or_any-IfSome (same_category p.category) (λ category. p.category ≡ category)
            (same_category_iff p.category) query.category).0
          (ground arith);
    colour = (colour_lem query.colour p).0 (ground arith);
    price = (in_bounds-InRange query.price_kind query.price_value p.price).0 (ground arith);
  }

  answer_matches : (p : Product) → IsAnswer p → matches w query p ≡ true
  unfolding matches apply_colour price_bounds
  answer_matches p h =
      let b = (brand_lem p).1 h.brand in
      let s =
        (or_any-IfSome (λ size. p.size_kg == size) (λ size. p.size_kg ≡ size)
            (λ size. ==_iff p.size_kg size) query.size_kg).1
          h.size in
      let c =
        (or_any-IfSome (same_category p.category) (λ category. p.category ≡ category)
            (same_category_iff p.category) query.category).1
          h.category in
      let o = (colour_lem query.colour p).1 h.colour in
      let r = (in_bounds-InRange query.price_kind query.price_value p.price).1 h.price in
      ground arith

  -- The products that answer a question stand with the cheapest first, and they are exactly those of the list
  -- that have the brand, the size, the category, the colour and the price that it asks for.
  pub filter_products-IsAnswer :
      (products : List Product)
      → Ordered (λ p q. p.price ≤ q.price) (filter_products w products query)
        × ((p : Product)
            → Among p (filter_products w products query) ↔ (Among p products × IsAnswer p))
  unfolding filter_products
  filter_products-IsAnswer products = (
    sort_by-Ordered (cheaper w) (λ p q. p.price ≤ q.price) (λ p q h. ground arith)
        (λ p q h. ground arith) (λ p q r h k. omega arith) (select (matches w query) products),
    λ p.
        let (down, up) = among_sort_by (cheaper w) p (select (matches w query) products) in
        let (chosen, kept) = among_select (matches w query) p products in
        (
          λ h. let (inside, fits) = chosen (down h) in (inside, matches-IsAnswer p fits),
          λ (inside, answer). up (kept (inside, answer_matches p answer)),
        ),
  )
