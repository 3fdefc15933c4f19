-- ===== src/Catalogue/Suggestions.antt =====
-- What the shop suggests (backend/app/services/recommendation_service.py).
use qiki.Base.{
  Among, ℕ, zero, suc, ◌≤◌, ◌<◌, Bool, true, false, not, Option, none, some, List, [], ◌∷◌, map,
  String, ltb, length, length-take-le, All-take, select, take, sum_of, ok, err, ◌≡◌, refl, sym, ap,
  subst, Error, ◌⊎◌, inl, inr, ◌↔◌, All, arith, Bool-cases, Option-cases, lookup,
}
use qiki.Models.Product.{Product}
use qiki.Models.Store.{Store}
use qiki.Catalogue.Sorting.{Ordered, sort_by-Ordered, among_sort_by, among_select}
use qiki.Catalogue.Ranking.{
  Reason, RecommendationCandidate, largest, best_reason, list_active_catalog, get_best_sellers,
  candidate_of, is_viewed, ranks_before, ranking, viewed_product, recommend,
}

All-among : {A : Type 0} (P : A → Type 0) (z : A) (xs : List A) → All P xs → Among z xs → P z
All-among P z [] h among = absurd among
All-among P z (x ∷ xs) (p, h) (inl same) = subst P (sym same) p
All-among P z (x ∷ xs) (p, h) (inr among) = All-among P z xs h among

largest-among :
    (best : ℕ × Reason) (rest : List (ℕ × Reason)) → Among (largest best rest) (best ∷ rest)
unfolding largest
largest-among best [] = inl refl
largest-among best (c ∷ rest) = elim (Bool-cases (ltb best.0 c.0)) [
  | inl e ↦
      subst (λ d. Among d (best ∷ c ∷ rest)) {x = largest c rest} (ground (arith, e))
        (inr (largest-among c rest))
  | inr e ↦
      subst (λ d. Among d (best ∷ c ∷ rest)) {x = largest best rest} (ground (arith, e))
        (elim (largest-among best rest) [ inl same ↦ inl same | inr among ↦ inr (inr among) ])
]

abbrev pub Below : ℕ → List (ℕ × Reason) → Type 0
Below n cs = All (λ c. c.0 ≤ n) cs

largest-Below :
    (best : ℕ × Reason) (rest : List (ℕ × Reason)) → Below (largest best rest).0 (best ∷ rest)
unfolding largest
largest-Below best [] = (omega arith, tt)
largest-Below best (c ∷ rest) = elim (Bool-cases (ltb best.0 c.0)) [
  | inl e ↦
      let (first, others) = largest-Below c rest in
      subst (λ (d : ℕ × Reason). All (λ c. c.0 ≤ d.0) (best ∷ c ∷ rest)) {x = largest c rest}
        {y = largest best (c ∷ rest)} (ground (arith, e)) (ground (arith, e), (first, others))
  | inr e ↦
      let (first, others) = largest-Below best rest in
      subst (λ (d : ℕ × Reason). All (λ c. c.0 ≤ d.0) (best ∷ c ∷ rest)) {x = largest best rest}
        {y = largest best (c ∷ rest)} (ground (arith, e)) (first, (ground (arith, e), others))
]

-- What is not positive is zero and stands below any number.
selected-Below :
    (n : ℕ) (cs : List (ℕ × Reason)) → Below n (select (λ c. ltb 0 c.0) cs) → Below n cs
selected-Below n [] h = tt
selected-Below n (c ∷ cs) h = elim (Bool-cases (ltb 0 c.0)) [
  | inl e ↦
      let (p, ps) =
        subst (All (λ c. c.0 ≤ n)) {y = c ∷ select (λ c. ltb 0 c.0) cs} (ground (arith, e)) h in
      (p, selected-Below n cs ps)
  | inr e ↦ (
    ground (arith, e),
    selected-Below n cs
        (subst (All (λ c. c.0 ≤ n)) {y = select (λ c. ltb 0 c.0) cs} (ground (arith, e)) h),
  )
]

-- The reason is that of a contribution.
pub record IsHonest (contributions : List (ℕ × Reason)) (reason : Reason) : Type 0 where
  pub contribution : ℕ × Reason
  pub counted : Among contribution contributions
  pub positive : 0 < contribution.0
  pub given : reason ≡ contribution.1
  pub largest : Below contribution.0 contributions

-- The cut of an ordered list leaves nothing behind that goes before what it takes.
take_first :
    {A : Type 0} (R : A → A → Type 0) (n : ℕ) (xs : List A) (z : A)
    → Ordered R xs
    → Among z xs
    → Among z (take n xs) ⊎ All (λ y. R y z) (take n xs)
take_first R zero xs z h among = inr tt
take_first R (suc n) [] z h among = absurd among
take_first R (suc n) (x ∷ xs) z (p, h) (inl same) = inl (inl same)
take_first R (suc n) (x ∷ xs) z (p, h) (inr among) = elim (take_first R n xs z h among) [
  | inl taken ↦ inl (inr taken)
  | inr ahead ↦ inr (All-among (R x) z xs p among, ahead)
]

take-Ordered :
    {A : Type 0} (R : A → A → Type 0) (n : ℕ) (xs : List A) → Ordered R xs → Ordered R (take n xs)
take-Ordered R zero xs h = tt
take-Ordered R (suc n) [] h = tt
take-Ordered R (suc n) (x ∷ xs) (p, h) = (All-take (R x) n xs p, take-Ordered R n xs h)

taken_among : {A : Type 0} (n : ℕ) (xs : List A) (z : A) → Among z (take n xs) → Among z xs
taken_among zero xs z h = absurd h
taken_among (suc n) [] z h = absurd h
taken_among (suc n) (x ∷ xs) z (inl same) = inl same
taken_among (suc n) (x ∷ xs) z (inr h) = inr (taken_among n xs z h)

-- The score is the sum of all contributions. The reason that is shown is that of a positive contribution which
-- none exceeds, or the neutral one where no contribution is positive.
best_reason-IsHonest :
    (contributions : List (ℕ × Reason))
    → ((best_reason contributions).0 ≡ sum_of (λ c. c.0) contributions)
      × (((best_reason contributions).1 ≡ Reason.popular_fallback) × (Below 0 contributions)
          ⊎ IsHonest contributions (best_reason contributions).1)
unfolding best_reason
best_reason-IsHonest contributions = go (select (λ c. ltb 0 c.0) contributions) refl
  where
    go :
        (positive : List (ℕ × Reason))
        → select (λ c. ltb 0 c.0) contributions ≡ positive
        → ((best_reason contributions).0 ≡ sum_of (λ c. c.0) contributions)
          × (((best_reason contributions).1 ≡ Reason.popular_fallback) × (Below 0 contributions)
              ⊎ IsHonest contributions (best_reason contributions).1)
    go [] e = (
      ground (arith, e),
      inl (ground (arith, e), selected-Below 0 contributions (subst (Below 0) (sym e) tt)),
    )
    go (c ∷ rest) e =
        let top = largest c rest in
        let inside : Among top (select (λ c. ltb 0 c.0) contributions) =
          subst (Among top) (sym e) (largest-among c rest) in
        let (counted, positive) =
          (among_select (λ (c : ℕ × Reason). ltb 0 c.0) top contributions).0 inside in
        (
          ground (arith, e),
          inr record {
            contribution = top;
            counted = counted;
            positive = ground arith;
            given = ground (arith, e);
            largest =
                selected-Below top.0 contributions
                  (subst (Below top.0) (sym e) (largest-Below c rest));
          },
        )

module _ (collates : String → String → Bool) where
  abbrev Better : RecommendationCandidate → RecommendationCandidate → Type 0
  Better a b = b.score ≤ a.score

  abbrev pub offered : Option Product → Store → List Product
  offered viewed s = select (λ p. not (is_viewed viewed p)) (list_active_catalog collates 100 s)

  ranking-Ordered :
      (viewed : Option Product) (s : Store) → Ordered Better (ranking collates viewed s)
  unfolding ranking
  ranking-Ordered viewed s =
      sort_by-Ordered ranks_before Better (λ a b h. ground arith) (λ a b h. ground arith)
        (λ a b c h k. omega arith)
        (map (candidate_of (get_best_sellers collates 100 s) viewed) (offered viewed s))

  among_map : {A B : Type 0} (f : A → B) (x : A) (xs : List A) → Among x xs → Among (f x) (map f xs)
  among_map f x [] h = absurd h
  among_map f x (y ∷ ys) (inl same) = inl (ap f same)
  among_map f x (y ∷ ys) (inr among) = inr (among_map f x ys among)

  map_among :
      {A B : Type 0} (f : A → B) (z : B) (xs : List A)
      → Among z (map f xs)
      → (x : A) × Among x xs × (z ≡ f x)
  map_among f z [] h = absurd h
  map_among f z (x ∷ xs) (inl same) = (x, inl refl, same)
  map_among f z (x ∷ xs) (inr among) =
      let (y, inside, e) = map_among f z xs among in (y, inr inside, e)

  -- The best of the products on offer, each with its score and its reason.
  pub record IsBest (viewed : Option Product) (limit : ℕ) (s : Store)
      (chosen : List RecommendationCandidate) : Type 0 where
    pub few : length chosen ≤ limit
    pub ordered : Ordered (λ a b. b.score ≤ a.score) chosen
    pub from_offer :
        (a : RecommendationCandidate)
        → Among a chosen
        → (p : Product) × Among p (list_active_catalog collates 100 s)
          × (is_viewed viewed p ≡ false)
          × (a ≡ candidate_of (get_best_sellers collates 100 s) viewed p)
    pub none_better :
        (p : Product)
        → Among p (list_active_catalog collates 100 s)
        → is_viewed viewed p ≡ false
        → let a = candidate_of (get_best_sellers collates 100 s) viewed p in
          Among a chosen ⊎ All (λ b. a.score ≤ b.score) chosen

  among_offered :
      (viewed : Option Product) (s : Store) (p : Product)
      → Among p (offered viewed s)
        ↔ (Among p (list_active_catalog collates 100 s) × (not (is_viewed viewed p) ≡ true))
  among_offered viewed s p =
      among_select (λ p. not (is_viewed viewed p)) p (list_active_catalog collates 100 s)

  among_ranking :
      (viewed : Option Product) (s : Store) (a : RecommendationCandidate)
      → Among a (ranking collates viewed s)
        ↔ Among a (map (candidate_of (get_best_sellers collates 100 s) viewed) (offered viewed s))
  unfolding ranking
  among_ranking viewed s a =
      among_sort_by ranks_before a
        (map (candidate_of (get_best_sellers collates 100 s) viewed) (offered viewed s))

  ranking-IsBest :
      (viewed : Option Product) (limit : ℕ) (s : Store)
      → IsBest viewed limit s (take limit (ranking collates viewed s))
  ranking-IsBest viewed limit s =
      let ranked = ranking collates viewed s in
      let candidate = candidate_of (get_best_sellers collates 100 s) viewed in
      record {
        few = length-take-le limit ranked;
        ordered = take-Ordered Better limit ranked (ranking-Ordered viewed s);
        from_offer = λ a h.
            let (p, inside, e) =
              map_among candidate a (offered viewed s)
                ((among_ranking viewed s a).0 (taken_among limit ranked a h)) in
            let (active, other) = (among_offered viewed s p).0 inside in
            (p, active, ground arith, e);
        none_better = λ p active other.
            take_first Better limit ranked (candidate p) (ranking-Ordered viewed s) (
              (among_ranking viewed s (candidate p)).1 (
                among_map candidate p (offered viewed s)
                  ((among_offered viewed s p).1 (active, ground arith))));
      }

  -- What a request may be about: no product, or an active one.
  pub data IsViewed (s : Store) : Option ℕ → Option Product → Type 0 where
    nothing : IsViewed s none none
    active :
        {id : ℕ} {p : Product}
        → lookup id s.products ≡ some p
        → p.is_active ≡ true
        → IsViewed s (some id) (some p)

  -- The identifier is that of no product, or of an inactive one.
  abbrev pub NoActive : Option ℕ → Store → Type 0
  NoActive none s = ⊥
  NoActive (some id) s = (p : Product) → lookup id s.products ≡ some p → p.is_active ≡ false

  viewed_product-cases :
      (product_id : Option ℕ) (s : Store)
      → (NoActive product_id s × (viewed_product product_id s ≡ err Error.product_not_found))
        ⊎ ((viewed : Option Product) × IsViewed s product_id viewed
            × (viewed_product product_id s ≡ ok viewed))
  unfolding viewed_product
  viewed_product-cases none s = inr (none, nothing, refl)
  viewed_product-cases (some id) s = elim (Option-cases (lookup id s.products)) [
    | inl absent ↦ inl ((λ p found. absurd (ground arith)), ground arith)
    | inr (p, found) ↦ elim (Bool-cases p.is_active) [
      | inl on ↦ inr (some p, active found on, ground arith)
      | inr off ↦ inl ((λ q found'. ground arith), ground arith)
    ]
  ]

  -- A recommendation about an identifier that no active product has is refused. Any other holds at most
  -- as many products as asked for, the highest score first. Each is a product of the active catalog other
  -- than the one that is viewed, with its own score and reason, and a product that is left out scores no
  -- higher than any of them.
  pub recommend-IsBest :
      (product_id : Option ℕ) (limit : ℕ) (s : Store)
      → (NoActive product_id s
          × (recommend collates product_id limit s ≡ err Error.product_not_found))
        ⊎ ((viewed : Option Product) × (chosen : List RecommendationCandidate) × IsViewed s
              product_id viewed
            × (recommend collates product_id limit s ≡ ok chosen)
            × IsBest viewed limit s chosen)
  unfolding recommend
  recommend-IsBest product_id limit s = elim (viewed_product-cases product_id s) [
    | inl (inactive, refused) ↦ inl (inactive, ground (arith, refused))
    | inr (viewed, about, p) ↦ inr (
      viewed,
      take limit (ranking collates viewed s),
      about,
      ground (arith, p),
      ranking-IsBest viewed limit s,
    )
  ]
