-- ===== src/Catalogue/Sorting.antt =====
-- Python's `sorted` with a key, which is stable: by insertion, an element before those that it does
-- not follow.
use qiki.Base.{
  Among, Bool, true, false, List, [], ◌∷◌, select, if◌then◌else◌, ◌≡◌, subst, inl, inr, ◌↔◌, All,
  arith, Bool-cases,
}

module _ {A : Type 0} (before : A → A → Bool) where
  unfoldable pub insert_by : A → List A → List A
  insert_by x [] = x ∷ []
  insert_by x (y ∷ ys) = if before x y then x ∷ y ∷ ys else y ∷ insert_by x ys

  unfoldable pub sort_by : List A → List A
  sort_by [] = []
  sort_by (x ∷ xs) = insert_by x (sort_by xs)

-- Each element stands in relation with all that follow it.
abbrev pub Ordered : {A : Type 0} → (A → A → Type 0) → List A → Type 0
Ordered R [] = Unit
Ordered R (x ∷ xs) = All (R x) xs × Ordered R xs

module _ {A : Type 0} (before : A → A → Bool) (R : A → A → Type 0)
    (ahead : (x y : A) → before x y ≡ true → R x y)
    (behind : (x y : A) → before x y ≡ false → R y x)
    (chain : (x y z : A) → R x y → R y z → R x z) where
  All-insert_by :
      (P : A → Type 0) (x : A) (ys : List A) → P x → All P ys → All P (insert_by before x ys)
  unfolding insert_by
  All-insert_by P x [] h hs = (h, tt)
  All-insert_by P x (y ∷ ys) h (p, ps) = elim (Bool-cases (before x y)) [
    | inl e ↦ subst (All P) {x = x ∷ y ∷ ys} (ground (arith, e)) (h, (p, ps))
    | inr e ↦
        subst (All P) {x = y ∷ insert_by before x ys} (ground (arith, e))
          (p, All-insert_by P x ys h ps)
  ]

  All-chain : (x y : A) (ys : List A) → R x y → All (R y) ys → All (R x) ys
  All-chain x y [] h hs = tt
  All-chain x y (z ∷ ys) h (p, ps) = (chain x y z h p, All-chain x y ys h ps)

  insert_by-Ordered : (x : A) (ys : List A) → Ordered R ys → Ordered R (insert_by before x ys)
  unfolding insert_by
  insert_by-Ordered x [] h = (tt, tt)
  insert_by-Ordered x (y ∷ ys) (p, h) = elim (Bool-cases (before x y)) [
    | inl e ↦
        subst (Ordered R) {x = x ∷ y ∷ ys} (ground (arith, e))
          ((ahead x y e, All-chain x y ys (ahead x y e) p), (p, h))
    | inr e ↦
        subst (Ordered R) {x = y ∷ insert_by before x ys} (ground (arith, e))
          (All-insert_by (R y) x ys (behind x y e) p, insert_by-Ordered x ys h)
  ]

  pub sort_by-Ordered : (xs : List A) → Ordered R (sort_by before xs)
  unfolding sort_by
  sort_by-Ordered [] = tt
  sort_by-Ordered (x ∷ xs) = insert_by-Ordered x (sort_by before xs) (sort_by-Ordered xs)

module _ {A : Type 0} (before : A → A → Bool) where
  among-insert_by : (z x : A) (ys : List A) → Among z (x ∷ ys) → Among z (insert_by before x ys)
  unfolding insert_by
  among-insert_by z x [] h = h
  among-insert_by z x (y ∷ ys) h = elim (Bool-cases (before x y)) [
    | inl e ↦ subst (Among z) {x = x ∷ y ∷ ys} (ground (arith, e)) h
    | inr e ↦ subst (Among z) {x = y ∷ insert_by before x ys} (ground (arith, e)) (elim h [
      | inl same ↦ inr (among-insert_by z x ys (inl same))
      | inr (inl same) ↦ inl same
      | inr (inr among) ↦ inr (among-insert_by z x ys (inr among))
    ])
  ]

  insert_by-among : (z x : A) (ys : List A) → Among z (insert_by before x ys) → Among z (x ∷ ys)
  unfolding insert_by
  insert_by-among z x [] h = h
  insert_by-among z x (y ∷ ys) h = elim (Bool-cases (before x y)) [
    | inl e ↦
        subst (Among z) {x = insert_by before x (y ∷ ys)} {y = x ∷ y ∷ ys} (ground (arith, e)) h
    | inr e ↦
        let among : Among z (y ∷ insert_by before x ys) =
          subst (Among z) {x = insert_by before x (y ∷ ys)} {y = y ∷ insert_by before x ys}
            (ground (arith, e)) h in
        elim among [
          | inl same ↦ inr (inl same)
          | inr inside ↦ elim (insert_by-among z x ys inside) [
            | inl same ↦ inl same
            | inr further ↦ inr (inr further)
          ]
        ]
  ]

  pub among_sort_by : (z : A) (xs : List A) → Among z (sort_by before xs) ↔ Among z xs
  unfolding sort_by
  among_sort_by z [] = (λ h. h, λ h. h)
  among_sort_by z (x ∷ xs) =
      let (down, up) = among_sort_by z xs in
      (
        λ h. elim (insert_by-among z x (sort_by before xs) h) [
          | inl same ↦ inl same
          | inr among ↦ inr (down among)
        ],
        λ h.
            among-insert_by z x (sort_by before xs)
              (elim h [ inl same ↦ inl same | inr among ↦ inr (up among) ]),
      )

pub among_select :
    {A : Type 0} (p : A → Bool) (z : A) (xs : List A)
    → Among z (select p xs) ↔ (Among z xs × (p z ≡ true))
among_select p z [] = (λ h. absurd h, λ (h, e). absurd h)
among_select p z (x ∷ xs) =
    let (down, up) = among_select p z xs in
    elim (Bool-cases (p x)) [
      | inl e ↦ (
        λ h. elim (subst (Among z) {y = x ∷ select p xs} (ground (arith, e)) h) [
          | inl same ↦ (inl same, ground (arith, same))
          | inr among ↦ let (inside, passes) = down among in (inr inside, passes)
        ],
        λ (h, passes).
            subst (Among z) {x = x ∷ select p xs} (ground (arith, e))
              (elim h [ inl same ↦ inl same | inr among ↦ inr (up (among, passes)) ]),
      )
      | inr e ↦ (
        λ h.
            let (inside, passes) = down (subst (Among z) {y = select p xs} (ground (arith, e)) h) in
            (inr inside, passes),
        λ (h, passes). elim h [
          | inl same ↦ absurd (ground arith)
          | inr among ↦ subst (Among z) {x = select p xs} (ground (arith, e)) (up (among, passes))
        ],
      )
    ]
