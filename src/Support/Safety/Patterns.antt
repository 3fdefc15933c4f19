-- ===== src/Support/Safety/Patterns.antt =====
-- The search for a suspicious pattern against what its expression means (backend/app/rag/safety.py).
use qiki.Base.{
  Among, ℕ, zero, suc, ◌≤◌, Bool, true, Option, none, some, List, [], ◌∷◌, ◌++◌, all, length,
  length-append, append_assoc, is_some, ◌==◌, ◌≡◌, refl, sym, ap, ◌∙◌, subst, inl, inr, ◌↔◌, arith,
  Option-cases,
}
use qiki.Chat.Turn.{drop}
use qiki.Support.Safety.{after_prefix, first_prefix, after_first, search}

-- The text holds a word of each piece, one after the other, with anything before, between and after.
pub data InOrder : List (List (List ℕ)) → List ℕ → Type 0 where
  done : {t : List ℕ} → InOrder [] t
  next :
      {words : List (List ℕ)} {pieces : List (List (List ℕ))} {t : List ℕ} (before w after : List ℕ)
      → t ≡ before ++ (w ++ after)
      → Among w words
      → InOrder pieces after
      → InOrder (words ∷ pieces) t

after_prefix_split : (w t rest : List ℕ) → after_prefix w t ≡ some rest → t ≡ w ++ rest
after_prefix_split [] t rest e = ground arith
after_prefix_split (c ∷ w) [] rest e = absurd (ground arith)
after_prefix_split (c ∷ w) (d ∷ t) rest e = ground (arith, after_prefix_split w t rest)

first_prefix_split :
    (words : List (List ℕ)) (t rest : List ℕ)
    → first_prefix words t ≡ some rest
    → (w : List ℕ) × Among w words × (t ≡ w ++ rest)
first_prefix_split [] t rest e = absurd (ground arith)
first_prefix_split (w ∷ words) t rest e = elim (Option-cases (after_prefix w t)) [
  | inl miss ↦
      let (v, among, split) = first_prefix_split words t rest (ground (arith, miss)) in
      (v, inr among, split)
  | inr (r, hit) ↦ (w, inl refl, after_prefix_split w t rest (ground (arith, hit)))
]

after_first_split :
    (words : List (List ℕ)) (t rest : List ℕ)
    → after_first words t ≡ some rest
    → (before : List ℕ) × (w : List ℕ) × Among w words × (t ≡ before ++ (w ++ rest))
after_first_split words [] rest e =
    let (w, among, split) = first_prefix_split words [] rest e in ([], w, among, split)
after_first_split words (c ∷ t) rest e = elim (Option-cases (first_prefix words (c ∷ t))) [
  | inl miss ↦
      let (before, w, among, split) = after_first_split words t rest (ground (arith, miss)) in
      (c ∷ before, w, among, ap (λ t. c ∷ t) split)
  | inr (r, hit) ↦
      let (w, among, split) = first_prefix_split words (c ∷ t) rest (ground (arith, hit)) in
      ([], w, among, split)
]

sound : (pieces : List (List (List ℕ))) (t : List ℕ) → search pieces t ≡ true → InOrder pieces t
unfolding search
sound [] t h = done
sound (words ∷ pieces) t h = elim (Option-cases (after_first words t)) [
  | inl miss ↦ absurd (ground (arith, miss))
  | inr (rest, hit) ↦
      let (before, w, among, split) = after_first_split words t rest hit in
      next before w rest split among (sound pieces rest (ground (arith, hit)))
]

-- The words of a piece have one length, so the earliest match leaves the longest rest.
abbrev of_length : ℕ → List (List ℕ) → Bool
of_length n words = all (λ w. length w == n) words

abbrev pub uniform : List (List ℕ) → Bool
uniform [] = true
uniform (w ∷ words) = of_length (length w) words

abbrev size_of : List (List ℕ) → ℕ
size_of [] = 0
size_of (w ∷ words) = length w

uniform_length :
    (words : List (List ℕ)) → uniform words ≡ true → of_length (size_of words) words ≡ true
uniform_length [] h = refl
uniform_length (w ∷ words) h = ground arith

present {ℓ} : {A : Type ℓ} (o : Option A) → is_some o ≡ true → (x : A) × (o ≡ some x)
present none h = absurd (ground arith)
present (some x) h = (x, refl)

after_prefix-drop : (w t rest : List ℕ) → after_prefix w t ≡ some rest → rest ≡ drop (length w) t
unfolding drop
after_prefix-drop [] t rest e = ground arith
after_prefix-drop (c ∷ w) [] rest e = absurd (ground arith)
after_prefix-drop (c ∷ w) (d ∷ t) rest e = ground (arith, after_prefix-drop w t rest)

first_prefix-drop :
    (n : ℕ) (words : List (List ℕ)) (t rest : List ℕ)
    → of_length n words ≡ true
    → first_prefix words t ≡ some rest
    → rest ≡ drop n t
first_prefix-drop n [] t rest u e = absurd (ground arith)
first_prefix-drop n (w ∷ words) t rest u e = elim (Option-cases (after_prefix w t)) [
  | inl miss ↦ first_prefix-drop n words t rest (ground arith) (ground (arith, miss))
  | inr (r, hit) ↦
      let size : length w ≡ n = ground arith in
      subst (λ m. rest ≡ drop m t) size (after_prefix-drop w t rest (ground (arith, hit)))
]

after_prefix-append : (w after : List ℕ) → after_prefix w (w ++ after) ≡ some after
after_prefix-append [] after = refl
after_prefix-append (c ∷ w) after = ground (arith, after_prefix-append w after)

first_prefix_hit :
    (words : List (List ℕ)) (w after : List ℕ)
    → Among w words
    → is_some (first_prefix words (w ++ after)) ≡ true
first_prefix_hit [] w after h = absurd h
first_prefix_hit (v ∷ words) w after (inl same) = ground (arith, same, after_prefix-append w after)
first_prefix_hit (v ∷ words) w after (inr among) =
    ground (arith, first_prefix_hit words w after among)

among_length :
    (n : ℕ) (words : List (List ℕ)) (w : List ℕ)
    → of_length n words ≡ true
    → Among w words
    → length w ≡ n
among_length n [] w u h = absurd h
among_length n (v ∷ words) w u (inl same) = ap (λ (x : List ℕ). length x) same ∙ ground arith
among_length n (v ∷ words) w u (inr among) = among_length n words w (ground arith) among

drop-append : (n : ℕ) (xs ys : List ℕ) → n ≤ length xs → drop n (xs ++ ys) ≡ drop n xs ++ ys
unfolding drop
drop-append zero xs ys h = refl
drop-append (suc n) [] ys h = absurd (omega arith)
drop-append (suc n) (x ∷ xs) ys h = drop-append n xs ys (omega arith)

module _ (n : ℕ) (words : List (List ℕ)) (w after : List ℕ) where
  -- The first match ends no later than another one.
  earliest :
      (before : List ℕ)
      → of_length n words ≡ true
      → Among w words
      → (rest : List ℕ) × (after_first words (before ++ (w ++ after)) ≡ some rest)
        × ((gap : List ℕ) × (rest ≡ gap ++ after))
  earliest before u among = go before (before ++ (w ++ after)) refl
    where
      ended :
          (before t rest : List ℕ)
          → t ≡ before ++ (w ++ after)
          → first_prefix words t ≡ some rest
          → (gap : List ℕ) × (rest ≡ gap ++ after)
      ended before t rest e hit =
          let size = among_length n words w u among in
          let split =
            drop-append n (before ++ w) after (omega (arith, length-append before w, size)) in
          (
            drop n (before ++ w),
            ground (
              arith,
              first_prefix-drop n words t rest u hit,
              e,
              append_assoc before w after,
              split,
            ),
          )

      hits :
          (before t : List ℕ)
          → t ≡ before ++ (w ++ after)
          → (rest : List ℕ) × (first_prefix words t ≡ some rest)
          → (rest : List ℕ) × (after_first words t ≡ some rest)
            × ((gap : List ℕ) × (rest ≡ gap ++ after))
      hits before [] e (rest, hit) = (rest, hit, ended before [] rest e hit)
      hits before (c ∷ t) e (rest, hit) =
          (rest, ground (arith, hit), ended before (c ∷ t) rest e hit)

      go :
          (before t : List ℕ)
          → t ≡ before ++ (w ++ after)
          → (rest : List ℕ) × (after_first words t ≡ some rest)
            × ((gap : List ℕ) × (rest ≡ gap ++ after))
      go [] t e = hits [] t e (
          present (first_prefix words t) (
            subst (λ t. is_some (first_prefix words t) ≡ true) (sym e)
              (first_prefix_hit words w after among)))
      go (b ∷ before) [] e = absurd (ground arith)
      go (b ∷ before) (c ∷ t) e = elim (Option-cases (first_prefix words (c ∷ t))) [
        | inl miss ↦
            let (rest, found, gap) = go before t (ground arith) in
            (rest, ground (arith, miss, found), gap)
        | inr hit ↦ hits (b ∷ before) (c ∷ t) e hit
      ]

widen :
    (pieces : List (List (List ℕ))) (gap t : List ℕ) → InOrder pieces t → InOrder pieces (gap ++ t)
widen [] gap t h = done
widen (words ∷ pieces) gap t (next before w after e among h) =
    next (gap ++ before) w after (ground (arith, e, append_assoc gap before (w ++ after))) among h

pub complete :
    (pieces : List (List (List ℕ))) (t : List ℕ)
    → all uniform pieces ≡ true
    → InOrder pieces t
    → search pieces t ≡ true
unfolding search
complete [] t u h = refl
complete (words ∷ pieces) t u (next before w after e among h) =
    let (rest, found, (gap, wide)) =
      earliest (size_of words) words w after before (uniform_length words (ground arith)) among in
    ground (
      arith,
      e,
      found,
      wide,
      complete pieces (gap ++ after) (ground arith) (widen pieces gap after h),
    )

-- The search for a pattern whose pieces each have words of one length finds it exactly
-- when the text holds the pieces in their order.
pub search-InOrder :
    (pieces : List (List (List ℕ))) (t : List ℕ)
    → all uniform pieces ≡ true
    → (search pieces t ≡ true) ↔ InOrder pieces t
search-InOrder pieces t u = (sound pieces t, complete pieces t u)
