-- ===== src/Phones/Normal.antt =====
-- The normal form of a phone number (backend/app/core/input_validation.py).
use qiki.Base.{
  ℕ, zero, suc, true, false, ◌&&◌, some, List, [], ◌∷◌, ◌==◌, ◌≡◌, ◌≤◌, refl, subst, sym,
  Bool-cases, inl, inr, arith, length,
}
use qiki.Phones.{
  is_space, left_strip, right_strip, remove_separators, is_digit, digits_match, mobile_match,
  with_country, international, normalized, validate,
}

international_lem :
    (s w : List ℕ)
    → international s ≡ some w
    → (number : List ℕ) × (w ≡ with_country number) × (mobile_match number ≡ true)
unfolding international
international_lem [] w e = absurd (ground arith)
international_lem (a ∷ []) w e = absurd (ground arith)
international_lem (a ∷ b ∷ []) w e = absurd (ground arith)
international_lem (a ∷ b ∷ c ∷ s) w e = (s, ground arith, ground arith)

-- A text that the validator accepts comes back as +84 and a rest that the pattern accepts there: a
-- mobile digit, eight more digits, and the end, or a newline that is the end.
pub normalized_lem :
    (s w : List ℕ)
    → normalized s ≡ some w
    → (number : List ℕ) × (w ≡ with_country number) × (mobile_match number ≡ true)
unfolding normalized
normalized_lem [] w e = absurd (ground arith)
normalized_lem (a ∷ s) w e = elim (Bool-cases (a == 48 && mobile_match s)) [
  | inl national ↦ (s, ground arith, ground arith)
  | inr other ↦ international_lem (a ∷ s) w (ground arith)
]

digits_kept :
    (n : ℕ) (s : List ℕ)
    → digits_match n s ≡ true
    → (remove_separators s ≡ s) × (length s ≤ suc n) × (n ≤ length s)
unfolding digits_match remove_separators
digits_kept zero [] h = ground arith
digits_kept zero (c ∷ []) h = ground arith
digits_kept zero (c ∷ d ∷ s) h = absurd (ground arith)
digits_kept (suc n) [] h = absurd (ground arith)
digits_kept (suc n) (c ∷ s) h = ground (arith, digits_kept n s)

-- The two spellings of a number, with 0 and with +84, give the same result, an error included.
validate_spellings : (number : List ℕ) → validate (48 ∷ number) ≡ validate (with_country number)
unfolding validate normalized international left_strip right_strip remove_separators is_space
validate_spellings number = ground arith

digit_is_no_space : (c : ℕ) → is_digit c ≡ true → is_space c ≡ false
unfolding is_space
digit_is_no_space c h = ground arith

-- Digits to the end, without a newline, are not stripped.
digits_stripped : (n : ℕ) (s : List ℕ) → digits_match n s ≡ true → length s ≡ n → right_strip s ≡ s
unfolding digits_match right_strip
digits_stripped zero [] h e = refl
digits_stripped zero (c ∷ s) h e = absurd (ground arith)
digits_stripped (suc n) [] h e = refl
digits_stripped (suc n) (c ∷ s) h e = ground (arith, digit_is_no_space c, digits_stripped n s)

mobile_stripped :
    (s : List ℕ)
    → mobile_match s ≡ true
    → length s ≡ 9
    → (right_strip s ≡ s) × (remove_separators s ≡ s)
unfolding mobile_match right_strip remove_separators is_space
mobile_stripped [] h e = absurd (ground arith)
mobile_stripped (c ∷ s) h e = ground (arith, digits_stripped 8 s, digits_kept 8 s)

validate_fixed :
    (number : List ℕ)
    → mobile_match number ≡ true
    → length number ≡ 9
    → validate (with_country number) ≡ some (with_country number)
unfolding validate normalized international left_strip right_strip remove_separators is_space
validate_fixed number h e = ground (arith, mobile_stripped number h e)

-- Validating a result of twelve characters again gives it back, so the stored form is a fixed point.
pub validate_again :
    (value w : List ℕ) → validate value ≡ some w → length w ≡ 12 → validate w ≡ some w
unfolding validate
validate_again value w e twelve =
    let (number, shape, mobile) =
      normalized_lem (remove_separators (right_strip (left_strip value))) w e in
    subst (λ x. validate x ≡ some x) (sym shape)
      (validate_fixed number mobile (ground (arith, shape)))

mobile_length : (s : List ℕ) → mobile_match s ≡ true → (9 ≤ length s) × (length s ≤ 10)
unfolding mobile_match
mobile_length [] h = absurd (ground arith)
mobile_length (c ∷ s) h = ground (arith, digits_kept 8 s)

-- Every accepted number is stored as +84 and nine or ten characters, the first a mobile digit and
-- the next eight digits; the tenth can only be a newline.
pub validate_lem :
    (value w : List ℕ)
    → validate value ≡ some w
    → (number : List ℕ) × (w ≡ with_country number)
      × (mobile_match number ≡ true)
      × (9 ≤ length number)
      × (length number ≤ 10)
unfolding validate
validate_lem value w e =
    let (number, shape, mobile) =
      normalized_lem (remove_separators (right_strip (left_strip value))) w e in
    (
      number,
      shape,
      mobile,
      ground (arith, mobile_length number mobile),
      ground (arith, mobile_length number mobile),
    )
