-- ===== src/Phones/Tests.antt =====
-- Phone numbers at concrete texts.
use qiki.Base.{ℕ, ◌≤◌, true, some, List, [], ◌∷◌, ◌≡◌, refl, length}
use qiki.Phones.{
  is_space, left_strip, right_strip, remove_separators, digits_match, mobile_match, with_country,
  international, normalized, validate,
}
use qiki.Phones.Normal.{validate_again, validate_lem}

unfoldable phone_code : Unit {0}
unfolding is_space left_strip right_strip remove_separators digits_match mobile_match international
    normalized validate
phone_code = tt

-- 912345678
abbrev number : List ℕ
number = 57 ∷ 49 ∷ 50 ∷ 51 ∷ 52 ∷ 53 ∷ 54 ∷ 55 ∷ 56 ∷ []

abbrev number_line : List ℕ
number_line = 57 ∷ 49 ∷ 50 ∷ 51 ∷ 52 ∷ 53 ∷ 54 ∷ 55 ∷ 56 ∷ 10 ∷ []

-- A newline before a dash is not stripped, and `$` lets it pass.
newline_kept :
    validate (48 ∷ 57 ∷ 49 ∷ 50 ∷ 51 ∷ 52 ∷ 53 ∷ 54 ∷ 55 ∷ 56 ∷ 10 ∷ 45 ∷ [])
    ≡ some (with_country number_line)
unfolding phone_code
newline_kept = refl

validate_again_example : validate (with_country number) ≡ some (with_country number)
unfolding phone_code
validate_again_example = validate_again (48 ∷ number) (with_country number) refl refl

validate_lem_example :
    (rest : List ℕ) × (with_country number_line ≡ with_country rest)
    × (mobile_match rest ≡ true)
    × (9 ≤ length rest)
    × (length rest ≤ 10)
unfolding phone_code
validate_lem_example =
    validate_lem (48 ∷ 57 ∷ 49 ∷ 50 ∷ 51 ∷ 52 ∷ 53 ∷ 54 ∷ 55 ∷ 56 ∷ 10 ∷ 45 ∷ [])
      (with_country number_line) refl
