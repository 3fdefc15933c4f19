-- ===== src/Phones.antt =====
-- backend/app/core/input_validation.py: VietnamesePhoneValidator, on texts as lists of code points.
pub mod Normal
mod Tests
use qiki.Base.{
  ℕ, zero, suc, Bool, true, false, ◌&&◌, ◌||◌, not, Option, none, some, List, [], ◌∷◌, contains,
  leb, ◌==◌, if◌then◌else◌,
}

-- The characters that `str.strip` takes off.
abbrev pub white_space : List ℕ
white_space =
    9 ∷ 10 ∷ 11 ∷ 12 ∷ 13 ∷ 28 ∷ 29 ∷ 30 ∷ 31 ∷ 32 ∷ 133 ∷ 160 ∷ 5760 ∷ 8192 ∷ 8193 ∷ 8194 ∷ 8195
    ∷ 8196 ∷ 8197 ∷ 8198 ∷ 8199 ∷ 8200 ∷ 8201 ∷ 8202 ∷ 8232 ∷ 8233 ∷ 8239 ∷ 8287 ∷ 12288 ∷ []

unfoldable pub is_space : ℕ → Bool
is_space c = contains c white_space

unfoldable pub left_strip : List ℕ → List ℕ
left_strip [] = []
left_strip (c ∷ s) = let rest = left_strip s in if is_space c then rest else c ∷ s

abbrev pub is_empty : List ℕ → Bool
is_empty [] = true
is_empty (c ∷ s) = false

unfoldable pub right_strip : List ℕ → List ℕ
right_strip [] = []
right_strip (c ∷ s) =
    let rest = right_strip s in if is_space c && is_empty rest then [] else c ∷ rest

-- `.replace(" ", "").replace("-", "")`
unfoldable pub remove_separators : List ℕ → List ℕ
remove_separators [] = []
remove_separators (c ∷ s) =
    let rest = remove_separators s in if c == 32 || c == 45 then rest else c ∷ rest

abbrev pub is_digit : ℕ → Bool
is_digit c = leb 48 c && leb c 57

-- `[35789]`
abbrev pub is_mobile_digit : ℕ → Bool
is_mobile_digit c = contains c (51 ∷ 53 ∷ 55 ∷ 56 ∷ 57 ∷ [])

-- `$`: the end of the text, or the place before a newline that ends it.
abbrev pub at_end : List ℕ → Bool
at_end [] = true
at_end (c ∷ []) = c == 10
at_end _ = false

-- `[0-9]{n}$`
unfoldable pub digits_match : ℕ → List ℕ → Bool
digits_match zero s = at_end s
digits_match (suc n) [] = false
digits_match (suc n) (c ∷ s) = is_digit c && digits_match n s

-- `[35789][0-9]{8}$`
unfoldable pub mobile_match : List ℕ → Bool
mobile_match [] = false
mobile_match (c ∷ s) = is_mobile_digit c && digits_match 8 s

abbrev pub with_country : List ℕ → List ℕ
with_country s = 43 ∷ 56 ∷ 52 ∷ s

unfoldable pub international : List ℕ → Option (List ℕ)
international (a ∷ b ∷ c ∷ s) =
    if a == 43 && b == 56 && c == 52 && mobile_match s then some (a ∷ b ∷ c ∷ s) else none
international _ = none

-- A text that `PATTERN` matches, behind `+84` where it began with 0.
unfoldable pub normalized : List ℕ → Option (List ℕ)
normalized [] = none
normalized (a ∷ s) =
    if a == 48 && mobile_match s then some (with_country s) else international (a ∷ s)

-- None is the ValueError.
unfoldable pub validate : List ℕ → Option (List ℕ)
validate value = normalized (remove_separators (right_strip (left_strip value)))
