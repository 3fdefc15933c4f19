-- ===== src/Support/Safety.antt =====
-- The screen for gas emergencies (backend/app/rag/safety.py).
pub mod Patterns
pub mod Recall
use Prim.Native.Char.{code}
use Prim.Native.String.{String}
use text.Mathlib.Text.{find?}
use qiki.Base.{
  ℕ, Bool, true, false, ◌||◌, Option, none, some, List, [], ◌∷◌, ◌++◌, any, is_some, if◌then◌else◌,
  ◌==◌,
}

unfoldable pub emergency_keywords_vi : List String
emergency_keywords_vi =
    "rò gas" ∷ "ro gas" ∷ "rò rỉ gas" ∷ "ro ri gas" ∷ "rò khí gas" ∷ "xì gas" ∷ "xi gas"
    ∷ "thoát gas" ∷ "thoat gas" ∷ "khí gas thoát" ∷ "khi gas thoat" ∷ "gas thoát ra"
    ∷ "gas thoat ra" ∷ "gas đang thoát" ∷ "gas dang thoat" ∷ "gas tràn" ∷ "gas tran" ∷ "mùi gas"
    ∷ "mui gas" ∷ "ngửi thấy gas" ∷ "ngui thay gas" ∷ "ngửi mùi gas" ∷ "ngui mui gas"
    ∷ "gas nồng nặc" ∷ "gas nong nac" ∷ "bốc mùi gas" ∷ "boc mui gas" ∷ "cháy" ∷ "chay" ∷ "cháy nổ"
    ∷ "chay no" ∷ "phát nổ" ∷ "phat no" ∷ "nổ bình gas" ∷ "no binh gas" ∷ "nổ gas" ∷ "no gas"
    ∷ "gas nổ" ∷ "gas no" ∷ "bình gas nổ" ∷ "binh gas no" ∷ "bốc lửa" ∷ "boc lua" ∷ "bắt lửa"
    ∷ "bat lua" ∷ "đang cháy" ∷ "dang chay" ∷ "lửa cháy" ∷ "lua chay" ∷ "ngạt" ∷ "ngat" ∷ "khó thở"
    ∷ "kho tho" ∷ "ngạt thở" ∷ "ngat tho" ∷ "ngạt khí" ∷ "ngat khi" ∷ "khẩn cấp" ∷ "khan cap"
    ∷ "nguy hiểm" ∷ "nguy hiem" ∷ "cấp cứu" ∷ "cap cuu" ∷ "tai nạn" ∷ "tai nan" ∷ []

unfoldable pub emergency_keywords_en : List String
emergency_keywords_en =
    "gas leak" ∷ "gas leaking" ∷ "leaking gas" ∷ "smell gas" ∷ "smell of gas" ∷ "gas smell"
    ∷ "smelling gas" ∷ "explosion" ∷ "explode" ∷ "exploded" ∷ "on fire" ∷ "catching fire" ∷ "fire"
    ∷ "burning" ∷ "suffocat" ∷ "can't breathe" ∷ "cannot breathe" ∷ "cant breathe" ∷ "choking"
    ∷ "emergency" ∷ "dangerous" ∷ []

-- Each pattern is a list of pieces with `.*` between them; a piece is one of its spellings.
unfoldable pub suspicious_patterns : List (List (List String))
suspicious_patterns =
    (("co" ∷ "có" ∷ []) ∷ ("gas" ∷ []) ∷ ("thoat ra" ∷ "thoát ra" ∷ []) ∷ [])
    ∷ (("gas" ∷ []) ∷ ("thoat ra" ∷ "thoát ra" ∷ []) ∷ [])
    ∷ (("gas" ∷ []) ∷ ("ri" ∷ "rỉ" ∷ []) ∷ ("ra ngoai" ∷ "ra ngoài" ∷ []) ∷ [])
    ∷ (("binh gas" ∷ "bình gas" ∷ []) ∷ ("hong" ∷ "hỏng" ∷ []) ∷ ("nang" ∷ "nặng" ∷ []) ∷ [])
    ∷ (("binh gas" ∷ "bình gas" ∷ []) ∷ ("phi" ∷ "phì" ∷ []) ∷ ("khi" ∷ "khí" ∷ []) ∷ [])
    ∷ (("van gas" ∷ [])
        ∷ ("khoa" ∷ "khóa" ∷ [])
        ∷ ("khong" ∷ "không" ∷ [])
        ∷ ("duoc" ∷ "duợc" ∷ "dưoc" ∷ "dược" ∷ "đuoc" ∷ "đuợc" ∷ "đưoc" ∷ "được" ∷ [])
        ∷ [])
    ∷ (("day" ∷ "dây" ∷ []) ∷ ("gas" ∷ []) ∷ ("nut" ∷ "nứt" ∷ []) ∷ [])
    ∷ []

-- Unicode's part: `_normalize` and `_ascii_fold`.
pub record Folding : Type 0 where
  pub normalize : String → String
  pub ascii_fold : String → String

abbrev pub codes : String → List ℕ
codes String.[] = []
codes (String.◌∷◌ c s) = code c ∷ codes s

-- What follows the prefix.
abbrev pub after_prefix : List ℕ → List ℕ → Option (List ℕ)
after_prefix [] t = some t
after_prefix (c ∷ w) [] = none
after_prefix (c ∷ w) (d ∷ t) = if c == d then after_prefix w t else none

abbrev pub first_prefix : List (List ℕ) → List ℕ → Option (List ℕ)
first_prefix [] t = none
first_prefix (w ∷ words) t = elim (after_prefix w t) [
  | some rest ↦ some rest
  | none ↦ first_prefix words t
]

-- What follows the first place where one of the words stands.
abbrev pub after_first : List (List ℕ) → List ℕ → Option (List ℕ)
after_first words [] = first_prefix words []
after_first words (c ∷ t) = elim (first_prefix words (c ∷ t)) [
  | some rest ↦ some rest
  | none ↦ after_first words t
]

-- `pattern.search(text)`
unfoldable pub search : List (List (List ℕ)) → List ℕ → Bool
search [] t = true
search (words ∷ pieces) t = elim (after_first words t) [
  | none ↦ false
  | some rest ↦ search pieces rest
]

abbrev codes_each : List String → List (List ℕ)
codes_each [] = []
codes_each (t ∷ texts) = codes t ∷ codes_each texts

abbrev pub pieces_of : List (List String) → List (List (List ℕ))
pieces_of [] = []
pieces_of (words ∷ pieces) = codes_each words ∷ pieces_of pieces

module _ (f : Folding) where
  abbrev pub holds_keyword : String → String → String → Bool
  holds_keyword query_lower query_ascii keyword =
      let keyword_lower = f.normalize keyword in
      is_some (find? query_lower keyword_lower)
      || is_some (find? query_ascii (f.ascii_fold keyword_lower))

  unfoldable pub check_keywords : String → Bool
  check_keywords query =
      let query_lower = f.normalize query in
      any (holds_keyword query_lower (f.ascii_fold query_lower))
        (emergency_keywords_vi ++ emergency_keywords_en)

  unfoldable pub check_patterns : String → Bool
  check_patterns query =
      let normalized = f.normalize query in
      any
        (λ pattern.
          search (pieces_of pattern) (codes normalized)
          || search (pieces_of pattern) (codes (f.ascii_fold normalized)))
        suspicious_patterns

  -- `is_emergency` of the result.
  unfoldable pub check_query : String → Bool
  check_query query = check_keywords query || check_patterns query
