-- ===== src/Support/Safety/Recall.antt =====
-- What the screen for emergencies reports (`check_query` of backend/app/rag/safety.py).
use Prim.Native.String.{String}
use qiki.Base.{Among, Bool, true, ◌||◌, List, ◌++◌, all, ◌≡◌, ◌⊎◌}
use qiki.Support.Safety.{
  Folding, codes, pieces_of, search, holds_keyword, emergency_keywords_vi, emergency_keywords_en,
  suspicious_patterns,
}
use qiki.Support.Safety.Patterns.{InOrder, uniform}

abbrev is_uniform : List (List String) → Bool
is_uniform pattern = all uniform (pieces_of pattern)

module _ (f : Folding) (query : String) where
  abbrev folded : String
  folded = f.ascii_fold (f.normalize query)

  -- A keyword of the lists stands in the text, with its accents or folded to ASCII.
  abbrev pub HasKeyword : Type 0
  HasKeyword =
      (keyword : String) × Among keyword (emergency_keywords_vi ++ emergency_keywords_en)
      × (holds_keyword f (f.normalize query) folded keyword ≡ true)

  -- The pieces of a pattern of the list stand in the text one after the other, with their accents or
  -- folded to ASCII.
  abbrev pub IsSuspicious : Type 0
  IsSuspicious =
      (pattern : List (List String)) × Among pattern suspicious_patterns
      × (InOrder (pieces_of pattern) (codes (f.normalize query))
          ⊎ InOrder (pieces_of pattern) (codes folded))

  abbrev found : List (List String) → Bool
  found pattern =
      search (pieces_of pattern) (codes (f.normalize query))
      || search (pieces_of pattern) (codes folded)
