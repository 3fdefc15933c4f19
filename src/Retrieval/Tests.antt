-- ===== src/Retrieval/Tests.antt =====
-- A document of three sentences, and the theorem at this input.
use qiki.Base.{Among, ◌≡◌, refl, List, [], ◌∷◌, All}
use qiki.Retrieval.{
  Text, overlap_from, overlap_sentences, round, chunk_sentences, joined, chunk_text,
}
use qiki.Retrieval.Chunks.{IsRun, Covered, chunk_sentences-IsRun}

unfoldable pub chunk_code : Unit {0}
unfolding overlap_from overlap_sentences round chunk_sentences joined chunk_text
chunk_code = tt

abbrev document : List Text
document = (1 ∷ 1 ∷ []) ∷ (2 ∷ 2 ∷ []) ∷ (3 ∷ 3 ∷ 3 ∷ []) ∷ []

-- The second sentence stands in both chunks.
two_chunks :
    chunk_sentences 6 2 document [] 0
    ≡ ((1 ∷ 1 ∷ []) ∷ (2 ∷ 2 ∷ []) ∷ []) ∷ ((2 ∷ 2 ∷ []) ∷ (3 ∷ 3 ∷ 3 ∷ []) ∷ []) ∷ []
unfolding chunk_code
two_chunks = refl

chunk_sentences-IsRun_example :
    All (IsRun document) (chunk_sentences 6 2 document [] 0)
    × ((x : Text) → Among x document → Covered x (chunk_sentences 6 2 document [] 0))
chunk_sentences-IsRun_example = chunk_sentences-IsRun 6 2 document
