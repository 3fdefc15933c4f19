-- ===== src/Retrieval.antt =====
-- The chunks of a document (`chunk_text` of backend/app/rag/text_processor.py). A text is its code
-- points; Python joins the sentences of a chunk with a space.
pub mod Chunks
mod Tests
use qiki.Base.{
  ℕ, ◌+◌, Bool, true, false, ◌&&◌, not, List, [], ◌∷◌, ◌++◌, length, ltb, leb, sum_of, map,
  if◌then◌else◌,
}

abbrev pub Text : Type 0
Text = List ℕ

-- The sentences of a chunk with the space after each.
abbrev pub total : List Text → ℕ
total sentences = sum_of (λ s. length s + 1) sentences

abbrev pub is_empty {ℓ} : {A : Type ℓ} → List A → Bool
is_empty [] = true
is_empty (x ∷ xs) = false

abbrev pub backwards : List Text → List Text → List Text
backwards [] ys = ys
backwards (x ∷ xs) ys = backwards xs (x ∷ ys)

-- From the last sentence on, until the overlap is reached.
unfoldable pub overlap_from : ℕ → List Text → List Text → ℕ → List Text
overlap_from overlap [] found n = found
overlap_from overlap (s ∷ before) found n =
    let rest = overlap_from overlap before (s ∷ found) (n + (length s + 1)) in
    if leb overlap (n + (length s + 1)) then s ∷ found else rest

unfoldable pub overlap_sentences : ℕ → List Text → List Text
overlap_sentences overlap current =
    if ltb 0 overlap then overlap_from overlap (backwards current []) [] 0 else []

abbrev pub flush : List Text → List (List Text)
flush [] = []
flush (s ∷ current) = (s ∷ current) ∷ []

-- What one round of the loop appends, and the current sentences with their length.
unfoldable pub round : ℕ → ℕ → Text → List Text → ℕ → List (List Text) × List Text × ℕ
round chunk_size overlap s current current_length =
    if ltb chunk_size (length s)
    then (flush current ++ ((s ∷ []) ∷ []), [], 0)
    else if not (is_empty current) && ltb chunk_size (current_length + length s + 1)
    then (
      current ∷ [],
      overlap_sentences overlap current ++ (s ∷ []),
      total (overlap_sentences overlap current ++ (s ∷ [])),
    )
    else ([], current ++ (s ∷ []), current_length + (length s + 1))

unfoldable pub chunk_sentences : ℕ → ℕ → List Text → List Text → ℕ → List (List Text)
chunk_sentences chunk_size overlap [] current current_length = flush current
chunk_sentences chunk_size overlap (s ∷ sentences) current current_length =
    let (out, current', length') = round chunk_size overlap s current current_length in
    out ++ chunk_sentences chunk_size overlap sentences current' length'

-- `" ".join(sentences)`
unfoldable pub joined : List Text → Text
joined [] = []
joined (s ∷ []) = s
joined (s ∷ t ∷ sentences) = s ++ (32 ∷ joined (t ∷ sentences))

-- Normalizing and the split into sentences are library calls.
module _ (normalize : Text → Text) (segment_sentences : Text → List Text) where
  unfoldable pub chunk_text : ℕ → ℕ → Text → List Text
  chunk_text chunk_size overlap text =
      let normalized = normalize text in
      if is_empty normalized
      then []
      else if leb (length normalized) chunk_size
      then normalized ∷ []
      else map joined (chunk_sentences chunk_size overlap (segment_sentences normalized) [] 0)
