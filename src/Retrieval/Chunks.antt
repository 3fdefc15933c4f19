-- ===== src/Retrieval/Chunks.antt =====
-- What the chunks of a document hold (backend/app/rag/text_processor.py).
use qiki.Base.{
  ◌↔◌, Among, ℕ, ◌+◌, false, ◌&&◌, not, List, [], ◌∷◌, ◌++◌, append-nil, append_assoc, length, ltb,
  leb, ◌≡◌, refl, sym, ◌∙◌, subst, ◌⊎◌, inl, inr, All, All-append, arith, Bool-cases,
}
use qiki.Retrieval.{
  Text, total, is_empty, backwards, overlap_from, overlap_sentences, flush, round, chunk_sentences,
}

-- The chunk is a run of the sentences, in their order and with none left out between.
pub record IsRun (sentences chunk : List Text) : Type 0 where
  pub before : List Text
  pub after : List Text
  pub whole : sentences ≡ before ++ (chunk ++ after)

backwards-append : (xs ys zs : List Text) → backwards xs ys ++ zs ≡ backwards xs (ys ++ zs)
backwards-append [] ys zs = refl
backwards-append (x ∷ xs) ys zs = backwards-append xs (x ∷ ys) zs

backwards-backwards :
    (xs ys zs : List Text) → backwards (backwards xs ys) zs ≡ backwards ys (xs ++ zs)
backwards-backwards [] ys zs = refl
backwards-backwards (x ∷ xs) ys zs = backwards-backwards xs (x ∷ ys) zs

-- The found sentences are the end of those that were walked.
overlap_suffix :
    (overlap : ℕ) (behind found : List Text) (n : ℕ)
    → (q : List Text) × (backwards behind found ≡ q ++ overlap_from overlap behind found n)
unfolding overlap_from
overlap_suffix overlap [] found n = ([], refl)
overlap_suffix overlap (s ∷ behind) found n = elim (Bool-cases (leb overlap (n + (length s + 1)))) [
  | inl enough ↦
      (backwards behind [], ground (arith, enough, backwards-append behind [] (s ∷ found)))
  | inr more ↦
      let (q, e) = overlap_suffix overlap behind (s ∷ found) (n + (length s + 1)) in
      (q, ground (arith, e, more))
]

overlap_end :
    (overlap : ℕ) (current : List Text)
    → (q : List Text) × (current ≡ q ++ overlap_sentences overlap current)
unfolding overlap_sentences
overlap_end overlap current = elim (Bool-cases (ltb 0 overlap)) [
  | inl some ↦
      let (q, e) = overlap_suffix overlap (backwards current []) [] 0 in
      (q, ground (arith, some, e, backwards-backwards current [] [], append-nil current))
  | inr nothing ↦ (current, ground (arith, nothing, append-nil current))
]

among_append : (x : Text) (xs ys : List Text) → Among x (xs ++ ys) ↔ (Among x xs ⊎ Among x ys)
among_append x [] ys = (λ h. inr h, λ h. elim h [ inl a ↦ absurd a | inr b ↦ b ])
among_append x (z ∷ xs) ys =
    let (down, up) = among_append x xs ys in
    (
      λ h. elim h [
        | inl same ↦ inl (inl same)
        | inr more ↦ elim (down more) [ inl a ↦ inl (inr a) | inr b ↦ inr b ]
      ],
      λ h. elim h [
        | inl (inl same) ↦ inl same
        | inl (inr a) ↦ inr (up (inl a))
        | inr b ↦ inr (up (inr b))
      ],
    )

-- Some chunk holds the sentence.
pub data Covered (x : Text) : List (List Text) → Type 0 where
  here :
      {chunk : List Text} {chunks : List (List Text)} → Among x chunk → Covered x (chunk ∷ chunks)
  later :
      {chunk : List Text} {chunks : List (List Text)}
      → Covered x chunks
      → Covered x (chunk ∷ chunks)

in_first :
    {x : Text} {first : List (List Text)} (others : List (List Text))
    → Covered x first
    → Covered x (first ++ others)
in_first others (here h) = here h
in_first others (later h) = later (in_first others h)

in_others :
    {x : Text} (first : List (List Text)) {others : List (List Text)}
    → Covered x others
    → Covered x (first ++ others)
in_others [] h = h
in_others (c ∷ first) h = later (in_others first h)

-- The chunks are runs of all sentences, and what is left to do is in one of them.
record IsSplit (all_sentences left : List Text) (chunks : List (List Text)) : Type 0 where
  runs : All (IsRun all_sentences) chunks
  cover : (x : Text) → Among x left → Covered x chunks

flushed : (current : List Text) → is_empty current ≡ false → flush current ≡ current ∷ []
flushed [] h = absurd (ground arith)
flushed (s ∷ current) h = refl

module _ (whole : List Text) where
  flush-IsSplit :
      (p current rest : List Text)
      → whole ≡ p ++ (current ++ rest)
      → IsSplit whole current (flush current)
  flush-IsSplit p [] rest e = record { runs = tt; cover = λ x h. absurd h }
  flush-IsSplit p (s ∷ current) rest e = record {
    runs = (record { before = p; after = rest; whole = e }, tt);
    cover = λ x h. here h;
  }

  join-IsSplit :
      (left right : List Text) (first others : List (List Text))
      → IsSplit whole left first
      → IsSplit whole right others
      → IsSplit whole (left ++ right) (first ++ others)
  join-IsSplit left right first others h k = record {
    runs = All-append (IsRun whole) first others h.runs k.runs;
    cover = λ x among. elim ((among_append x left right).0 among) [
      | inl a ↦ in_first others (h.cover x a)
      | inr b ↦ in_others first (k.cover x b)
    ];
  }

  narrow :
      (left right : List Text) (chunks : List (List Text))
      → IsSplit whole (left ++ right) chunks
      → IsSplit whole right chunks
  narrow left right chunks h = record {
    runs = h.runs;
    cover = λ x among. h.cover x ((among_append x left right).1 (inr among));
  }

  module _ (chunk_size overlap : ℕ) where
    after_round :
        (s : Text) (sentences current left : List Text) (n : ℕ)
        (r : List (List Text) × List Text × ℕ)
        → round chunk_size overlap s current n ≡ r
        → IsSplit whole left (r.0 ++ chunk_sentences chunk_size overlap sentences r.1 r.2)
        → IsSplit whole left (chunk_sentences chunk_size overlap (s ∷ sentences) current n)
    unfolding chunk_sentences
    after_round s sentences current left n r e h =
        subst
          (λ (r : List (List Text) × List Text × ℕ).
            IsSplit whole left (r.0 ++ chunk_sentences chunk_size overlap sentences r.1 r.2))
          (sym e) h

    rounds-IsSplit :
        (sentences : List Text) (p current : List Text) (n : ℕ)
        → whole ≡ p ++ (current ++ sentences)
        → IsSplit whole
            (current ++ sentences)
            (chunk_sentences chunk_size overlap sentences current n)
    unfolding chunk_sentences round
    rounds-IsSplit [] p current n e =
        subst (λ left. IsSplit whole left (flush current)) (sym (append-nil current))
          (flush-IsSplit p current [] e)
    rounds-IsSplit (s ∷ sentences) p current n e =
        let one = s ∷ [] in
        let shift = append_assoc current one sentences in
        elim (Bool-cases (ltb chunk_size (length s))) [
          | inl long ↦
              after_round s sentences current (current ++ (s ∷ sentences)) n
                (flush current ++ (one ∷ []), [], 0) (ground (arith, long))
                (subst
                  (λ left. IsSplit whole left (
                    (flush current ++ (one ∷ []))
                    ++ chunk_sentences chunk_size overlap sentences [] 0))
                  shift
                  (join-IsSplit (current ++ one) sentences (flush current ++ (one ∷ []))
                    (chunk_sentences chunk_size overlap sentences [] 0)
                    (join-IsSplit current one (flush current) (one ∷ [])
                      (flush-IsSplit p current (s ∷ sentences) e)
                      (flush-IsSplit (p ++ current) one sentences
                        (e ∙ sym (append_assoc p current (s ∷ sentences)))))
                    (rounds-IsSplit sentences (p ++ (current ++ one)) [] 0
                      (ground (arith, e, shift, append_assoc p (current ++ one) sentences)))))
          | inr short ↦
              elim (Bool-cases (not (is_empty current) && ltb chunk_size (n + length s + 1))) [
                | inl full ↦
                    let o = overlap_sentences overlap current in
                    let (q, ce) = overlap_end overlap current in
                    let next =
                      chunk_sentences chunk_size overlap sentences (o ++ one) (total (o ++ one)) in
                    let rest = rounds-IsSplit sentences (p ++ q) (o ++ one) (total (o ++ one)) (
                      ground (
                        arith,
                        e,
                        ce,
                        append_assoc p q (o ++ (s ∷ sentences)),
                        append_assoc o one sentences,
                        append_assoc q o (s ∷ sentences),
                      )) in
                    after_round s sentences current (current ++ (s ∷ sentences)) n
                      (current ∷ [], o ++ one, total (o ++ one)) (ground (arith, short, full))
                      (join-IsSplit current (s ∷ sentences) (current ∷ []) next
                        (subst (IsSplit whole current) {x = flush current}
                          (flushed current (ground arith))
                          (flush-IsSplit p current (s ∷ sentences) e))
                        (narrow o (s ∷ sentences) next (
                          subst (λ left. IsSplit whole left next) (append_assoc o one sentences)
                            rest)))
                | inr room ↦
                    after_round s sentences current (current ++ (s ∷ sentences)) n
                      ([], current ++ one, n + (length s + 1)) (ground (arith, short, room))
                      (subst
                        (λ left. IsSplit whole left (
                          chunk_sentences chunk_size overlap sentences (current ++ one)
                            (n + (length s + 1))))
                        shift
                        (rounds-IsSplit sentences p (current ++ one) (n + (length s + 1))
                          (ground (arith, e, shift))))
              ]
        ]

-- The chunks of a document are runs of its sentences, in their order and with none left out
-- inside, and every sentence is in some chunk, whatever the size and the overlap. The sentences are
-- those before the chunk is joined to one text.
pub chunk_sentences-IsRun :
    (chunk_size overlap : ℕ) (sentences : List Text)
    → let chunks = chunk_sentences chunk_size overlap sentences [] 0 in
      All (IsRun sentences) chunks × ((x : Text) → Among x sentences → Covered x chunks)
chunk_sentences-IsRun chunk_size overlap sentences =
    let split = rounds-IsSplit sentences chunk_size overlap sentences [] [] 0 refl in
    (split.runs, split.cover)
