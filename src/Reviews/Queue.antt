-- ===== src/Reviews/Queue.antt =====
-- What the review of messages keeps (backend/app/services/review_service.py).
use qiki.Base.{
  Among, ℕ, Bool, true, false, ◌&&◌, ◌||◌, not, Option, none, some, [], ◌∷◌, String, lookup, insert,
  lookup-insert, lookup-insert_self, is_some, ◌==◌, Result, ok, err, Action, ◌>>=◌, pure, ◌≡◌, refl,
  inl, inr, subst, sym, arith, Option-cases, Bool-cases, if◌then◌else◌,
}
use qiki.Models.User.{User, is_staff}
use qiki.Reviews.{
  Score, ReviewAction, Message, KnowledgeDocument, Reviews, should_be_flagged, put, create, change,
  with_feedback, flagged, submit_feedback, ensure_staff, require, reviewed, approve_message,
  reject_message, document_of, add_to_knowledge_base,
}

-- A poor answer is in the queue or has been reviewed, and a review has its reviewer and its instant.
abbrev pub is_sound : Message → Bool
is_sound m =
    (not (should_be_flagged m) || m.flagged_for_review || is_some m.review_action)
    && (not (is_some m.review_action) || (is_some m.reviewed_by && is_some m.reviewed_at))

abbrev is_reviewed : Option Message → Bool
is_reviewed none = false
is_reviewed (some m) = is_some m.review_action

pub record IsSound (d : Reviews) : Type 0 where
  pub messages : (id : ℕ) (m : Message) → lookup id d.messages ≡ some m → is_sound m ≡ true
  pub documents :
      (doc : KnowledgeDocument)
      → Among doc d.documents
      → is_reviewed (lookup doc.source_message_id d.messages) ≡ true

-- A row that stays sound and reviewed may take the place of the one before it.
put-IsSound :
    (id : ℕ) (m : Message) (d : Reviews)
    → IsSound d
    → is_sound m ≡ true
    → (is_reviewed (lookup id d.messages) ≡ true → is_some m.review_action ≡ true)
    → IsSound (put id m d)
put-IsSound id m d h fine kept = record {
  messages = λ j n e. ground (arith, lookup-insert id j m d.messages, h.messages j n, fine);
  documents = λ doc among.
      let before = h.documents doc among in
      elim (Bool-cases (doc.source_message_id == id)) [
        | inl same ↦ ground (arith, lookup-insert id doc.source_message_id m d.messages, kept, same)
        | inr other ↦
            ground (arith, lookup-insert id doc.source_message_id m d.messages, before, other)
      ];
}

change-IsSound :
    (id : ℕ) (f : Message → Message) (d : Reviews)
    → IsSound d
    → ((m : Message) → is_sound m ≡ true → is_sound (f m) ≡ true)
    → ((m : Message) → is_some m.review_action ≡ true → is_some (f m).review_action ≡ true)
    → IsSound (change id f d).1
unfolding change
change-IsSound id f d h fine kept = elim (Option-cases (lookup id d.messages)) [
  | inl missing ↦ subst IsSound {x = d} (ground (arith, missing)) h
  | inr (m, found) ↦ subst IsSound {x = put id (f m) d} (ground (arith, found)) (
      put-IsSound id (f m) d h (fine m (h.messages id m found))
        (λ e. kept m (ground (arith, found))))
]

feedback_sound :
    (score : Score) (m : Message) → is_sound m ≡ true → is_sound (with_feedback score m) ≡ true
unfolding should_be_flagged
feedback_sound Score.negative m h = ground arith
feedback_sound Score.neutral m h = ground arith
feedback_sound Score.positive m h = ground arith

feedback_kept :
    (score : Score) (m : Message)
    → is_some m.review_action ≡ true
    → is_some (with_feedback score m).review_action ≡ true
feedback_kept Score.negative m h = h
feedback_kept Score.neutral m h = h
feedback_kept Score.positive m h = h

feedback-IsSound :
    (id : ℕ) (score : Score) (d : Reviews)
    → IsSound d
    → IsSound (change id (with_feedback score) d).1
feedback-IsSound id score d h =
    change-IsSound id (with_feedback score) d h (feedback_sound score) (feedback_kept score)

bind-IsSound :
    {A B : Type 0} (m : Action Reviews A) (k : A → Action Reviews B) (d : Reviews)
    → IsSound (m d).1
    → ((a : A) (d' : Reviews) → IsSound d' → IsSound (k a d').1)
    → IsSound ((m >>= k) d).1
bind-IsSound {A} {B} m k d h then_kept = go (m d) refl h
  where
    go : (r : Result A × Reviews) → m d ≡ r → IsSound r.1 → IsSound ((m >>= k) d).1
    go (err e, d') q h' = subst IsSound {x = d'} (ground (arith, q)) h'
    go (ok a, d') q h' = subst IsSound {x = (k a d').1} (ground (arith, q)) (then_kept a d' h')

created_sound :
    (m : Message)
    → m.review_action ≡ none
    → is_sound (if should_be_flagged m then record m { flagged_for_review = true } else m) ≡ true
unfolding should_be_flagged
created_sound m fresh = ground arith

submit_feedback-IsSound :
    (id : ℕ) (score : Score) (d : Reviews) → IsSound d → IsSound (submit_feedback id score d).1
unfolding submit_feedback
submit_feedback-IsSound id Score.neutral d h = feedback-IsSound id Score.neutral d h
submit_feedback-IsSound id Score.positive d h = feedback-IsSound id Score.positive d h
submit_feedback-IsSound id Score.negative d h =
    bind-IsSound (change id (with_feedback Score.negative)) (λ m. change id flagged) d
      (feedback-IsSound id Score.negative d h)
      (λ m d' h'.
        change-IsSound id flagged d' h' (λ m e. ground (arith, should_be_flagged)) (λ m e. e))

require-IsSound : (id : ℕ) (d : Reviews) → IsSound d → IsSound (require id d).1
require-IsSound id d h = elim (Option-cases (lookup id d.messages)) [
  | inl missing ↦ subst IsSound {x = d} (ground (arith, missing)) h
  | inr (m, found) ↦ subst IsSound {x = d} (ground (arith, found)) h
]

-- A review by staff of a message that is there.
review-IsSound :
    (id : ℕ) (user : User) (f : Message → Message) (d : Reviews)
    → IsSound d
    → ((m : Message) → is_sound (f m) ≡ true)
    → ((m : Message) → is_some (f m).review_action ≡ true)
    → IsSound ((ensure_staff user >>= λ u. require id >>= λ m. change id f >>= λ m. pure true) d).1
review-IsSound id user f d h fine kept =
    bind-IsSound (ensure_staff user) (λ u. require id >>= λ m. change id f >>= λ m. pure true) d h
      (λ u d' h'.
        bind-IsSound (require id) (λ m. change id f >>= λ m. pure true) d'
          (require-IsSound id d' h')
          (λ m e k.
            bind-IsSound (change id f) (λ m. pure true) e
              (change-IsSound id f e k (λ m s. fine m) (λ m s. kept m)) (λ m e k. k)))

approve_message-IsSound :
    (now id : ℕ) (corrected : Option String) (user : User) (d : Reviews)
    → IsSound d
    → IsSound (approve_message now id corrected user d).1
unfolding approve_message
approve_message-IsSound now id corrected user d h =
    review-IsSound id user
      (λ m. record (reviewed ReviewAction.approved now user m) { corrected_content = corrected }) d
      h (λ m. ground arith) (λ m. refl)

reject_message-IsSound :
    (now id : ℕ) (user : User) (d : Reviews) → IsSound d → IsSound (reject_message now id user d).1
unfolding reject_message
reject_message-IsSound now id user d h =
    review-IsSound id user (reviewed ReviewAction.rejected now user) d h (λ m. ground arith)
      (λ m. refl)

create-IsSound :
    (id : ℕ) (m : Message) (d : Reviews)
    → m.review_action ≡ none
    → lookup id d.messages ≡ none
    → IsSound d
    → IsSound (create id m d).1
unfolding create
create-IsSound id m d fresh unused h =
    put-IsSound id (if should_be_flagged m then record m { flagged_for_review = true } else m) d h
      (created_sound m fresh) (λ e. ground (arith, unused))

abbrev added : ℕ → ℕ → ℕ → String → String → User → Message → Reviews → Reviews
added now kb_id id category title user m d =
    put id (reviewed ReviewAction.added_to_kb now user m)
      (record d { documents = document_of kb_id category title id m ∷ d.documents })

added-IsSound :
    (now kb_id id : ℕ) (category title : String) (user : User) (m : Message) (d : Reviews)
    → IsSound d
    → IsSound (added now kb_id id category title user m d)
added-IsSound now kb_id id category title user m d h =
    let row = reviewed ReviewAction.added_to_kb now user m in
    record {
      messages = λ j n e. ground (arith, lookup-insert id j row d.messages, h.messages j n);
      documents = λ doc among. elim (Bool-cases (doc.source_message_id == id)) [
        | inl same ↦ ground (arith, lookup-insert id doc.source_message_id row d.messages, same)
        | inr other ↦ elim among [
          | inl new ↦ absurd (ground (arith, new))
          | inr old ↦
              let before = h.documents doc old in
              ground (arith, lookup-insert id doc.source_message_id row d.messages, before, other)
        ]
      ];
    }

-- What an addition does for staff with a message that is there, whatever its review said.
add_to_knowledge_base_found :
    (now kb_id id : ℕ) (category title : String) (user : User) (m : Message) (d : Reviews)
    → is_staff user ≡ true
    → lookup id d.messages ≡ some m
    → add_to_knowledge_base now kb_id id category title user d
      ≡ (ok kb_id, added now kb_id id category title user m d)
unfolding add_to_knowledge_base change
add_to_knowledge_base_found now kb_id id category title user m d staff found = ground arith

add_to_knowledge_base-IsSound :
    (now kb_id id : ℕ) (category title : String) (user : User) (d : Reviews)
    → IsSound d
    → IsSound (add_to_knowledge_base now kb_id id category title user d).1
unfolding add_to_knowledge_base change
add_to_knowledge_base-IsSound now kb_id id category title user d h =
    elim (Bool-cases (is_staff user)) [
      | inr other ↦ subst IsSound {x = d} (ground (arith, other)) h
      | inl staff ↦ elim (Option-cases (lookup id d.messages)) [
        | inl missing ↦ subst IsSound {x = d} (ground (arith, staff, missing)) h
        | inr (m, found) ↦
            subst (λ (r : Result ℕ × Reviews). IsSound r.1)
              (sym (add_to_knowledge_base_found now kb_id id category title user m d staff found))
              (added-IsSound now kb_id id category title user m d h)
      ]
    ]

-- The calls of the chat and of the reviewers.
pub data Call : Type 0 where
  creating : ℕ → Message → Call
  scoring : ℕ → Score → Call
  approving : ℕ → ℕ → Option String → User → Call
  rejecting : ℕ → ℕ → User → Call
  adding : ℕ → ℕ → ℕ → String → String → User → Call

abbrev pub run : Call → Reviews → Reviews
run (Call.creating id m) d = (create id m d).1
run (Call.scoring id score) d = (submit_feedback id score d).1
run (Call.approving now id corrected user) d = (approve_message now id corrected user d).1
run (Call.rejecting now id user) d = (reject_message now id user d).1
run (Call.adding now kb_id id category title user) d =
    (add_to_knowledge_base now kb_id id category title user d).1

-- A message is created unreviewed, under an identifier that is free.
abbrev pub IsFresh : Call → Reviews → Type 0
IsFresh (Call.creating id m) d = (m.review_action ≡ none) × (lookup id d.messages ≡ none)
IsFresh _ d = Unit

pub data Reachable : Reviews → Type 0 where
  empty : Reachable record { messages = []; documents = [] }
  called : {d : Reviews} (call : Call) → Reachable d → IsFresh call d → Reachable (run call d)

run-IsSound : (call : Call) (d : Reviews) → IsFresh call d → IsSound d → IsSound (run call d)
run-IsSound (Call.creating id m) d (fresh, unused) h = create-IsSound id m d fresh unused h
run-IsSound (Call.scoring id score) d f h = submit_feedback-IsSound id score d h
run-IsSound (Call.approving now id corrected user) d f h =
    approve_message-IsSound now id corrected user d h
run-IsSound (Call.rejecting now id user) d f h = reject_message-IsSound now id user d h
run-IsSound (Call.adding now kb_id id category title user) d f h =
    add_to_knowledge_base-IsSound now kb_id id category title user d h

-- Whatever calls follow each other from the empty tables, where a message is created unreviewed and
-- under a free identifier: a message with a low confidence or a negative score is in the queue or has
-- been reviewed, a review has its reviewer and its instant, and the source of every document is a
-- message of the table that has been reviewed.
pub reachable_IsSound : {d : Reviews} → Reachable d → IsSound d
unfolding lookup
reachable_IsSound empty = record {
  messages = λ id m e. absurd (ground arith);
  documents = λ doc among. absurd among;
}
reachable_IsSound (called {d} call before fresh) =
    run-IsSound call d fresh (reachable_IsSound before)

abbrev pub IsAdded :
    ℕ → ℕ → ℕ → String → String → User → Message → Reviews → Result ℕ × Reviews → Type 0
IsAdded now kb_id id category title user m d (result, d') =
    (result ≡ ok kb_id)
    × (d'.documents ≡ document_of kb_id category title id m ∷ d.documents)
    × (lookup id d'.messages ≡ some (reviewed ReviewAction.added_to_kb now user m))

-- A message of the table that staff have rejected can be added to the knowledge base by staff all the
-- same: the addition returns, the document has the message's text, the corrected one where there is
-- one, and the rejection is overwritten.
pub add_to_knowledge_base-reject_message :
    (now later kb_id id : ℕ) (category title : String) (user : User) (m : Message) (d : Reviews)
    → is_staff user ≡ true
    → lookup id d.messages ≡ some m
    → IsAdded later kb_id id category title user m d
        (add_to_knowledge_base later kb_id id category title user (reject_message now id user d).1)
unfolding reject_message change
add_to_knowledge_base-reject_message now later kb_id id category title user m d staff found =
    let row = reviewed ReviewAction.rejected now user m in
    let first : (reject_message now id user d).1 ≡ put id row d = ground arith in
    let second =
      add_to_knowledge_base_found later kb_id id category title user row (put id row d) staff
        (lookup-insert_self id row d.messages) in
    subst
      (λ (e : Reviews).
        IsAdded later kb_id id category title user m d
          (add_to_knowledge_base later kb_id id category title user e))
      (sym first)
      (subst (IsAdded later kb_id id category title user m d) (sym second) (
        refl,
        refl,
        lookup-insert_self id (reviewed ReviewAction.added_to_kb later user row)
            (insert id row d.messages),
      ))
