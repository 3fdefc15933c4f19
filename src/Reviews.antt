-- ===== src/Reviews.antt =====
-- The review of the assistant's messages (backend/app/services/review_service.py, with
-- backend/app/repositories/message_repository.py, backend/app/models/message.py and
-- `submit_feedback` of conversation_service.py). Confidences are in hundredths.
pub mod Queue
mod Tests
use qiki.Base.{
  ℕ, Bool, true, false, ◌&&◌, ◌||◌, not, Option, none, some, List, [], ◌∷◌, String, Dict, lookup,
  insert, ltb, leb, is_some, select, take, Result, ok, err, Error, Action, raise_if, ◌>>=◌, ◌>>◌,
  pure, raise, gets, modify, or_raise, if◌then◌else◌,
}
use qiki.Models.User.{User, is_staff}
use qiki.Chat.History.{MessageRole}
use qiki.Chat.Slots.{truthy, or_else, text_of}
use qiki.Chat.Turn.{drop}
use qiki.Catalogue.Sorting.{sort_by}

pub data Score : Type 0 where
  negative neutral positive : Score

pub data ReviewAction : Type 0 where
  approved rejected added_to_kb : ReviewAction

pub record Message : Type 0 where
  pub conversation_id : ℕ
  pub role : MessageRole
  pub content : String
  pub intent_confidence : Option ℕ
  pub feedback_score : Option Score
  pub flagged_for_review : Bool
  pub reviewed_by : Option ℕ
  pub reviewed_at : Option ℕ
  pub review_action : Option ReviewAction
  pub corrected_content : Option String
  pub created_at : ℕ

pub record KnowledgeDocument : Type 0 where
  pub id : ℕ
  pub title : String
  pub content : String
  pub category : String
  pub source_message_id : ℕ

pub record Reviews : Type 0 where
  pub messages : Dict Message
  pub documents : List KnowledgeDocument

abbrev is_negative : Option Score → Bool
is_negative (some Score.negative) = true
is_negative _ = false

abbrev is_low : Option ℕ → Bool
is_low none = false
is_low (some confidence) = ltb confidence 60

unfoldable pub should_be_flagged : Message → Bool
should_be_flagged m = is_negative m.feedback_score || is_low m.intent_confidence

abbrev pub put : ℕ → Message → Reviews → Reviews
put id m d = record d { messages = insert id m d.messages }

-- The identifier is new.
unfoldable pub create : ℕ → Message → Action Reviews Message
create id m d =
    let m' = if should_be_flagged m then record m { flagged_for_review = true } else m in
    (ok m', put id m' d)

-- `_require`, a change of the row, and its new state.
unfoldable pub change : ℕ → (Message → Message) → Action Reviews Message
change id f d = elim (lookup id d.messages) [
  | none ↦ (err Error.message_not_found, d)
  | some m ↦ (ok (f m), put id (f m) d)
]

abbrev pub with_feedback : Score → Message → Message
with_feedback Score.negative m = record m {
  feedback_score = some Score.negative;
  flagged_for_review = true;
}
with_feedback score m = record m { feedback_score = some score }

abbrev pub flagged : Message → Message
flagged m = record m { flagged_for_review = true }

-- A negative score flags the message once more.
unfoldable pub submit_feedback : ℕ → Score → Action Reviews Message
submit_feedback id Score.negative = do change id (with_feedback Score.negative); change id flagged
submit_feedback id score = change id (with_feedback score)

abbrev pub ensure_staff : User → Action Reviews (Unit {0})
ensure_staff user = raise_if (not (is_staff user)) Error.forbidden

abbrev pub require : ℕ → Action Reviews Message
require id d = elim (lookup id d.messages) [ none ↦ (err Error.not_found, d) | some m ↦ (ok m, d) ]

abbrev pub reviewed : ReviewAction → ℕ → User → Message → Message
reviewed action now user m = record m {
  review_action = some action;
  reviewed_by = some user.id;
  reviewed_at = some now;
  flagged_for_review = false;
}

unfoldable pub approve_message : ℕ → ℕ → Option String → User → Action Reviews Bool
approve_message now id corrected_content user = do
  ensure_staff user
  require id
  change id (λ m. record (reviewed ReviewAction.approved now user m) {
    corrected_content = corrected_content;
  })
  pure true

unfoldable pub reject_message : ℕ → ℕ → User → Action Reviews Bool
reject_message now id user = do
  ensure_staff user
  require id
  change id (reviewed ReviewAction.rejected now user)
  pure true

abbrev pub document_of : ℕ → String → String → ℕ → Message → KnowledgeDocument
document_of kb_id category title id m = record {
  id = kb_id;
  title = title;
  content = if truthy m.corrected_content then text_of m.corrected_content else m.content;
  category = category;
  source_message_id = id;
}

abbrev pub add_document : KnowledgeDocument → Action Reviews (Unit {0})
add_document doc = modify (λ d. record d { documents = doc ∷ d.documents })

unfoldable pub add_to_knowledge_base : ℕ → ℕ → ℕ → String → String → User → Action Reviews ℕ
add_to_knowledge_base now kb_id id category title user = do
  ensure_staff user
  m ← require id
  add_document (document_of kb_id category title id m)
  change id (reviewed ReviewAction.added_to_kb now user)
  pure kb_id

abbrev values_of : Dict Message → List Message
values_of [] = []
values_of ((id, m) ∷ messages) = m ∷ values_of messages

-- Awaiting review, oldest first.
unfoldable pub get_flagged_for_review : ℕ → ℕ → Reviews → List Message
get_flagged_for_review skip limit d = take limit (
    drop skip (
      sort_by (λ a b. leb a.created_at b.created_at)
        (select (λ m. m.flagged_for_review) (values_of d.messages))))
