-- ===== src/Support/Understanding.antt =====
-- The intent of a message in its conversation (`_plan_response` of
-- backend/app/services/conversation_service.py): the classifier's result, and what the order in
-- progress and the catalog put in its place.
use qiki.Base.{
  ℕ, Bool, ◌&&◌, ◌||◌, not, Option, none, some, List, [], ◌∷◌, String, is_some, ltb, max,
  if◌then◌else◌,
}
use qiki.Models.Product.{Product}
use qiki.Chat.Slots.{truthy, nonzero}
use qiki.Chat.Items.{Reader, is_empty}
use qiki.Chat.Cues.{
  is_bare_category, has_phrase, is_explicit_human_request, is_post_order_change_request,
}
use qiki.Chat.History.{Message, find_existing_chat_order, is_order_in_progress}
use qiki.Support.Intent.{
  IntentCategory, IntentResult, Classifiers, classify, is_safety, is_complaint, is_place_order,
}
use qiki.Support.Safety.{Folding}
use qiki.Support.Followup.{has_words}

-- What the service reads from one message. `quantity` is the number of units that it names, at its
-- start or before a unit; `inquiry_message` says whether a price, a size or a list of the catalog answers it.
pub record Understanding : Type 0 where
  pub classifiers : Classifiers
  pub reader : Reader
  pub quantity : String → Option ℕ
  pub is_short_catalog_product_phrase : String → Product → Bool
  pub followup_window : String → Option String × Option String
  pub inquiry_message : String → List Product → Bool
  pub str_of_uuid : ℕ → String
  pub folding : Folding
  pub source_count : String → ℕ

abbrev order_context_confidence : ℕ
order_context_confidence = 90

abbrev pub with_category : IntentCategory → IntentResult → IntentResult
with_category category intent = record {
  category = category;
  confidence = max intent.confidence order_context_confidence;
}

abbrev pub order_context_intent : IntentResult → IntentResult
order_context_intent intent = with_category IntentCategory.place_order intent

unfoldable pub has_order_action_cue : String → Bool
has_order_action_cue normalized =
    has_phrase normalized
      ("dat" ∷ "mua" ∷ "lay" ∷ "doi qua" ∷ "doi sang" ∷ "chuyen qua" ∷ "chuyen sang" ∷ [])

unfoldable pub has_product_question_cue : String → Bool
has_product_question_cue normalized =
    has_words normalized
      ("gia" ∷ "bao nhieu" ∷ "co ban" ∷ "con hang" ∷ "loai nao" ∷ "san pham nao" ∷ [])

unfoldable pub should_ask_intent_clarification : IntentResult → Bool
should_ask_intent_clarification intent =
    ltb intent.confidence 60
    && not (
        is_safety intent.category || is_complaint intent.category || is_place_order intent.category)

module _ (k : Understanding) (products : List Product) where
  unfoldable pub catalog_product_intent_override : String → Option IntentCategory
  catalog_product_intent_override content =
      let normalized = k.reader.normalize_match_text content in
      if is_bare_category normalized
      then none
      else elim (k.reader.match_product (some content) products) [
        | none ↦ none
        | some p ↦
            if has_product_question_cue normalized
            then some IntentCategory.product_inquiry
            else if nonzero (k.quantity content)
                || has_order_action_cue normalized
                || k.is_short_catalog_product_phrase normalized p
            then some IntentCategory.place_order
            else none
      ]

  -- Each override reads the intent that the one before it left; none touches an emergency.
  unfoldable pub in_order_context : ℕ → List Message → IntentResult → IntentResult
  in_order_context now history intent =
      if is_safety intent.category
      then intent
      else if is_order_in_progress now history
      then order_context_intent intent
      else intent

  unfoldable pub on_unclear_time : ℕ → List Message → String → IntentResult → IntentResult
  on_unclear_time now history content intent =
      if not (is_safety intent.category)
        && truthy (k.reader.extract_ambiguous_delivery_time_window content)
        && is_order_in_progress now history
      then order_context_intent intent
      else intent

  unfoldable pub on_human_request : String → IntentResult → IntentResult
  on_human_request content intent =
      if not (is_safety intent.category)
        && is_explicit_human_request (k.reader.normalize_match_text content)
      then with_category IntentCategory.complaint intent
      else intent

  unfoldable pub on_post_order_change : List Message → String → IntentResult → IntentResult
  on_post_order_change history content intent =
      if not (is_safety intent.category)
        && is_some (find_existing_chat_order history)
        && is_post_order_change_request (truthy (k.reader.extract_payment_candidate content))
            (k.reader.normalize_match_text content)
      then order_context_intent intent
      else intent

  unfoldable pub on_catalog_product : String → IntentResult → IntentResult
  on_catalog_product content intent =
      if is_safety intent.category || is_empty products
      then intent
      else elim (catalog_product_intent_override content) [
        | some IntentCategory.place_order ↦ order_context_intent intent
        | some IntentCategory.product_inquiry ↦ with_category IntentCategory.product_inquiry intent
        | _ ↦ intent
      ]

  unfoldable pub understand : ℕ → List Message → String → IntentResult
  understand now history content = on_catalog_product content (
      on_post_order_change history content (
        on_human_request content (
          on_unclear_time now history content
            (in_order_context now history (classify k.classifiers content)))))
