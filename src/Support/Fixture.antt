-- ===== src/Support/Fixture.antt =====
-- A conversation, an understanding of three messages and the tables of the shop for the tests.
use qiki.Base.{false, none, some, [], ◌∷◌, String, if◌then◌else◌}
use text.Mathlib.Text.{◌==◌ as str_eq}
use qiki.Orders.Fixture.{shop, owner, clerk}
use qiki.Chat.Fixture.{reader, summarised, chat_code}
use qiki.Chat.History.{is_order_in_progress}
use qiki.Chat.Cues.{is_explicit_human_request}
use qiki.Support.Conversations.{Conversation, start, assign_to_staff}
use qiki.Support.Intent.{
  IntentCategory, IntentResult, Classifiers, double_check, must_check_llm, classify,
  intent_routing_rules, active_with, find_available_staff, route_intent,
}
use qiki.Support.Followup.{
  has_words, mentions_callback, is_callback_decline, detect_followup_request,
}
use qiki.Support.Safety.{
  Folding, search, emergency_keywords_vi, emergency_keywords_en, suspicious_patterns,
  check_keywords, check_patterns, check_query,
}
use qiki.Support.Understanding.{
  Understanding, has_order_action_cue, has_product_question_cue, should_ask_intent_clarification,
  catalog_product_intent_override, in_order_context, on_unclear_time, on_human_request,
  on_post_order_change, on_catalog_product, understand,
}
use qiki.Support.Plan.{
  Desk, escalate, query, followup_note, branch_without_note, branch_of, respond, carry_turn,
  plan_response,
}

abbrev seen_by_llm : String → IntentResult
seen_by_llm text =
    if str_eq text "mui gas nong"
    then record { category = IntentCategory.safety_emergency; confidence = 80 }
    else record { category = IntentCategory.general_info; confidence = 70 }

abbrev pub classifiers : Classifiers
classifiers = record {
  normalize_text = λ t. t;
  embedding = λ t. some record { category = IntentCategory.technical_issue; confidence = 40 };
  llm = seen_by_llm;
  confidence_threshold = 60;
}

abbrev pub folding : Folding
folding = record { normalize = λ t. t; ascii_fold = λ t. t }

abbrev pub understanding : Understanding
understanding = record {
  classifiers = classifiers;
  reader = reader;
  quantity = λ content. none;
  is_short_catalog_product_phrase = λ content p. false;
  followup_window = λ content. (none, none);
  inquiry_message = λ content products. false;
  str_of_uuid = λ id. "c1";
  folding = folding;
  source_count = λ content. 2;
}

abbrev pub opened : Conversation
opened = start 5 (some 5) "s1"

abbrev pub desk : Desk
desk = record {
  store = shop;
  conversations = (1, opened) ∷ [];
  messages = (1, summarised) ∷ [];
  users = owner ∷ clerk ∷ [];
}

-- Everything that a turn computes with.
unfoldable pub support_code : Unit {0}
unfolding chat_code start assign_to_staff double_check must_check_llm classify intent_routing_rules
    active_with find_available_staff route_intent has_words mentions_callback is_callback_decline
    detect_followup_request search emergency_keywords_vi emergency_keywords_en suspicious_patterns
    check_keywords check_patterns check_query has_order_action_cue has_product_question_cue
    should_ask_intent_clarification catalog_product_intent_override in_order_context on_unclear_time
    on_human_request on_post_order_change on_catalog_product understand escalate query followup_note
    is_order_in_progress is_explicit_human_request branch_without_note branch_of respond carry_turn
    plan_response
support_code = tt
