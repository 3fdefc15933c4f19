-- ===== src/Chat/Fixture.antt =====
-- A reader of two messages, the slots of an order, and conversations for the tests.
use qiki.Base.{◌||◌, true, false, Option, none, some, List, [], ◌∷◌, String, if◌then◌else◌}
use text.Mathlib.Text.{◌==◌ as str_eq}
use qiki.Models.Product.{Product}
use qiki.Orders.Fixture.{cylinder, water, shop, checkout_code}
use qiki.Chat.Slots.{
  ChatOrderSlots, no_slots, truthy, or_else, update_first, merge_each, merge_order_items,
  merge_slots, merge_order_slots, has_reusable_contact_slots, account_default_contact_slots,
}
use qiki.Chat.Metadata.{
  OrderState, StateDocument, Document, keep_truthy, items_to_metadata, slots_to_metadata,
  optional_int, optional_str, items_from_metadata, slots_from_metadata,
}
use qiki.Chat.Cues.{
  has_phrase, is_one_of, has_add_cue, is_cancel_add_request, has_replace_cue, has_remove_cue,
  is_order_cancel_request, is_negation, is_keep_previous_product_request, is_affirmation,
  is_post_order_change_request, is_bare_category, normalize_payment_method,
}
use qiki.Chat.Items.{
  Reader, is_bare_category_query, is_incomplete_add_item, detect_order_items_operation,
  combine_item, combine_items, combine_current_message_slots, merge_candidate_items,
}
use qiki.Chat.History.{
  Message, is_order_state_fresh, first_state, find_order_state, first_order,
  find_existing_chat_order, reusable_in, find_reusable_contact_slots, previous_items_from_state,
  order_state_metadata,
}
use qiki.Chat.Review.{
  match_order_items, matched_order_products, missing_order_slots, has_valid_fields, is_accepted,
  checkout_or_raise, confirm_order, check_slots, should_confirm_reusable_contact,
  should_confirm_account_contact, bare_item, review,
}
use qiki.Chat.Dialogue.{
  confirms, first_incomplete, choose_product, product_choice, change_product, product_change,
  place_item, add_or_replace, apply_operation, new_items, step_of,
}
use qiki.Chat.Handling.{
  with_phone_candidate, with_order_cues, with_delivery_time_candidate, finish_step, read_message,
  continue_order, handle_chat_order,
}
use qiki.Chat.Turn.{
  ChatState, insert_item, sorted_items, join, item_texts, chat_order_idempotency_key, drop,
  carry_out, chat_turn, assistant_message,
}

abbrev pub one_elf : ChatOrderSlots
one_elf = record {
  items = record { product = some "Elf"; quantity = some 1 } ∷ [];
  customer_name = some "An";
  customer_phone = some "0912345678";
  delivery_address = some "1 Le Loi";
  delivery_notes = none;
  payment_method = some "cod";
  confirmed = false;
}

abbrev slots_in : String → ChatOrderSlots
slots_in content = if str_eq content "1 elf" then one_elf else no_slots

abbrev named : String → List Product → Option Product
named name [] = none
named name (p ∷ products) =
    let rest = named name products in if str_eq p.name name then some p else rest

abbrev matched : Option String → List Product → Option Product
matched none products = none
matched (some name) products = named name products

abbrev pub reader : Reader
reader = record {
  normalize_match_text = λ t. t;
  strip = λ t. t;
  extract_order_slots = λ content products. slots_in content;
  infer_order_slots = λ content products. no_slots;
  is_product_mentioned = λ content item products. true;
  order_address = λ address content. address;
  match_product = matched;
  display_name = λ p. p.name;
  mentions_brand = λ content products. false;
  names_gas_size = λ content products. false;
  category_filter = λ content. none;
  extract_payment_candidate = λ content. none;
  extract_name_candidate = λ content payment. none;
  extract_phone_candidate = λ content. none;
  extract_delivery_time_candidate = λ content. none;
  extract_ambiguous_delivery_time_window = λ content. none;
  validate_phone = λ phone.
      if str_eq phone "0912345678" || str_eq phone "+84912345678"
      then some "+84912345678"
      else none;
  resolves_delivery_zone = λ address. true;
  khu_pho_is_valid = λ address. true;
  delivery_notes_with_water_fee = λ notes items. notes;
  str_of_int = λ n. "1";
  uuid5 = λ name. 88;
}

abbrev pub catalog : List Product
catalog = cylinder ∷ water ∷ []

abbrev pub summary : StateDocument
summary = order_state_metadata OrderState.awaiting_confirmation (some one_elf) [] []

abbrev pub summarised : List Message
summarised = assistant_message 10 (Document.chat_order_state summary) ∷ []

abbrev pub empty_chat : ChatState
empty_chat = record { store = shop; messages = [] }

-- Everything that a turn of the chat computes with.
unfoldable pub chat_code : Unit {0}
unfolding checkout_code truthy or_else update_first merge_each merge_order_items merge_slots
    merge_order_slots has_reusable_contact_slots account_default_contact_slots keep_truthy
    items_to_metadata slots_to_metadata optional_int optional_str items_from_metadata
    slots_from_metadata has_phrase is_one_of has_add_cue is_cancel_add_request has_replace_cue
    has_remove_cue is_order_cancel_request is_negation is_keep_previous_product_request
    is_affirmation is_post_order_change_request is_bare_category normalize_payment_method
    is_bare_category_query is_incomplete_add_item detect_order_items_operation combine_item
    combine_items combine_current_message_slots merge_candidate_items is_order_state_fresh
    first_state find_order_state first_order find_existing_chat_order reusable_in
    find_reusable_contact_slots previous_items_from_state order_state_metadata match_order_items
    matched_order_products missing_order_slots has_valid_fields is_accepted checkout_or_raise
    confirm_order check_slots should_confirm_reusable_contact should_confirm_account_contact
    bare_item review confirms first_incomplete choose_product product_choice change_product
    product_change place_item add_or_replace apply_operation new_items step_of with_phone_candidate
    with_order_cues with_delivery_time_candidate finish_step read_message continue_order
    handle_chat_order insert_item sorted_items join item_texts chat_order_idempotency_key drop
    carry_out chat_turn
chat_code = tt
