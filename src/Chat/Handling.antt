-- ===== src/Chat/Handling.antt =====
-- The end of every branch of `_handle_chat_order`, and the whole method
-- (backend/app/services/conversation_service.py).
use qiki.Base.{ℕ, Bool, ◌&&◌, not, Option, none, some, List, [], String, is_some, if◌then◌else◌}
use qiki.Models.Product.{Product}
use qiki.Models.Order.{OrderNumber}
use qiki.Chat.Slots.{
  ChatOrderSlots, Profile, truthy, text_of, or_else, account_default_contact_slots,
}
use qiki.Chat.Metadata.{OrderState, SlotsMetadata, StateDocument}
use qiki.Chat.Cues.{is_order_cancel_request, is_affirmation, is_post_order_change_request}
use qiki.Chat.Items.{Reader, combine_current_message_slots}
use qiki.Chat.History.{
  Message, find_order_state, find_existing_chat_order, find_reusable_contact_slots,
  slots_from_order_state, order_state_metadata,
}
use qiki.Chat.Review.{Reply, ask, review}
use qiki.Chat.Dialogue.{Reading, Step, slots_or_empty, status_of, confirms, step_of}

module _ (r : Reader) (products : List Product) where
  -- The cues of the message for the phone number, the payment, the name and the delivery time.
  unfoldable pub with_phone_candidate : String → ChatOrderSlots → ChatOrderSlots
  with_phone_candidate content s =
      let candidate = r.extract_phone_candidate content in
      if not (truthy candidate)
      then s
      else if truthy s.customer_phone && is_some (r.validate_phone (text_of s.customer_phone))
      then s
      else record s { customer_phone = candidate }

  unfoldable pub with_order_cues : String → ChatOrderSlots → ChatOrderSlots
  with_order_cues content s =
      let payment = or_else s.payment_method (r.extract_payment_candidate content) in
      record s {
        customer_name = or_else (r.extract_name_candidate content payment) s.customer_name;
        payment_method = payment;
      }

  unfoldable pub with_delivery_time_candidate : String → ChatOrderSlots → ChatOrderSlots
  with_delivery_time_candidate content s = record s {
    delivery_notes = or_else s.delivery_notes (r.extract_delivery_time_candidate content);
  }

  abbrev pub with_cues : String → ChatOrderSlots → ChatOrderSlots
  with_cues content s =
      with_delivery_time_candidate content
        (with_order_cues content (with_phone_candidate content s))

  abbrev pub account_slots : Option Profile → Option ChatOrderSlots
  account_slots = account_default_contact_slots

  unfoldable pub finish_step :
      Reading → Option StateDocument → List Message → Option Profile → Step → Reply
  finish_step t d conversation user (Step.reply answer) = answer
  finish_step t d conversation user (Step.settled resolved s) =
      review r products (is_some d) (find_reusable_contact_slots r.strip conversation)
        (account_slots user)
        (record (with_cues t.content s) {
          confirmed = confirms (status_of d) (is_affirmation t.normalized) resolved;
        })

  unfoldable pub read_message : Option StateDocument → String → Reading
  read_message d content =
      let incoming =
        combine_current_message_slots r products (r.infer_order_slots content products)
          (r.extract_order_slots content products) content in
      record {
        content = content;
        normalized = r.normalize_match_text content;
        previous = slots_from_order_state r.strip d;
        candidates = incoming.items;
        contact = record incoming { items = [] };
      }

  -- Cancelling and an unclear delivery time come before the branches.
  unfoldable pub continue_order :
      Option StateDocument → List Message → Option Profile → Reading → Reply
  continue_order d conversation user t =
      if is_some d && is_order_cancel_request t.normalized
      then Reply.order_state (order_state_metadata OrderState.order_cancelled none [] [])
      else if is_some d && truthy (r.extract_ambiguous_delivery_time_window t.content)
      then ask OrderState.awaiting_missing_slots (slots_or_empty t.previous)
      else finish_step t d conversation user (step_of r products t d)

  -- The placed order that a request for a change is about.
  abbrev pub placed_order : Bool → List Message → Option (OrderNumber × SlotsMetadata)
  placed_order change history = if change then find_existing_chat_order history else none

  -- `history` is recent and `conversation` whole, both newest first.
  unfoldable pub handle_chat_order :
      ℕ → List Message → List Message → Option Profile → String → Reply
  handle_chat_order now history conversation user content =
      let normalized = r.normalize_match_text content in
      let d = find_order_state now (is_affirmation normalized) history in
      let change =
        is_post_order_change_request (truthy (r.extract_payment_candidate content)) normalized in
      elim (placed_order change history) [
        | some (number, slots) ↦ Reply.post_order_change number slots
        | none ↦ continue_order d conversation user (read_message d content)
      ]
