-- ===== src/Chat/Review.antt =====
-- The last part of `_handle_chat_order` (backend/app/services/conversation_service.py): the filled
-- slots are checked, summarised, and become a checkout once they are confirmed.
use Prim.Native.String.{count}
use qiki.Base.{
  ℕ, leb, Bool, true, false, ◌||◌, ◌&&◌, not, Option, none, some, List, [], ◌∷◌, ◌++◌, String, any,
  all, is_some, ltb, map, if◌then◌else◌,
}
use qiki.Models.Product.{Product}
use qiki.Models.Order.{OrderSource, OrderNumber, PaymentMethod}
use qiki.Orders.Checkout.{OrderItemCreate, CheckoutRequest, get_or_zero}
use qiki.Chat.Slots.{
  ChatOrderItem, ChatOrderSlots, truthy, text_of, merge_order_slots, has_reusable_contact_slots,
}
use qiki.Chat.Metadata.{OrderState, StateDocument, SlotsMetadata}
use qiki.Chat.Cues.{normalize_payment_method}
use qiki.Chat.Items.{Reader, is_empty, is_bare_category_query}
use qiki.Chat.History.{order_state_metadata}

pub data Reply : Type 0 where
  -- A question or an answer that keeps a state of the order.
  order_state : StateDocument → Reply
  -- A note to the staff about an order that is placed.
  post_order_change : OrderNumber → SlotsMetadata → Reply
  -- The checkout of the confirmed slots.
  checkout : CheckoutRequest → ChatOrderSlots → Reply
  -- The validators of `CheckoutRequest` refuse the confirmed slots: pydantic raises.
  invalid_request : Reply

abbrev pub ask : OrderState → ChatOrderSlots → Reply
ask status s = Reply.order_state (order_state_metadata status (some s) [] [])

abbrev pub ask_about : OrderState → ChatOrderSlots → List ChatOrderItem → Reply
ask_about status s pending = Reply.order_state (order_state_metadata status (some s) pending [])

pub data Missing : Type 0 where
  missing_product missing_quantity missing_recipient : Missing
  missing_phone missing_address missing_payment : Missing

abbrev pub when : Bool → Missing → List Missing
when c m = if c then m ∷ [] else []

unfoldable pub matched_order_products :
    List (ChatOrderItem × Option Product) → List (ChatOrderItem × Product)
matched_order_products [] = []
matched_order_products ((i, none) ∷ matched) = matched_order_products matched
matched_order_products ((i, some p) ∷ matched) = (i, p) ∷ matched_order_products matched

unfoldable pub missing_order_slots :
    ChatOrderSlots → List (ChatOrderItem × Option Product) → List Missing
missing_order_slots s matched =
    when (is_empty s.items || any (λ m. not (is_some m.1)) matched) Missing.missing_product
    ++ when (any (λ i. not (is_some i.quantity)) s.items) Missing.missing_quantity
    ++ when (not (truthy s.customer_name)) Missing.missing_recipient
    ++ when (not (truthy s.customer_phone)) Missing.missing_phone
    ++ when (not (truthy s.delivery_address)) Missing.missing_address
    ++ when (not (truthy s.payment_method)) Missing.missing_payment

abbrev pub out_of_stock : ChatOrderItem × Product → Bool
out_of_stock (i, p) = ltb p.stock_quantity (get_or_zero i.quantity)

abbrev pub line_of : ChatOrderItem × Product → OrderItemCreate
line_of (i, p) = record {
  product_id = p.id;
  quantity = get_or_zero i.quantity;
  is_exchange = false;
}

abbrev pub is_complete : ChatOrderItem × Option Product → Bool
is_complete m = is_some m.1 && is_some m.0.quantity

abbrev pub unmatched : ChatOrderItem × Option Product → Bool
unmatched m = truthy m.0.product && not (is_some m.1)

abbrev pub within : ℕ → ℕ → String → Bool
within least most text = leb least (count text) && leb (count text) most

abbrev pub at_most : ℕ → Option String → Bool
at_most most none = true
at_most most (some text) = leb (count text) most

-- The bounds that backend/app/schemas/order.py sets on the lines, the recipient, the address and the
-- notes of a request.
unfoldable pub has_valid_fields : List OrderItemCreate → String → String → Option String → Bool
has_valid_fields items customer_name delivery_address delivery_notes =
    not (is_empty items)
    && all (λ i. leb 1 i.quantity && leb i.quantity 100) items
    && within 2 255 customer_name
    && within 5 500 delivery_address
    && at_most 1000 delivery_notes

module _ (r : Reader) (products : List Product) where
  unfoldable pub match_order_items : List ChatOrderItem → List (ChatOrderItem × Option Product)
  match_order_items [] = []
  match_order_items (i ∷ items) = (i, r.match_product i.product products) ∷ match_order_items items

  abbrev pub checkout_of : ChatOrderSlots → String → PaymentMethod → CheckoutRequest
  checkout_of s phone payment = record {
    items = map line_of (matched_order_products (match_order_items s.items));
    customer_name = text_of s.customer_name;
    customer_phone = phone;
    delivery_address = text_of s.delivery_address;
    payment_method = payment;
    source = OrderSource.chatbot;
    coupon_code = none;
  }

  -- The fields of the request that the slots make are within their bounds.
  unfoldable pub is_accepted : ChatOrderSlots → Bool
  is_accepted s =
      let matched = matched_order_products (match_order_items s.items) in
      has_valid_fields (map line_of matched) (text_of s.customer_name) (text_of s.delivery_address)
        (r.delivery_notes_with_water_fee s.delivery_notes matched)

  -- `CheckoutRequest(...)`, which validates its fields and normalises the phone number once more.
  unfoldable pub checkout_or_raise : ChatOrderSlots → String → PaymentMethod → Reply
  checkout_or_raise s phone payment = elim (r.validate_phone phone) [
    | none ↦ Reply.invalid_request
    | some number ↦
        if is_accepted s
        then Reply.checkout (checkout_of s number payment) s
        else Reply.invalid_request
  ]

  -- The zone, the quarter, the stock, the payment, and the confirmation, in the code's order.
  unfoldable pub confirm_order : Bool → ChatOrderSlots → String → Reply
  confirm_order confirmed s phone =
      if not (r.resolves_delivery_zone (text_of s.delivery_address))
      then ask OrderState.awaiting_missing_slots s
      else if not (r.khu_pho_is_valid (text_of s.delivery_address))
      then ask OrderState.awaiting_missing_slots s
      else if any out_of_stock (matched_order_products (match_order_items s.items))
      then ask OrderState.awaiting_missing_slots s
      else elim (normalize_payment_method (r.normalize_match_text (text_of s.payment_method))) [
        | none ↦ ask OrderState.awaiting_missing_slots s
        | some payment ↦
            if not confirmed
            then ask OrderState.awaiting_confirmation s
            else checkout_or_raise s phone payment
      ]

  abbrev pub valid_phone : Option String → Option String
  valid_phone phone = if truthy phone then r.validate_phone (text_of phone) else none

  -- From the phone number on.
  unfoldable pub check_slots : Bool → ChatOrderSlots → Reply
  check_slots confirmed s =
      if truthy s.customer_phone && not (is_some (valid_phone s.customer_phone))
      then ask OrderState.awaiting_missing_slots s
      else if not (is_empty (missing_order_slots s (match_order_items s.items)))
      then ask OrderState.awaiting_missing_slots s
      else confirm_order confirmed s (text_of (valid_phone s.customer_phone))

  unfoldable pub should_confirm_reusable_contact :
      Bool → ChatOrderSlots → Option ChatOrderSlots → Bool
  should_confirm_reusable_contact in_order s reusable =
      not in_order
      && not (is_empty s.items)
      && all is_complete (match_order_items s.items)
      && elim reusable [ none ↦ false | some c ↦ has_reusable_contact_slots c ]
      && not (has_reusable_contact_slots s)

  unfoldable pub should_confirm_account_contact :
      Bool → ChatOrderSlots → Option ChatOrderSlots → Bool
  should_confirm_account_contact in_order s account =
      not in_order
      && not (is_empty s.items)
      && all is_complete (match_order_items s.items)
      && elim account [ none ↦ false | some c ↦ has_reusable_contact_slots c ]
      && not (truthy s.customer_name)
      && not (truthy s.customer_phone)

  unfoldable pub bare_item : List ChatOrderItem → Option ChatOrderItem
  bare_item [] = none
  bare_item (i ∷ items) =
      let rest = bare_item items in
      if is_bare_category_query r products i.product then some i else rest

  -- From the items on: `in_order` says whether the order has a state, and `reusable` and `account`
  -- are the contacts that may fill its gaps.
  unfoldable pub review :
      Bool → Option ChatOrderSlots → Option ChatOrderSlots → ChatOrderSlots → Reply
  review in_order reusable account s = elim (bare_item s.items) [
    | some i ↦ ask_about OrderState.awaiting_product_choice s (i ∷ [])
    | none ↦
        if any unmatched (match_order_items s.items)
        then ask OrderState.awaiting_product_choice s
        else if should_confirm_reusable_contact in_order s reusable
        then ask OrderState.awaiting_reused_contact_confirmation
            (merge_order_slots r.normalize_match_text (some s) reusable)
        else if should_confirm_account_contact in_order s account
        then ask OrderState.awaiting_account_contact_confirmation
            (merge_order_slots r.normalize_match_text account (some s))
        else let filled = merge_order_slots r.normalize_match_text account (some s) in
          check_slots filled.confirmed filled
  ]
