-- ===== src/Chat/History.antt =====
-- What the messages of a conversation say of an order
-- (backend/app/services/conversation_service.py). Messages stand newest first, as
-- `reversed(history)` walks them.
use qiki.Base.{
  ℕ, ◌+◌, Bool, true, false, ◌&&◌, Option, none, some, List, [], ◌∷◌, String, any, leb, is_some,
  not, if◌then◌else◌,
}
use qiki.Models.Order.{OrderNumber}
use qiki.Chat.Slots.{ChatOrderItem, ChatOrderSlots, no_slots, has_reusable_contact_slots}
use qiki.Chat.Items.{head}
use qiki.Chat.Metadata.{
  SlotsMetadata, StateDocument, OrderState, Document, items_to_metadata, slots_to_metadata,
  items_from_metadata, slots_from_metadata, optional_str,
}

pub data MessageRole : Type 0 where
  user assistant staff system : MessageRole

pub record Message : Type 0 where
  pub role : MessageRole
  pub created_at : ℕ
  pub retrieved_documents : List Document

abbrev is_assistant : MessageRole → Bool
is_assistant MessageRole.assistant = true
is_assistant _ = false

abbrev is_chat_order : Document → Bool
is_chat_order (Document.chat_order number slots) = true
is_chat_order _ = false

abbrev is_state : Document → Bool
is_state (Document.chat_order_state d) = true
is_state _ = false

-- 30 minutes, in seconds.
abbrev pub order_state_ttl : ℕ
order_state_ttl = 1800

unfoldable pub is_order_state_fresh : ℕ → Message → Bool
is_order_state_fresh now m = leb now (m.created_at + order_state_ttl)

unfoldable pub first_state : List Document → Option StateDocument
first_state [] = none
first_state (Document.chat_order_state d ∷ documents) = some d
first_state (Document.chat_order number slots ∷ documents) = first_state documents
first_state (Document.other ∷ documents) = first_state documents

abbrev unless_cancelled : StateDocument → Option StateDocument
unless_cancelled d = elim d.status [ OrderState.order_cancelled ↦ none | _ ↦ some d ]

-- The state of the order in progress. Behind a placed order only an affirmation looks on.
unfoldable pub find_order_state : ℕ → Bool → List Message → Option StateDocument
find_order_state now affirmed [] = none
find_order_state now affirmed (m ∷ history) =
    let rest = find_order_state now affirmed history in
    if is_assistant m.role
    then if any is_chat_order m.retrieved_documents
      then if affirmed then rest else none
      else elim (first_state m.retrieved_documents) [
        | none ↦ rest
        | some d ↦ if is_order_state_fresh now m then unless_cancelled d else none
      ]
    else rest

unfoldable pub first_order : List Document → Option (OrderNumber × SlotsMetadata)
first_order [] = none
first_order (Document.chat_order number slots ∷ documents) = some (number, slots)
first_order (Document.chat_order_state d ∷ documents) = first_order documents
first_order (Document.other ∷ documents) = first_order documents

unfoldable pub find_existing_chat_order : List Message → Option (OrderNumber × SlotsMetadata)
find_existing_chat_order [] = none
find_existing_chat_order (m ∷ history) = elim (first_order m.retrieved_documents) [
  | some document ↦ some document
  | none ↦ find_existing_chat_order history
]

-- Only the newest message of the assistant counts.
unfoldable pub is_order_in_progress : ℕ → List Message → Bool
is_order_in_progress now [] = false
is_order_in_progress now (m ∷ history) =
    let rest = is_order_in_progress now history in
    if is_assistant m.role
    then if any is_chat_order m.retrieved_documents
      then false
      else any is_state m.retrieved_documents && is_order_state_fresh now m
    else rest

abbrev contact_of : ChatOrderSlots → ChatOrderSlots
contact_of s = record no_slots {
  customer_name = s.customer_name;
  customer_phone = s.customer_phone;
  delivery_address = s.delivery_address;
}

abbrev document_slots : Document → Option SlotsMetadata
document_slots (Document.chat_order number slots) = some slots
document_slots (Document.chat_order_state d) = d.slots
document_slots Document.other = none

module _ (strip : String → String) where
  unfoldable pub reusable_in : List Document → Option ChatOrderSlots
  reusable_in [] = none
  reusable_in (d ∷ documents) =
      let rest = reusable_in documents in
      elim (document_slots d) [
        | none ↦ rest
        | some payload ↦
            let s = slots_from_metadata strip payload in
            if has_reusable_contact_slots s then some (contact_of s) else rest
      ]

  unfoldable pub find_reusable_contact_slots : List Message → Option ChatOrderSlots
  find_reusable_contact_slots [] = none
  find_reusable_contact_slots (m ∷ history) = elim (reusable_in m.retrieved_documents) [
    | some s ↦ some s
    | none ↦ find_reusable_contact_slots history
  ]

  abbrev pub slots_from_order_state : Option StateDocument → Option ChatOrderSlots
  slots_from_order_state none = none
  slots_from_order_state (some d) = elim d.slots [
    | none ↦ none
    | some payload ↦ some (slots_from_metadata strip payload)
  ]

  abbrev pub pending_item_from_state : StateDocument → Option ChatOrderItem
  pending_item_from_state d = head (items_from_metadata strip d.pending_item)

  abbrev pub quantity_of_first : List ChatOrderItem → Option ℕ
  quantity_of_first [] = none
  quantity_of_first (i ∷ items) = i.quantity

  unfoldable pub previous_items_from_state : StateDocument → List ChatOrderItem → List ChatOrderItem
  previous_items_from_state d fallback = elim (items_from_metadata strip d.previous_items) [
    | i ∷ items ↦ i ∷ items
    | [] ↦ elim (optional_str strip d.previous_product) [
      | some product ↦ record { product = some product; quantity = quantity_of_first fallback } ∷ []
      | none ↦ fallback
    ]
  ]

abbrev no_data : SlotsMetadata → Bool
no_data d =
    not (is_some (head d.items))
    && not (is_some d.customer_name)
    && not (is_some d.customer_phone)
    && not (is_some d.delivery_address)
    && not (is_some d.delivery_notes)
    && not (is_some d.payment_method)

abbrev slots_key : Option ChatOrderSlots → Option SlotsMetadata
slots_key none = none
slots_key (some s) =
    let payload = slots_to_metadata s in if no_data payload then none else some payload

unfoldable pub order_state_metadata :
    OrderState → Option ChatOrderSlots → List ChatOrderItem → List ChatOrderItem → StateDocument
order_state_metadata status slots pending previous = record {
  status = status;
  slots = slots_key slots;
  pending_item = items_to_metadata pending;
  previous_items = items_to_metadata previous;
  previous_product = none;
}
