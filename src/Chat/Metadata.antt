-- ===== src/Chat/Metadata.antt =====
-- The slots and the state of an order as JSON in the metadata of a message
-- (backend/app/services/conversation_service.py). A key that is absent is none or the empty list.
use qiki.Base.{
  ℕ, zero, suc, Bool, false, ◌||◌, Option, none, some, List, [], ◌∷◌, String, is_some,
  if◌then◌else◌,
}
use qiki.Models.Order.{OrderNumber}
use qiki.Chat.Slots.{ChatOrderItem, ChatOrderSlots, truthy}

-- The dict of an item has the keys of the item.
abbrev pub ItemMetadata : Type 0
ItemMetadata = ChatOrderItem

-- `product` and `quantity` are the keys of an older format.
pub record SlotsMetadata : Type 0 where
  pub items : List ItemMetadata
  pub product : Option String
  pub quantity : Option ℕ
  pub customer_name : Option String
  pub customer_phone : Option String
  pub delivery_address : Option String
  pub delivery_notes : Option String
  pub payment_method : Option String

-- A text that is empty gets no key.
unfoldable pub keep_truthy : Option String → Option String
keep_truthy t = if truthy t then t else none

abbrev has_data : ItemMetadata → Bool
has_data d = is_some d.product || is_some d.quantity

unfoldable pub items_to_metadata : List ChatOrderItem → List ItemMetadata
items_to_metadata [] = []
items_to_metadata (i ∷ items) =
    let rest = items_to_metadata items in
    let data_of : ItemMetadata = record {
      product = keep_truthy i.product;
      quantity = i.quantity;
    } in
    if has_data data_of then data_of ∷ rest else rest

unfoldable pub slots_to_metadata : ChatOrderSlots → SlotsMetadata
slots_to_metadata s = record {
  items = items_to_metadata s.items;
  product = none;
  quantity = none;
  customer_name = keep_truthy s.customer_name;
  customer_phone = keep_truthy s.customer_phone;
  delivery_address = keep_truthy s.delivery_address;
  delivery_notes = keep_truthy s.delivery_notes;
  payment_method = keep_truthy s.payment_method;
}

-- `_optional_int`: zero is dropped.
unfoldable pub optional_int : Option ℕ → Option ℕ
optional_int none = none
optional_int (some zero) = none
optional_int (some (suc n)) = some (suc n)

module _ (strip : String → String) where
  -- `str(value).strip() or None`
  unfoldable pub optional_str : Option String → Option String
  optional_str none = none
  optional_str (some t) = keep_truthy (some (strip t))

  abbrev pub item_from_metadata : Option String → Option ℕ → ChatOrderItem
  item_from_metadata product quantity = record {
    product = optional_str product;
    quantity = optional_int quantity;
  }

  abbrev pub has_item : ChatOrderItem → Bool
  has_item i = is_some i.product || is_some i.quantity

  unfoldable pub items_from_metadata : List ItemMetadata → List ChatOrderItem
  items_from_metadata [] = []
  items_from_metadata (d ∷ payload) =
      let rest = items_from_metadata payload in
      let parsed = item_from_metadata d.product d.quantity in
      if has_item parsed then parsed ∷ rest else rest

  abbrev pub or_legacy : List ChatOrderItem → ChatOrderItem → List ChatOrderItem
  or_legacy (i ∷ items) legacy = i ∷ items
  or_legacy [] legacy = if has_item legacy then legacy ∷ [] else []

  unfoldable pub slots_from_metadata : SlotsMetadata → ChatOrderSlots
  slots_from_metadata d = record {
    items = or_legacy (items_from_metadata d.items) (item_from_metadata d.product d.quantity);
    customer_name = optional_str d.customer_name;
    customer_phone = optional_str d.customer_phone;
    delivery_address = optional_str d.delivery_address;
    delivery_notes = optional_str d.delivery_notes;
    payment_method = optional_str d.payment_method;
    confirmed = false;
  }

pub data OrderState : Type 0 where
  order_cancelled awaiting_missing_slots awaiting_product_choice : OrderState
  awaiting_product_change_confirmation awaiting_add_or_replace : OrderState
  awaiting_reused_contact_confirmation awaiting_account_contact_confirmation : OrderState
  awaiting_confirmation : OrderState

-- A `chat_order_state` document.
pub record StateDocument : Type 0 where
  pub status : OrderState
  pub slots : Option SlotsMetadata
  pub pending_item : List ItemMetadata
  pub previous_items : List ItemMetadata
  pub previous_product : Option String

pub data Document : Type 0 where
  chat_order : OrderNumber → SlotsMetadata → Document
  chat_order_state : StateDocument → Document
  other : Document
