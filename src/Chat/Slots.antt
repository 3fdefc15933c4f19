-- ===== src/Chat/Slots.antt =====
-- The slots of an order in the chat (ChatOrderItem and ChatOrderSlots of
-- backend/app/services/conversation_service.py), and how sources of slots are merged.
use qiki.Base.{
  ℕ, zero, suc, Bool, true, false, ◌||◌, ◌&&◌, not, Option, none, some, List, [], ◌∷◌, ◌++◌, String,
  if◌then◌else◌,
}
use text.Mathlib.Text.{◌==◌ as str_eq}

pub record ChatOrderItem : Type 0 where
  pub product : Option String
  pub quantity : Option ℕ

pub record ChatOrderSlots : Type 0 where
  pub items : List ChatOrderItem
  pub customer_name : Option String
  pub customer_phone : Option String
  pub delivery_address : Option String
  pub delivery_notes : Option String
  pub payment_method : Option String
  pub confirmed : Bool

abbrev pub no_slots : ChatOrderSlots
no_slots = record {
  items = [];
  customer_name = none;
  customer_phone = none;
  delivery_address = none;
  delivery_notes = none;
  payment_method = none;
  confirmed = false;
}

-- Python's truth of an optional text and of an optional number.
unfoldable pub truthy : Option String → Bool
truthy none = false
truthy (some t) = not (str_eq t "")

abbrev pub nonzero : Option ℕ → Bool
nonzero none = false
nonzero (some zero) = false
nonzero (some (suc n)) = true

-- `a or b`
unfoldable pub or_else : Option String → Option String → Option String
or_else a b = if truthy a then a else b

abbrev pub or_quantity : Option ℕ → Option ℕ → Option ℕ
or_quantity a b = if nonzero a then a else b

-- `text or ""`
abbrev pub text_of : Option String → String
text_of none = ""
text_of (some t) = t

-- The first element that passes is replaced, if there is one.
unfoldable pub update_first {ℓ} : {A : Type ℓ} → (A → Bool) → (A → A) → List A → Option (List A)
update_first p f [] = none
update_first p f (x ∷ xs) =
    let rest = update_first p f xs in
    if p x then some (f x ∷ xs) else elim rest [ none ↦ none | some ys ↦ some (x ∷ ys) ]

abbrev pub or_append {ℓ} : {A : Type ℓ} → Option (List A) → List A → A → List A
or_append none xs x = xs ++ x ∷ []
or_append (some ys) xs x = ys

-- The product and the quantity of an item, those of the first one where it has them.
abbrev pub override : ChatOrderItem → ChatOrderItem → ChatOrderItem
override incoming existing = record {
  product = or_else incoming.product existing.product;
  quantity = or_quantity incoming.quantity existing.quantity;
}

module _ (normalize_match_text : String → String) where
  abbrev pub same_key : ChatOrderItem → ChatOrderItem → Bool
  same_key incoming item =
      let key = normalize_match_text (text_of incoming.product) in
      not (str_eq key "") && str_eq (normalize_match_text (text_of item.product)) key

  unfoldable pub merge_each : List ChatOrderItem → List ChatOrderItem → List ChatOrderItem
  merge_each merged [] = merged
  merge_each merged (i ∷ incoming) =
      merge_each (or_append (update_first (same_key i) (override i) merged) merged i) incoming

  unfoldable pub merge_order_items : List ChatOrderItem → List ChatOrderItem → List ChatOrderItem
  merge_order_items current [] = current
  merge_order_items [] (i ∷ incoming) = i ∷ incoming
  merge_order_items (c ∷ current) (i ∷ incoming) = merge_each (c ∷ current) (i ∷ incoming)

  -- One round of the loop of `_merge_order_slots`.
  unfoldable pub merge_slots : ChatOrderSlots → ChatOrderSlots → ChatOrderSlots
  merge_slots merged source = record {
    items = merge_order_items merged.items source.items;
    customer_name = or_else source.customer_name merged.customer_name;
    customer_phone = or_else source.customer_phone merged.customer_phone;
    delivery_address = or_else source.delivery_address merged.delivery_address;
    delivery_notes = or_else source.delivery_notes merged.delivery_notes;
    payment_method = or_else source.payment_method merged.payment_method;
    confirmed = merged.confirmed || source.confirmed;
  }

  abbrev pub merge_source : ChatOrderSlots → Option ChatOrderSlots → ChatOrderSlots
  merge_source merged none = merged
  merge_source merged (some source) = merge_slots merged source

  unfoldable pub merge_order_slots : Option ChatOrderSlots → Option ChatOrderSlots → ChatOrderSlots
  merge_order_slots a b = merge_source (merge_source no_slots a) b

unfoldable pub has_reusable_contact_slots : ChatOrderSlots → Bool
has_reusable_contact_slots s =
    truthy s.customer_name || truthy s.customer_phone || truthy s.delivery_address

abbrev pub with_order_items : ChatOrderSlots → List ChatOrderItem → ChatOrderSlots
with_order_items s items = record s { items = items; confirmed = false }

pub record Profile : Type 0 where
  pub full_name : Option String
  pub phone : Option String
  pub address : Option String
  pub delivery_notes : Option String

unfoldable pub account_default_contact_slots : Option Profile → Option ChatOrderSlots
account_default_contact_slots none = none
account_default_contact_slots (some u) = some (record {
  items = [];
  customer_name = u.full_name;
  customer_phone = u.phone;
  delivery_address = u.address;
  delivery_notes = u.delivery_notes;
  payment_method = none;
  confirmed = false;
})
