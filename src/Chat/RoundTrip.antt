-- ===== src/Chat/RoundTrip.antt =====
-- The slots of an order survive the metadata of a message
-- (backend/app/services/conversation_service.py).
use qiki.Base.{
  ap, ℕ, zero, suc, true, false, ◌||◌, Option, none, some, List, [], ◌∷◌, String, is_some, All, ◌≡◌,
  refl, arith,
}
use qiki.Chat.Slots.{ChatOrderItem, ChatOrderSlots, truthy, nonzero}
use qiki.Chat.Items.{head, is_empty}
use qiki.Chat.History.{slots_from_order_state, order_state_metadata}
use qiki.Chat.Metadata.{
  OrderState, keep_truthy, items_to_metadata, slots_to_metadata, optional_int, optional_str,
  items_from_metadata, slots_from_metadata, or_legacy, item_from_metadata,
}

module _ (strip : String → String) where
  -- A text that is there is not empty and has no blanks around it.
  abbrev pub IsText : Option String → Type 0
  IsText none = Unit
  IsText (some t) = (strip t ≡ t) × (truthy (some t) ≡ true)

  abbrev pub IsQuantity : Option ℕ → Type 0
  IsQuantity none = Unit
  IsQuantity (some n) = nonzero (some n) ≡ true

  -- The item has a product or a quantity.
  abbrev pub IsItem : ChatOrderItem → Type 0
  IsItem i =
      IsText i.product × IsQuantity i.quantity × ((is_some i.product || is_some i.quantity) ≡ true)

  pub record IsClean (s : ChatOrderSlots) : Type 0 where
    pub items : All IsItem s.items
    pub customer_name : IsText s.customer_name
    pub customer_phone : IsText s.customer_phone
    pub delivery_address : IsText s.delivery_address
    pub delivery_notes : IsText s.delivery_notes
    pub payment_method : IsText s.payment_method

  keep_truthy_lem : (o : Option String) → IsText o → keep_truthy o ≡ o
  unfolding keep_truthy truthy
  keep_truthy_lem none h = refl
  keep_truthy_lem (some t) (same, there) = rw there refl

  optional_str_lem : (o : Option String) → IsText o → optional_str strip o ≡ o
  unfolding optional_str
  optional_str_lem none h = refl
  optional_str_lem (some t) (same, there) = rw same (keep_truthy_lem (some t) (same, there))

  text_again : (o : Option String) → IsText o → optional_str strip (keep_truthy o) ≡ o
  text_again o h = rw (keep_truthy_lem o h) (optional_str_lem o h)

  quantity_again : (q : Option ℕ) → IsQuantity q → optional_int q ≡ q
  unfolding optional_int
  quantity_again none h = refl
  quantity_again (some zero) h = absurd (ground arith)
  quantity_again (some (suc n)) h = refl

  items_again :
      (items : List ChatOrderItem)
      → All IsItem items
      → items_from_metadata strip (items_to_metadata items) ≡ items
  unfolding items_from_metadata items_to_metadata
  items_again [] h = refl
  items_again (i ∷ items) ((text, count, data_of), rest) =
      rw (keep_truthy_lem i.product text, data_of, optional_str_lem i.product text)
        (rw (quantity_again i.quantity count, data_of, items_again items rest) refl)

  -- An item of a clean order has its data in the metadata.
  items_to_metadata_nonempty :
      (items : List ChatOrderItem)
      → All IsItem items
      → is_empty items ≡ false
      → is_some (head (items_to_metadata items)) ≡ true
  unfolding items_to_metadata
  items_to_metadata_nonempty [] h e = absurd (ground arith)
  items_to_metadata_nonempty (i ∷ items) ((text, count, data_of), rest) e =
      rw (keep_truthy_lem i.product text, data_of) refl

  or_legacy-none :
      (items : List ChatOrderItem)
      → or_legacy strip items (item_from_metadata strip none none) ≡ items
  unfolding optional_str optional_int
  or_legacy-none [] = refl
  or_legacy-none (i ∷ items) = refl

  -- Clean slots that a message keeps are read back as they were, with the confirmation taken off.
  pub slots_from_metadata-slots_to_metadata :
      (s : ChatOrderSlots)
      → IsClean s
      → slots_from_metadata strip (slots_to_metadata s) ≡ record s { confirmed = false }
  unfolding slots_from_metadata slots_to_metadata optional_str optional_int
  slots_from_metadata-slots_to_metadata s h =
      rw
        (
          items_again s.items h.items,
          text_again s.customer_name h.customer_name,
          text_again s.customer_phone h.customer_phone,
          text_again s.delivery_address h.delivery_address,
          text_again s.delivery_notes h.delivery_notes,
          text_again s.payment_method h.payment_method,
          or_legacy-none s.items,
        )
        refl

  -- The state that is kept with the slots gives them back.
  pub slots_from_order_state-order_state_metadata :
      (status : OrderState) (s : ChatOrderSlots)
      → IsClean s
      → is_empty s.items ≡ false
      → slots_from_order_state strip (some (order_state_metadata status (some s) [] []))
        ≡ some (record s { confirmed = false })
  unfolding order_state_metadata slots_to_metadata
  slots_from_order_state-order_state_metadata status s h e =
      rw (items_to_metadata_nonempty s.items h.items e)
        (ap some (slots_from_metadata-slots_to_metadata s h))
