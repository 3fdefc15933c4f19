-- ===== src/Chat/Dialogue.antt =====
-- `_handle_chat_order` of backend/app/services/conversation_service.py: one message of a customer
-- who orders in the chat.
use qiki.Base.{
  Bool, true, false, ◌||◌, ◌&&◌, Option, none, some, List, [], ◌∷◌, String, is_some, if◌then◌else◌,
}
use qiki.Models.Product.{Product}
use qiki.Chat.Slots.{
  ChatOrderItem, ChatOrderSlots, no_slots, truthy, merge_order_slots, with_order_items,
}
use qiki.Chat.Metadata.{OrderState, StateDocument}
use qiki.Chat.Cues.{
  has_add_cue, is_cancel_add_request, has_replace_cue, is_negation,
  is_keep_previous_product_request, is_affirmation,
}
use qiki.Chat.Items.{
  Reader, ItemOperation, items_of, head, append_order_items, append_order_item,
  replace_first_matching_item, merge_existing_items, remove_order_item, is_incomplete_add_item,
  drop_incomplete_add_items, pending_change_item, detect_order_items_operation,
}
use qiki.Chat.History.{pending_item_from_state, previous_items_from_state, order_state_metadata}
use qiki.Chat.Review.{Reply, ask, ask_about}

-- What the branches read of one message.
pub record Reading : Type 0 where
  pub content : String
  pub normalized : String
  pub previous : Option ChatOrderSlots
  pub candidates : List ChatOrderItem
  -- The contact and payment slots of the message, without items.
  pub contact : ChatOrderSlots

-- A branch replies, or settles the slots; the flag is `confirm_resolved_order`. The `confirmed` of the
-- slots is set at the end of every branch, in `finish_step`.
pub data Step : Type 0 where
  reply : Reply → Step
  settled : Bool → ChatOrderSlots → Step

abbrev pub slots_or_empty : Option ChatOrderSlots → ChatOrderSlots
slots_or_empty none = no_slots
slots_or_empty (some s) = s

abbrev pub list_of {ℓ} : {A : Type ℓ} → Option A → List A
list_of none = []
list_of (some x) = x ∷ []

abbrev pub or_item : Option ChatOrderItem → Option ChatOrderItem → Option ChatOrderItem
or_item none b = b
or_item (some a) b = some a

abbrev pub named_head : List ChatOrderItem → Option ChatOrderItem
named_head [] = none
named_head (i ∷ items) = if truthy i.product then some i else none

abbrev with_payment : ChatOrderSlots → Option String → ChatOrderSlots
with_payment s payment = record s { payment_method = payment; confirmed = false }

abbrev unconfirmed : ChatOrderSlots → ChatOrderSlots
unconfirmed s = record s { confirmed = false }

abbrev pub status_of : Option StateDocument → Option OrderState
status_of none = none
status_of (some d) = some d.status

-- Whether the order counts as confirmed: only this message can confirm it.
unfoldable pub confirms : Option OrderState → Bool → Bool → Bool
confirms none affirmed resolved = resolved
confirms (some OrderState.awaiting_reused_contact_confirmation) affirmed resolved = false
confirms (some OrderState.awaiting_account_contact_confirmation) affirmed resolved = false
confirms (some OrderState.awaiting_confirmation) affirmed resolved = affirmed || resolved
confirms (some _) affirmed resolved = resolved

module _ (r : Reader) (products : List Product) where
  abbrev pub merged_contact : Reading → ChatOrderSlots → ChatOrderSlots
  merged_contact t s = merge_order_slots r.normalize_match_text (some s) (some t.contact)

  unfoldable pub first_incomplete : List ChatOrderItem → Option ChatOrderItem
  first_incomplete [] = none
  first_incomplete (i ∷ items) =
      let rest = first_incomplete items in
      if is_incomplete_add_item r products i then some i else rest

  abbrev pub picked_product : Reading → Option Product
  picked_product t =
      if r.mentions_brand t.normalized products
      then r.match_product (some t.content) products
      else none

  -- `awaiting_product_choice`, for an item that still lacks its product.
  unfoldable pub choose_product : Reading → ChatOrderItem → Option Step
  choose_product t pending =
      let base = slots_or_empty t.previous in
      let dropped = drop_incomplete_add_items r products base in
      if is_cancel_add_request t.normalized
      then some (Step.settled false (merged_contact t dropped))
      else if is_affirmation t.normalized
      then some (Step.settled true (merged_contact t dropped))
      else elim (picked_product t) [
        | some p ↦ some (
            Step.settled false (
              merged_contact t (
                append_order_items r products dropped (
                  record { product = some (r.display_name p); quantity = pending.quantity } ∷ []))))
        | none ↦
            if r.names_gas_size t.normalized products
            then some
                (Step.reply (ask_about OrderState.awaiting_product_choice base (pending ∷ [])))
            else none
      ]

  unfoldable pub product_choice : Reading → StateDocument → Option Step
  unfolding first_incomplete
  product_choice t d =
      elim (or_item (pending_item_from_state r.strip d)
        (first_incomplete (slots_or_empty t.previous).items)) [
          | none ↦ none
          | some pending ↦
              if is_incomplete_add_item r products pending then choose_product t pending else none
        ]

  abbrev pub ask_change : ChatOrderSlots → List ChatOrderItem → List ChatOrderItem → Step
  ask_change s previous pending = Step.reply (
      Reply.order_state (
        order_state_metadata OrderState.awaiting_product_change_confirmation (some s) pending
          previous))

  abbrev append_pending : ChatOrderSlots → Option ChatOrderItem → ChatOrderSlots
  append_pending s none = s
  append_pending s (some i) = append_order_item r products s i

  -- `awaiting_product_change_confirmation`, past the branch for a payment method.
  unfoldable pub change_product :
      Reading → List ChatOrderItem → ChatOrderSlots → Option ChatOrderItem → Step
  change_product t previous original pending =
      let base = slots_or_empty t.previous in
      let adds = has_add_cue t.normalized in
      if is_negation t.normalized && adds && is_some pending
      then Step.settled false (merged_contact t (append_pending original pending))
      else if is_affirmation t.normalized
      then Step.settled false (merged_contact t (unconfirmed base))
      else if is_negation t.normalized || is_keep_previous_product_request t.normalized
      then Step.settled false (merged_contact t original)
      else if adds && (is_some (head t.candidates) || is_some pending)
      then Step.settled false (
          merged_contact t (
            append_order_items r products original
              (elim t.candidates [ [] ↦ list_of pending | i ∷ items ↦ i ∷ items ])))
      else elim (named_head t.candidates) [
        | some i ↦ ask_change (replace_first_matching_item r products original i) previous (i ∷ [])
        | none ↦ ask_change base previous (list_of pending)
      ]

  unfoldable pub product_change : Reading → StateDocument → Step
  product_change t d =
      let base = slots_or_empty t.previous in
      let previous = previous_items_from_state r.strip d (items_of t.previous) in
      let original = with_order_items base previous in
      let payment = r.extract_payment_candidate t.content in
      let pending =
        or_item (pending_item_from_state r.strip d)
          (pending_change_item r products previous base.items) in
      if truthy payment
      then Step.settled false (merged_contact t (with_payment original payment))
      else change_product t previous original pending

  -- `awaiting_add_or_replace`, past the branch for a payment method.
  unfoldable pub place_item : Reading → Option ChatOrderItem → Step
  place_item t none =
      let base = slots_or_empty t.previous in
      if is_negation t.normalized
      then Step.settled false (merged_contact t (unconfirmed base))
      else Step.reply (ask OrderState.awaiting_add_or_replace base)
  place_item t (some i) =
      let base = slots_or_empty t.previous in
      if has_add_cue t.normalized
      then Step.settled false (merged_contact t (append_order_items r products base (i ∷ [])))
      else if has_replace_cue t.normalized || is_affirmation t.normalized
      then Step.settled false (merged_contact t (replace_first_matching_item r products base i))
      else if is_negation t.normalized
      then Step.settled false (merged_contact t (unconfirmed base))
      else elim (named_head t.candidates) [
        | some c ↦ Step.reply (ask_about OrderState.awaiting_add_or_replace base (c ∷ []))
        | none ↦ Step.reply (ask_about OrderState.awaiting_add_or_replace base (i ∷ []))
      ]

  unfoldable pub add_or_replace : Reading → StateDocument → Step
  add_or_replace t d =
      let payment = r.extract_payment_candidate t.content in
      if truthy payment
      then Step.settled false (merged_contact t (with_payment (slots_or_empty t.previous) payment))
      else place_item t (or_item (pending_item_from_state r.strip d) (head t.candidates))

  -- The items of a message in any other state, by the operation that they ask for.
  unfoldable pub apply_operation :
      Reading → Option ItemOperation → ChatOrderItem → ChatOrderSlots → Step
  apply_operation t none c s = Step.settled false (with_order_items s t.candidates)
  apply_operation t (some ItemOperation.set_items) c s =
      Step.settled false (with_order_items s t.candidates)
  apply_operation t (some ItemOperation.add) c s =
      Step.settled false (append_order_items r products s t.candidates)
  apply_operation t (some ItemOperation.replace_item) c s = elim s.items [
    | [] ↦ Step.settled false (with_order_items s t.candidates)
    | _ ∷ _ ↦ ask_change (replace_first_matching_item r products s c) s.items (c ∷ [])
  ]
  apply_operation t (some ItemOperation.remove) c s =
      Step.settled false (remove_order_item r products s c)
  apply_operation t (some ItemOperation.merge_existing) c s =
      Step.settled false (merge_existing_items r products s t.candidates)
  apply_operation t (some ItemOperation.ambiguous) c s =
      Step.reply (ask_about OrderState.awaiting_add_or_replace s (c ∷ []))

  unfoldable pub new_items : Reading → Step
  new_items t =
      let s = merge_order_slots r.normalize_match_text t.previous (some t.contact) in
      elim t.candidates [
        | [] ↦ Step.settled false s
        | c ∷ _ ↦
            apply_operation t
              (detect_order_items_operation r products t.normalized (items_of t.previous)
                t.candidates)
              c s
      ]

  abbrev pub or_new_items : Reading → Option Step → Step
  or_new_items t none = new_items t
  or_new_items t (some step) = step

  unfoldable pub step_of : Reading → Option StateDocument → Step
  step_of t none = new_items t
  step_of t (some d) = elim d.status [
    | OrderState.awaiting_product_choice ↦ or_new_items t (product_choice t d)
    | OrderState.awaiting_product_change_confirmation ↦ product_change t d
    | OrderState.awaiting_add_or_replace ↦ add_or_replace t d
    | _ ↦ new_items t
  ]
