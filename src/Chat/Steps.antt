-- ===== src/Chat/Steps.antt =====
-- What the branches of `_handle_chat_order` may answer
-- (backend/app/services/conversation_service.py).
use qiki.Base.{
  Bool, true, false, ◌&&◌, ◌||◌, not, Option, none, some, List, [], ◌∷◌, ◌≡◌, refl, ◌⊎◌, inl, inr,
  Option-cases, arith,
}
use qiki.Models.Product.{Product}
use qiki.Chat.Slots.{with_order_items, ChatOrderItem, ChatOrderSlots, merge_order_slots}
use qiki.Chat.Metadata.{OrderState, StateDocument}
use qiki.Chat.Cues.{is_affirmation}
use qiki.Chat.Items.{
  head, pending_change_item, Reader, ItemOperation, items_of, detect_order_items_operation,
}
use qiki.Chat.History.{pending_item_from_state, previous_items_from_state, order_state_metadata}
use qiki.Chat.Review.{Reply}
use qiki.Chat.Dialogue.{
  status_of, slots_or_empty, or_item, first_incomplete, Reading, Step, picked_product, named_head,
  choose_product, product_choice, change_product, product_change, place_item, add_or_replace,
  apply_operation, new_items, or_new_items, step_of,
}
use qiki.Chat.Machine.{outcome_of, may_place, allowed}

module _ (r : Reader) (products : List Product) where
  -- A reply of a branch is an allowed question; a branch that settles the slots claims a resolved confirmation only
  -- for an affirmation in the choice of a product.
  abbrev pub is_question : Reply → Bool
  is_question (Reply.order_state d) = true
  is_question _ = false

  abbrev pub is_fine : Bool → Option OrderState → Step → Bool
  is_fine affirmed d (Step.reply answer) =
      is_question answer && allowed affirmed d (outcome_of answer)
  is_fine affirmed d (Step.settled resolved s) = not resolved || affirmed && may_place d

  abbrev is_fine_option : Bool → Option OrderState → Option Step → Bool
  is_fine_option affirmed d none = true
  is_fine_option affirmed d (some step) = is_fine affirmed d step

  List-cases {ℓ} :
      {A : Type ℓ} (xs : List A) → (xs ≡ []) ⊎ ((x : A) × (ys : List A) × (xs ≡ x ∷ ys))
  List-cases [] = inl refl
  List-cases (x ∷ xs) = inr (x, xs, refl)

  apply_operation_fine :
      (d : Option OrderState) (t : Reading) (op : Option ItemOperation) (c : ChatOrderItem)
      (s : ChatOrderSlots)
      → is_fine (is_affirmation t.normalized) d (apply_operation r products t op c s) ≡ true
  unfolding apply_operation order_state_metadata
  apply_operation_fine d t none c s = refl
  apply_operation_fine d t (some ItemOperation.set_items) c s = refl
  apply_operation_fine d t (some ItemOperation.add) c s = refl
  apply_operation_fine d t (some ItemOperation.remove) c s = refl
  apply_operation_fine d t (some ItemOperation.merge_existing) c s = refl
  apply_operation_fine d t (some ItemOperation.ambiguous) c s = refl
  apply_operation_fine d t (some ItemOperation.replace_item) c s = elim (List-cases s.items) [
    | inl empty ↦ rw empty refl
    | inr (i, items, some_items) ↦ rw some_items refl
  ]

  new_items_fine :
      (d : Option OrderState) (t : Reading)
      → is_fine (is_affirmation t.normalized) d (new_items r products t) ≡ true
  unfolding new_items
  new_items_fine d t = elim (List-cases t.candidates) [
    | inl empty ↦ ground arith
    | inr (c, rest, named) ↦
        let s = merge_order_slots r.normalize_match_text t.previous (some t.contact) in
        ground (
          arith,
          apply_operation_fine d t
              (detect_order_items_operation r products t.normalized (items_of t.previous)
                t.candidates)
              c s,
        )
  ]

  choose_product_fine :
      (t : Reading) (i : ChatOrderItem)
      → is_fine_option
          (is_affirmation t.normalized)
          (some OrderState.awaiting_product_choice)
          (choose_product r products t i)
        ≡ true
  unfolding choose_product order_state_metadata
  choose_product_fine t i = elim (Option-cases (picked_product r products t)) [
    | inl nothing ↦ ground arith
    | inr (p, picked) ↦ ground arith
  ]

  product_choice_fine :
      (t : Reading) (d : StateDocument)
      → is_fine_option
          (is_affirmation t.normalized)
          (some OrderState.awaiting_product_choice)
          (product_choice r products t d)
        ≡ true
  unfolding product_choice
  product_choice_fine t d =
      elim (Option-cases (
        or_item (pending_item_from_state r.strip d)
          (first_incomplete r products (slots_or_empty t.previous).items))) [
            | inl nothing ↦ ground arith
            | inr (i, pending) ↦ ground (arith, choose_product_fine t i)
          ]

  change_product_fine :
      (d : Option OrderState) (t : Reading) (previous : List ChatOrderItem)
      (original : ChatOrderSlots) (pending : Option ChatOrderItem)
      → is_fine
          (is_affirmation t.normalized)
          d
          (change_product r products t previous original pending)
        ≡ true
  unfolding change_product order_state_metadata
  change_product_fine d t previous original pending =
      elim (Option-cases (named_head t.candidates)) [
        | inl nothing ↦ ground arith
        | inr (i, named) ↦ ground arith
      ]

  product_change_fine :
      (s : Option OrderState) (t : Reading) (d : StateDocument)
      → is_fine (is_affirmation t.normalized) s (product_change r products t d) ≡ true
  unfolding product_change
  product_change_fine s t d =
      let base = slots_or_empty t.previous in
      let previous = previous_items_from_state r.strip d (items_of t.previous) in
      ground (
        arith,
        change_product_fine s t previous (with_order_items base previous) (
            or_item (pending_item_from_state r.strip d)
              (pending_change_item r products previous base.items)),
      )

  place_item_fine :
      (s : Option OrderState) (t : Reading) (i : Option ChatOrderItem)
      → is_fine (is_affirmation t.normalized) s (place_item r products t i) ≡ true
  unfolding place_item order_state_metadata
  place_item_fine s t none = ground arith
  place_item_fine s t (some i) = elim (Option-cases (named_head t.candidates)) [
    | inl nothing ↦ ground arith
    | inr (c, named) ↦ ground arith
  ]

  add_or_replace_fine :
      (s : Option OrderState) (t : Reading) (d : StateDocument)
      → is_fine (is_affirmation t.normalized) s (add_or_replace r products t d) ≡ true
  unfolding add_or_replace
  add_or_replace_fine s t d =
      ground (
        arith,
        place_item_fine s t (or_item (pending_item_from_state r.strip d) (head t.candidates)),
      )

  or_new_items_fine :
      (s : Option OrderState) (t : Reading) (o : Option Step)
      → is_fine_option (is_affirmation t.normalized) s o ≡ true
      → is_fine (is_affirmation t.normalized) s (or_new_items r products t o) ≡ true
  or_new_items_fine s t none h = new_items_fine s t
  or_new_items_fine s t (some step) h = h

  pub step_of_fine :
      (t : Reading) (d : Option StateDocument)
      → is_fine (is_affirmation t.normalized) (status_of d) (step_of r products t d) ≡ true
  unfolding step_of
  step_of_fine t none = new_items_fine none t
  step_of_fine t (some d) = go d.status refl
    where
      go :
          (s : OrderState)
          → d.status ≡ s
          → is_fine
              (is_affirmation t.normalized)
              (status_of (some d))
              (step_of r products t (some d))
            ≡ true
      go OrderState.awaiting_product_choice e = ground (
        arith,
        or_new_items_fine (some OrderState.awaiting_product_choice) t
            (product_choice r products t d) (product_choice_fine t d),
      )
      go OrderState.awaiting_product_change_confirmation e =
          ground (arith, product_change_fine (some d.status) t d)
      go OrderState.awaiting_add_or_replace e =
          ground (arith, add_or_replace_fine (some d.status) t d)
      go OrderState.order_cancelled e = ground (arith, new_items_fine (some d.status) t)
      go OrderState.awaiting_missing_slots e = ground (arith, new_items_fine (some d.status) t)
      go OrderState.awaiting_reused_contact_confirmation e =
          ground (arith, new_items_fine (some d.status) t)
      go OrderState.awaiting_account_contact_confirmation e =
          ground (arith, new_items_fine (some d.status) t)
      go OrderState.awaiting_confirmation e = ground (arith, new_items_fine (some d.status) t)
