-- ===== src/Chat/Moves.antt =====
-- The answers of `_handle_chat_order` (backend/app/services/conversation_service.py) beside the
-- moves of the abstract machine.
use qiki.Base.{
  sym, ◌∙◌, Bool, true, ◌&&◌, ◌||◌, not, Option, none, some, List, String, is_some, ◌≡◌, refl, inl,
  inr, Option-cases, arith,
}
use qiki.Models.Product.{Product}
use qiki.Chat.Slots.{
  ChatOrderSlots, Profile, merge_order_slots, merge_slots, account_default_contact_slots, text_of,
}
use qiki.Chat.Metadata.{OrderState, StateDocument}
use qiki.Chat.Cues.{is_affirmation, normalize_payment_method}
use qiki.Chat.Items.{Reader}
use qiki.Chat.History.{find_reusable_contact_slots, Message, order_state_metadata}
use qiki.Chat.Review.{
  bare_item, checkout_or_raise, confirm_order, check_slots, review, valid_phone,
  should_confirm_reusable_contact, should_confirm_account_contact,
}
use qiki.Chat.Dialogue.{status_of, Reading, Step, step_of, confirms}
use qiki.Chat.Handling.{with_cues, finish_step, continue_order}
use qiki.Chat.Machine.{outcome_of, Move, may_place, allowed, allowed→Move}
use qiki.Chat.Steps.{is_fine, step_of_fine}

module _ (r : Reader) (products : List Product) where
  confirm_order-allowed :
      (affirmed confirmed : Bool) (d : Option OrderState) (s : ChatOrderSlots) (phone : String)
      → (confirmed ≡ true → (affirmed && may_place d) ≡ true)
      → allowed affirmed d (outcome_of (confirm_order r products confirmed s phone)) ≡ true
  unfolding confirm_order checkout_or_raise order_state_metadata
  confirm_order-allowed affirmed confirmed d s phone h =
      elim (Option-cases
        (normalize_payment_method (r.normalize_match_text (text_of s.payment_method)))) [
          | inl unknown ↦ ground arith
          | inr (payment, known) ↦ ground (arith, h)
        ]

  check_slots-allowed :
      (affirmed confirmed : Bool) (d : Option OrderState) (s : ChatOrderSlots)
      → (confirmed ≡ true → (affirmed && may_place d) ≡ true)
      → allowed affirmed d (outcome_of (check_slots r products confirmed s)) ≡ true
  unfolding check_slots order_state_metadata
  check_slots-allowed affirmed confirmed d s h = ground (
    arith,
    confirm_order-allowed affirmed confirmed d s (text_of (valid_phone r products s.customer_phone))
        h,
  )

  pub merge-account :
      (user : Option Profile) (s : ChatOrderSlots)
      → (merge_order_slots r.normalize_match_text
          (account_default_contact_slots user)
          (some s)).confirmed
        ≡ s.confirmed
  unfolding merge_order_slots merge_slots account_default_contact_slots
  merge-account none s = refl
  merge-account (some u) s = refl

  review-allowed :
      (affirmed : Bool) (d : Option OrderState) (reusable : Option ChatOrderSlots)
      (user : Option Profile) (s : ChatOrderSlots)
      → (s.confirmed ≡ true → (affirmed && may_place d) ≡ true)
      → allowed affirmed d (
          outcome_of
            (review r products (is_some d) reusable (account_default_contact_slots user) s))
        ≡ true
  unfolding review order_state_metadata should_confirm_reusable_contact
      should_confirm_account_contact
  review-allowed affirmed d reusable user s h =
      let filled =
        merge_order_slots r.normalize_match_text (account_default_contact_slots user) (some s) in
      let checked =
        check_slots-allowed affirmed filled.confirmed d filled
          (λ e. h (sym (merge-account user s) ∙ e)) in
      elim (Option-cases (bare_item r products s.items)) [
        | inl none_bare ↦ ground (arith, checked)
        | inr (i, bare) ↦ ground arith
      ]

  pub confirms_allowed :
      (d : Option OrderState) (affirmed resolved : Bool)
      → (not resolved || affirmed && may_place d) ≡ true
      → confirms d affirmed resolved ≡ true
      → (affirmed && may_place d) ≡ true
  unfolding confirms
  confirms_allowed none affirmed resolved h e = ground arith
  confirms_allowed (some s) affirmed resolved h e = ground arith

  some_status : (d : Option StateDocument) → is_some (status_of d) ≡ is_some d
  some_status none = refl
  some_status (some d) = refl

  finish_step-allowed :
      (t : Reading) (d : Option StateDocument) (conversation : List Message) (user : Option Profile)
      (step : Step)
      → is_fine r products (is_affirmation t.normalized) (status_of d) step ≡ true
      → allowed
          (is_affirmation t.normalized)
          (status_of d)
          (outcome_of (finish_step r products t d conversation user step))
        ≡ true
  unfolding finish_step
  finish_step-allowed t d conversation user (Step.reply answer) h = ground arith
  finish_step-allowed t d conversation user (Step.settled resolved s) h =
      let affirmed = is_affirmation t.normalized in
      ground (
        arith,
        some_status d,
        review-allowed affirmed (status_of d) (find_reusable_contact_slots r.strip conversation)
            user
            (record (with_cues r products t.content s) {
              confirmed = confirms (status_of d) affirmed resolved;
            })
            (confirms_allowed (status_of d) affirmed resolved h),
      )

  -- With its reading of the message, every answer to an order in progress, or to a first message of
  -- one, is a move of the abstract machine. So an order is placed only by an affirmation
  -- of its summary, or by one in the choice of a product.
  pub continue_order-Move :
      (d : Option StateDocument) (conversation : List Message) (user : Option Profile) (t : Reading)
      → Move
          (is_affirmation t.normalized)
          (status_of d)
          (outcome_of (continue_order r products d conversation user t))
  unfolding continue_order order_state_metadata
  continue_order-Move d conversation user t =
      allowed→Move (is_affirmation t.normalized) (status_of d)
        (outcome_of (continue_order r products d conversation user t))
        (ground (
          arith,
          some_status d,
          finish_step-allowed t d conversation user (step_of r products t d)
              (step_of_fine r products t d),
        ))
