-- ===== src/Chat/Affirming.antt =====
-- An order whose summary is affirmed (backend/app/services/conversation_service.py).
use qiki.Base.{
  ◌∙◌, sym, subst, ◌⊎◌, Bool-cases, ap, ℕ, ◌+◌, ◌≤◌, Bool, true, false, Option, none, some, List,
  ◌∷◌, String, any, ◌≡◌, refl, inl, inr, Option-cases, arith,
}
use qiki.Models.Product.{Product}
use qiki.Models.Order.{PaymentMethod}
use qiki.Chat.Slots.{
  ChatOrderSlots, Profile, truthy, text_of, merge_order_items, merge_slots, merge_order_slots,
  account_default_contact_slots,
}
use qiki.Chat.Metadata.{OrderState, StateDocument, Document}
use qiki.Chat.Cues.{is_affirmation, is_post_order_change_request, normalize_payment_method}
use qiki.Chat.Items.{Reader, is_empty}
use qiki.Chat.History.{
  Message, find_order_state, order_state_ttl, find_reusable_contact_slots, order_state_metadata,
  is_order_state_fresh, first_state,
}
use qiki.Chat.Review.{
  Reply, ask, bare_item, unmatched, match_order_items, checkout_of, is_accepted, checkout_or_raise,
  valid_phone, check_slots, confirm_order, review, should_confirm_reusable_contact,
  should_confirm_account_contact, missing_order_slots,
}
use qiki.Chat.Bounds.{IsAcceptable, is_accepted-IsAcceptable}
use qiki.Chat.Dialogue.{Step, new_items, step_of, confirms}
use qiki.Chat.Handling.{finish_step, read_message, continue_order, handle_chat_order}
use qiki.Chat.Moves.{merge-account}
use qiki.Chat.Turn.{assistant_message}
use qiki.Chat.RoundTrip.{IsClean, slots_from_order_state-order_state_metadata}
use qiki.Chat.Plain.{
  IsPlainYes, merge_order_items_nil, filled_by, filled_again, merge_blank, with_cues_plain,
  plain_reading, summary_of, read_plain,
}

module _ (r : Reader) (products : List Product) where
  -- Slots that the review summarises are placed when they are confirmed.
  check_slots_confirmed :
      (s : ChatOrderSlots)
      → check_slots r products false s ≡ ask OrderState.awaiting_confirmation s
      → (payment : PaymentMethod) × (normalize_payment_method
            (r.normalize_match_text (text_of s.payment_method))
          ≡ some payment)
        × (is_empty s.items ≡ false)
        × (check_slots r products true (record s { confirmed = true })
            ≡ checkout_or_raise r products
                (record s { confirmed = true })
                (text_of (valid_phone r products s.customer_phone))
                payment)
  unfolding check_slots confirm_order order_state_metadata missing_order_slots
  check_slots_confirmed s e =
      elim (Option-cases
        (normalize_payment_method (r.normalize_match_text (text_of s.payment_method)))) [
          | inl unknown ↦ absurd (ground arith)
          | inr (payment, known) ↦ (payment, known, ground arith, ground (arith, known))
        ]

  -- The request of confirmed slots is placed, or its validators refuse it.
  abbrev pub IsPlacedOrRefused : ChatOrderSlots → String → PaymentMethod → Reply → Type 0
  IsPlacedOrRefused s phone payment answer =
      ((number : String) × (r.validate_phone phone ≡ some number)
        × IsAcceptable r products s
        × (answer
            ≡ Reply.checkout (checkout_of r products s number payment)
                (record s { confirmed = true })))
      ⊎ (((r.validate_phone phone ≡ none) ⊎ (¬ IsAcceptable r products s))
          × (answer ≡ Reply.invalid_request))

  checkout_or_raise_lem :
      (s : ChatOrderSlots) (phone : String) (payment : PaymentMethod)
      → IsPlacedOrRefused s phone payment
          (checkout_or_raise r products (record s { confirmed = true }) phone payment)
  unfolding checkout_or_raise is_accepted
  checkout_or_raise_lem s phone payment = elim (Option-cases (r.validate_phone phone)) [
    | inl bad ↦ inr (inl bad, ground arith)
    | inr (number, good) ↦ elim (Bool-cases (is_accepted r products s)) [
      | inl fine ↦
          inl (number, good, (is_accepted-IsAcceptable r products s).0 fine, ground (arith, fine))
      | inr refused ↦ inr (
        inr (λ h. ground (arith, refused, (is_accepted-IsAcceptable r products s).1 h)),
        ground (arith, refused),
      )
    ]
  ]

  -- The review of slots that the account has filled and that no question keeps back is their check.
  review_filled :
      (reusable : Option ChatOrderSlots) (user : Option Profile) (s : ChatOrderSlots)
      → bare_item r products s.items ≡ none
      → any unmatched (match_order_items r products s.items) ≡ false
      → filled_by r products user s ≡ s
      → review r products true reusable (account_default_contact_slots user) s
        ≡ check_slots r products s.confirmed s
  unfolding review should_confirm_reusable_contact should_confirm_account_contact
  review_filled reusable user s no_bare matched filled = ground (arith, no_bare, matched, filled)

  -- A plain affirmation of clean slots settles them.
  new_items_plain :
      (content : String) (s : ChatOrderSlots)
      → IsClean r.strip s
      → new_items r products (plain_reading r products content s) ≡ Step.settled false s
  unfolding new_items
  new_items_plain content s clean = ap (Step.settled false) (merge_blank r products s clean)

  continue_plain :
      (conversation : List Message) (user : Option Profile) (content : String) (s : ChatOrderSlots)
      → IsPlainYes r products content
      → IsClean r.strip s
      → is_empty s.items ≡ false
      → continue_order r products
          (some (summary_of r products s))
          conversation
          user
          (read_message r products (some (summary_of r products s)) content)
        ≡ review r products true
            (find_reusable_contact_slots r.strip conversation)
            (account_default_contact_slots user)
            (record s { confirmed = true })
  unfolding continue_order step_of finish_step confirms order_state_metadata truthy
  continue_plain conversation user content s plain clean full =
      let s' : ChatOrderSlots = record s { confirmed = false } in
      let clean' : IsClean r.strip s' = record {
        items = clean.items;
        customer_name = clean.customer_name;
        customer_phone = clean.customer_phone;
        delivery_address = clean.delivery_address;
        delivery_notes = clean.delivery_notes;
        payment_method = clean.payment_method;
      } in
      rw
        (
          read_plain r products content (summary_of r products s) s' plain (
              slots_from_order_state-order_state_metadata r.strip OrderState.awaiting_confirmation s
                clean full),
          plain.keeps,
          plain.window,
          new_items_plain content s' clean',
          plain.affirms,
          with_cues_plain r products content s' plain clean',
        )
        refl

  filled_items :
      (user : Option Profile) (s : ChatOrderSlots) → (filled_by r products user s).items ≡ s.items
  unfolding merge_order_slots merge_slots account_default_contact_slots merge_order_items
  filled_items none s = merge_order_items_nil r products s.items
  filled_items (some u) s = merge_order_items_nil r products s.items

  -- A summary is sent only for slots that no question keeps back.
  review_summary :
      (in_order : Bool) (reusable : Option ChatOrderSlots) (user : Option Profile)
      (s : ChatOrderSlots)
      → s.confirmed ≡ false
      → review r products in_order reusable (account_default_contact_slots user) s
        ≡ ask OrderState.awaiting_confirmation (filled_by r products user s)
      → (bare_item r products s.items ≡ none)
        × (any unmatched (match_order_items r products s.items) ≡ false)
        × (check_slots r products false (filled_by r products user s)
            ≡ ask OrderState.awaiting_confirmation (filled_by r products user s))
  unfolding review order_state_metadata
  review_summary in_order reusable user s unconfirmed e =
      let same = merge-account r products user s in
      elim (Option-cases (bare_item r products s.items)) [
        | inl none_bare ↦ (none_bare, ground arith, ground (arith, same))
        | inr (i, bare) ↦ absurd (ground arith)
      ]

  find_summary :
      (sent now : ℕ) (s : ChatOrderSlots) (history : List Message)
      → now ≤ sent + order_state_ttl
      → find_order_state now true
          (assistant_message sent (Document.chat_order_state (summary_of r products s)) ∷ history)
        ≡ some (summary_of r products s)
  unfolding find_order_state first_state is_order_state_fresh order_state_metadata
  find_summary sent now s history soon = ground arith

  -- A message that asks for no change of a placed order continues the order in progress.
  handle_chat_order-continue_order :
      (now : ℕ) (history conversation : List Message) (user : Option Profile) (content : String)
      (d : Option StateDocument)
      → is_post_order_change_request
          (truthy (r.extract_payment_candidate content))
          (r.normalize_match_text content)
        ≡ false
      → find_order_state now (is_affirmation (r.normalize_match_text content)) history ≡ d
      → handle_chat_order r products now history conversation user content
        ≡ continue_order r products d conversation user (read_message r products d content)
  unfolding handle_chat_order
  handle_chat_order-continue_order now history conversation user content d no_change found =
      rw (no_change, found, handle_chat_order) refl

  -- Take unconfirmed slots whose review, with the contact of the customer's account, ended in a summary,
  -- and a message that comes within thirty minutes of it, affirms and reads as nothing else. If the
  -- request of the summarised slots is within the bounds of its validators (at least one line, each
  -- of 1 to 100 units, a name of 2 to 255 characters, an address of 5 to 500, notes of at most
  -- 1000) and its normal phone number validates again, the message places exactly the summarised
  -- slots with a known payment method, whatever else the conversation holds; if not, the request
  -- is refused. The summarised slots are clean: their texts have no blanks around them and are
  -- not empty, their quantities are not zero, and each item has a product or a quantity.
  pub handle_chat_order-review :
      (in_order : Bool) (reusable : Option ChatOrderSlots) (user : Option Profile)
      (s : ChatOrderSlots) (sent now : ℕ) (history conversation : List Message) (content : String)
      → s.confirmed ≡ false
      → review r products in_order reusable (account_default_contact_slots user) s
        ≡ ask OrderState.awaiting_confirmation (filled_by r products user s)
      → IsClean r.strip (filled_by r products user s)
      → IsPlainYes r products content
      → now ≤ sent + order_state_ttl
      → (payment : PaymentMethod) × (normalize_payment_method
            (r.normalize_match_text (text_of (filled_by r products user s).payment_method))
          ≡ some payment)
        × IsPlacedOrRefused
            (filled_by r products user s)
            (text_of (valid_phone r products (filled_by r products user s).customer_phone))
            payment
            (handle_chat_order r products now
              (assistant_message sent
                  (Document.chat_order_state (summary_of r products (filled_by r products user s)))
                ∷ history)
              conversation
              user
              content)
  unfolding truthy
  handle_chat_order-review in_order reusable user s sent now history conversation content
        unconfirmed e clean plain soon =
      let filled = filled_by r products user s in
      let (no_bare, matched, checked) = review_summary in_order reusable user s unconfirmed e in
      let (payment, known, full, placed) = check_slots_confirmed filled checked in
      let phone = text_of (valid_phone r products filled.customer_phone) in
      let answered =
        handle_chat_order-continue_order now
          (assistant_message sent (Document.chat_order_state (summary_of r products filled))
            ∷ history)
          conversation user content (some (summary_of r products filled))
          (ap (λ p. is_post_order_change_request (truthy p) (r.normalize_match_text content))
              plain.payment
            ∙ plain.no_change)
          (ap
              (λ a. find_order_state now a (
                assistant_message sent (Document.chat_order_state (summary_of r products filled))
                ∷ history))
              plain.affirms
            ∙ find_summary sent now filled history soon)
        ∙ continue_plain conversation user content filled plain clean full
        ∙ review_filled (find_reusable_contact_slots r.strip conversation) user
            (record filled { confirmed = true })
            (ap (bare_item r products) (filled_items user s) ∙ no_bare)
            (ap (λ items. any unmatched (match_order_items r products items)) (filled_items user s)
              ∙ matched)
            (filled_again r products user true s)
        ∙ placed in
      (
        payment,
        known,
        subst (IsPlacedOrRefused filled phone payment) (sym answered)
            (checkout_or_raise_lem filled phone payment),
      )
