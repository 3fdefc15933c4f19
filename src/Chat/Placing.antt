-- ===== src/Chat/Placing.antt =====
-- What holds of a checkout that the chat places (`_handle_chat_order` of
-- backend/app/services/conversation_service.py).
use qiki.Base.{
  sym, ◌∙◌, ℕ, ◌≤◌, Bool, true, false, ◌&&◌, not, Option, none, some, List, [], ◌∷◌, String,
  is_some, any, subst, map, ◌≡◌, refl, inl, inr, Option-cases, arith,
}
use qiki.Models.Product.{Product}
use qiki.Orders.Checkout.{CheckoutRequest, OrderItemCreate}
use qiki.Chat.Slots.{
  ChatOrderItem, ChatOrderSlots, Profile, truthy, text_of, merge_order_slots,
  account_default_contact_slots,
}
use qiki.Chat.Metadata.{StateDocument}
use qiki.Chat.Cues.{
  is_affirmation, is_order_cancel_request, is_post_order_change_request, normalize_payment_method,
}
use qiki.Chat.Items.{Reader, is_empty}
use qiki.Chat.History.{Message, find_order_state, find_reusable_contact_slots, order_state_metadata}
use qiki.Chat.Review.{
  Reply, bare_item, match_order_items, matched_order_products, missing_order_slots, out_of_stock,
  line_of, checkout_of, is_accepted, checkout_or_raise, confirm_order, valid_phone, check_slots,
  review,
}
use qiki.Chat.Bounds.{IsAcceptable, is_accepted-IsAcceptable}
use qiki.Chat.Dialogue.{Reading, Step, status_of, step_of, confirms}
use qiki.Chat.Handling.{
  finish_step, continue_order, handle_chat_order, with_cues, placed_order, read_message,
}
use qiki.Chat.Machine.{may_place}
use qiki.Chat.Steps.{is_fine, step_of_fine}
use qiki.Chat.Moves.{merge-account, confirms_allowed}

module _ (r : Reader) (products : List Product) where
  -- The line is the product that the item names, in the item's quantity, which is on the shelf.
  abbrev pub IsLine : ChatOrderItem → OrderItemCreate → Type 0
  IsLine i l =
      (p : Product) × (r.match_product i.product products ≡ some p)
      × (l.product_id ≡ p.id)
      × (i.quantity ≡ some l.quantity)
      × (l.quantity ≤ p.stock_quantity)

  unfoldable pub AreLines : List ChatOrderItem → List OrderItemCreate → Type 0
  AreLines [] [] = Unit
  AreLines (i ∷ items) (l ∷ lines) = IsLine i l × AreLines items lines
  AreLines _ _ = ⊥

  -- The checkout is that of slots that are complete and valid.
  pub record IsReady (c : CheckoutRequest) (s : ChatOrderSlots) : Type 0 where
    pub lines : AreLines s.items c.items
    pub some_item : is_empty s.items ≡ false
    pub recipient : s.customer_name ≡ some c.customer_name
    pub normal : String
    pub normalised : r.validate_phone (text_of s.customer_phone) ≡ some normal
    pub phone : r.validate_phone normal ≡ some c.customer_phone
    pub accepted : IsAcceptable r products s
    pub address : s.delivery_address ≡ some c.delivery_address
    pub zone : r.resolves_delivery_zone c.delivery_address ≡ true
    pub khu_pho : r.khu_pho_is_valid c.delivery_address ≡ true
    pub payment :
        normalize_payment_method (r.normalize_match_text (text_of s.payment_method))
        ≡ some c.payment_method

  -- Every item matched and counted, and no line out of stock.
  items_AreLines :
      (items : List ChatOrderItem)
      → any (λ m. not (is_some m.1)) (match_order_items r products items) ≡ false
      → any (λ i. not (is_some i.quantity)) items ≡ false
      → any out_of_stock (matched_order_products (match_order_items r products items)) ≡ false
      → AreLines items (map line_of (matched_order_products (match_order_items r products items)))
  unfolding match_order_items matched_order_products AreLines
  items_AreLines [] h k o = tt
  items_AreLines (i ∷ items) h k o = elim (Option-cases (r.match_product i.product products)) [
    | inl unknown ↦ absurd (ground arith)
    | inr (p, known) ↦ elim (Option-cases i.quantity) [
      | inl unsaid ↦ absurd (ground arith)
      | inr (n, said) ↦
          let rest = items_AreLines items (ground arith) (ground arith) (ground arith) in
          rw known ((p, known, refl, ground (arith, said), ground (arith, said)), rest)
    ]
  ]

  confirm_order_inv :
      (confirmed : Bool) (s : ChatOrderSlots) (phone : String) (c : CheckoutRequest)
      (s' : ChatOrderSlots)
      → confirm_order r products confirmed s phone ≡ Reply.checkout c s'
      → (s' ≡ s)
        × (confirmed ≡ true)
        × (r.resolves_delivery_zone (text_of s.delivery_address) ≡ true)
        × (r.khu_pho_is_valid (text_of s.delivery_address) ≡ true)
        × (any out_of_stock (matched_order_products (match_order_items r products s.items)) ≡ false)
        × (normalize_payment_method (r.normalize_match_text (text_of s.payment_method))
            ≡ some c.payment_method)
        × (c ≡ checkout_of r products s c.customer_phone c.payment_method)
        × (r.validate_phone phone ≡ some c.customer_phone)
        × (is_accepted r products s ≡ true)
  unfolding confirm_order checkout_or_raise
  confirm_order_inv confirmed s phone c s' e =
      elim (Option-cases
        (normalize_payment_method (r.normalize_match_text (text_of s.payment_method)))) [
          | inl unknown ↦ absurd (ground arith)
          | inr (payment, known) ↦ elim (Option-cases (r.validate_phone phone)) [
            | inl bad ↦ absurd (ground arith)
            | inr (number, good) ↦ (
              ground arith,
              ground arith,
              ground arith,
              ground arith,
              ground arith,
              ground arith,
              ground arith,
              ground arith,
              ground arith,
            )
          ]
        ]

  missing_none :
      (s : ChatOrderSlots)
      → is_empty (missing_order_slots s (match_order_items r products s.items)) ≡ true
      → (is_empty s.items ≡ false)
        × (any (λ m. not (is_some m.1)) (match_order_items r products s.items) ≡ false)
        × (any (λ i. not (is_some i.quantity)) s.items ≡ false)
        × (truthy s.customer_name ≡ true)
        × (truthy s.customer_phone ≡ true)
        × (truthy s.delivery_address ≡ true)
  unfolding missing_order_slots
  missing_none s h = ground arith

  truthy-some : (o : Option String) → truthy o ≡ true → o ≡ some (text_of o)
  unfolding truthy
  truthy-some none h = absurd (ground arith)
  truthy-some (some t) h = refl

  valid_phone_lem :
      (o : Option String)
      → truthy o ≡ true
      → is_some (valid_phone r products o) ≡ true
      → r.validate_phone (text_of o) ≡ some (text_of (valid_phone r products o))
  valid_phone_lem o h k = elim (Option-cases (r.validate_phone (text_of o))) [
    | inl bad ↦ absurd (ground arith)
    | inr (p, good) ↦ ground arith
  ]

  check_slots-IsReady :
      (confirmed : Bool) (s : ChatOrderSlots) (c : CheckoutRequest) (s' : ChatOrderSlots)
      → check_slots r products confirmed s ≡ Reply.checkout c s'
      → (confirmed ≡ true) × (s' ≡ s) × IsReady c s
  unfolding check_slots order_state_metadata
  check_slots-IsReady confirmed s c s' e =
      let phone = text_of (valid_phone r products s.customer_phone) in
      let (full, named, counted, name, number, address) = missing_none s (ground arith) in
      let (same, yes_said, zone, khu_pho, stock, payment, shape, again, accepted) =
        confirm_order_inv confirmed s phone c s' (ground arith) in
      let lines = items_AreLines s.items named counted stock in
      (
        yes_said,
        same,
        record {
          lines = subst (λ c. AreLines s.items c.items) (sym shape) lines;
          some_item = full;
          recipient = ground (arith, shape, truthy-some s.customer_name name);
          normal = phone;
          normalised = valid_phone_lem s.customer_phone number (ground arith);
          phone = again;
          accepted = (is_accepted-IsAcceptable r products s).0 accepted;
          address = ground (arith, shape, truthy-some s.delivery_address address);
          zone = ground (arith, shape, zone);
          khu_pho = ground (arith, shape, khu_pho);
          payment = payment;
        },
      )

  review_inv :
      (in_order : Bool) (reusable : Option ChatOrderSlots) (user : Option Profile)
      (s : ChatOrderSlots) (c : CheckoutRequest) (s' : ChatOrderSlots)
      → review r products in_order reusable (account_default_contact_slots user) s
        ≡ Reply.checkout c s'
      → (s.confirmed ≡ true) × IsReady c s'
  unfolding review order_state_metadata
  review_inv in_order reusable user s c s' e =
      let filled =
        merge_order_slots r.normalize_match_text (account_default_contact_slots user) (some s) in
      elim (Option-cases (bare_item r products s.items)) [
        | inl none_bare ↦
            let (yes_said, same, ready) =
              check_slots-IsReady filled.confirmed filled c s' (ground arith) in
            (
              sym (merge-account r products user s) ∙ yes_said,
              subst (λ x. IsReady c x) (sym same) ready,
            )
        | inr (i, bare) ↦ absurd (ground arith)
      ]

  -- An answer that is no question comes from slots that a branch settled.
  finish_step_inv :
      (t : Reading) (d : Option StateDocument) (conversation : List Message) (user : Option Profile)
      (step : Step) (c : CheckoutRequest) (s' : ChatOrderSlots)
      → is_fine r products (is_affirmation t.normalized) (status_of d) step ≡ true
      → finish_step r products t d conversation user step ≡ Reply.checkout c s'
      → ((is_affirmation t.normalized && may_place (status_of d)) ≡ true) × IsReady c s'
  unfolding finish_step
  finish_step_inv t d conversation user (Step.reply answer) c s' h e = absurd (ground arith)
  finish_step_inv t d conversation user (Step.settled resolved s) c s' h e =
      let affirmed = is_affirmation t.normalized in
      let (yes_said, ready) =
        review_inv (is_some d) (find_reusable_contact_slots r.strip conversation) user
          (record (with_cues r products t.content s) {
            confirmed = confirms (status_of d) affirmed resolved;
          })
          c s' e in
      (confirms_allowed r products (status_of d) affirmed resolved h yes_said, ready)

  continue_order_inv :
      (t : Reading) (d : Option StateDocument) (conversation : List Message) (user : Option Profile)
      (c : CheckoutRequest) (s' : ChatOrderSlots)
      → continue_order r products d conversation user t ≡ Reply.checkout c s'
      → ((is_affirmation t.normalized && may_place (status_of d)) ≡ true)
        × (is_order_cancel_request t.normalized ≡ false)
        × IsReady c s'
  unfolding continue_order order_state_metadata
  continue_order_inv t d conversation user c s' e =
      let (placed, ready) =
        finish_step_inv t d conversation user (step_of r products t d) c s'
          (step_of_fine r products t d) (ground arith) in
      (placed, ground (arith, placed), ready)

  -- The chat places an order only for a message that affirms and does not cancel, in answer to the
  -- state of an order that waits for its confirmation or for the choice of a product. The checkout
  -- then has a line for every item, with its product of the catalog and its quantity, which is on the
  -- shelf. The recipient, the address, a valid phone number and a known payment method are those of
  -- the slots, and the address is in a zone of delivery and names a valid quarter where one is asked for.
  -- The request is within the bounds of its validators, which normalise the number once more.
  pub handle_chat_order-checkout :
      (now : ℕ) (history conversation : List Message) (user : Option Profile) (content : String)
      (c : CheckoutRequest) (s : ChatOrderSlots)
      → handle_chat_order r products now history conversation user content ≡ Reply.checkout c s
      → (is_affirmation (r.normalize_match_text content) ≡ true)
        × (is_order_cancel_request (r.normalize_match_text content) ≡ false)
        × (may_place (status_of (find_order_state now true history)) ≡ true)
        × IsReady c s
  unfolding handle_chat_order read_message
  handle_chat_order-checkout now history conversation user content c s e =
      let normalized = r.normalize_match_text content in
      let d = find_order_state now (is_affirmation normalized) history in
      let change =
        is_post_order_change_request (truthy (r.extract_payment_candidate content)) normalized in
      elim (Option-cases (placed_order r products change history)) [
        | inl nothing ↦
            let (placed, kept, ready) =
              continue_order_inv (read_message r products d content) d conversation user c s
                (ground arith) in
            (ground (arith, placed), kept, ground (arith, placed), ready)
        | inr (document, found) ↦ absurd (ground arith)
      ]
