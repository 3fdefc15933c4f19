-- ===== src/Chat/Plain.antt =====
-- A message that affirms and says nothing else, and how slots are merged with it
-- (backend/app/services/conversation_service.py).
use qiki.Base.{Bool, true, false, ◌||◌, Option, none, some, List, [], ◌∷◌, String, ◌≡◌, refl, arith}
use qiki.Models.Product.{Product}
use qiki.Chat.Slots.{
  ChatOrderItem, ChatOrderSlots, Profile, no_slots, truthy, or_else, merge_order_items, merge_slots,
  merge_order_slots, account_default_contact_slots,
}
use qiki.Chat.Metadata.{OrderState, StateDocument}
use qiki.Chat.Cues.{is_affirmation, is_order_cancel_request, is_post_order_change_request}
use qiki.Chat.Items.{Reader, combine_current_message_slots, combine_items}
use qiki.Chat.History.{slots_from_order_state, order_state_metadata}
use qiki.Chat.Dialogue.{Reading}
use qiki.Chat.Handling.{
  with_cues, with_phone_candidate, with_order_cues, with_delivery_time_candidate, read_message,
}
use qiki.Chat.RoundTrip.{IsText, IsClean}

module _ (r : Reader) (products : List Product) where
  -- A message that affirms, and that reads as nothing else.
  pub record IsPlainYes (content : String) : Type 0 where
    pub inferred : r.infer_order_slots content products ≡ no_slots
    pub extracted : r.extract_order_slots content products ≡ no_slots
    pub address : r.order_address none content ≡ none
    pub phone : r.extract_phone_candidate content ≡ none
    pub payment : r.extract_payment_candidate content ≡ none
    pub name : (payment : Option String) → r.extract_name_candidate content payment ≡ none
    pub delivery_time : r.extract_delivery_time_candidate content ≡ none
    pub window : r.extract_ambiguous_delivery_time_window content ≡ none
    pub affirms : is_affirmation (r.normalize_match_text content) ≡ true
    pub keeps : is_order_cancel_request (r.normalize_match_text content) ≡ false
    pub no_change : is_post_order_change_request false (r.normalize_match_text content) ≡ false

  or_else_text : (o : Option String) → IsText r.strip o → or_else o none ≡ o
  unfolding or_else truthy
  or_else_text none h = refl
  or_else_text (some t) (same, there) = rw there refl

  or_else_blank : (o : Option String) → or_else none o ≡ o
  unfolding or_else truthy
  or_else_blank o = refl

  or_else_twice : (o a : Option String) → or_else (or_else o a) a ≡ or_else o a
  unfolding or_else
  or_else_twice o a = ground arith

  pub merge_order_items_nil :
      (items : List ChatOrderItem) → merge_order_items r.normalize_match_text [] items ≡ items
  unfolding merge_order_items
  merge_order_items_nil [] = refl
  merge_order_items_nil (i ∷ items) = refl

  merge_order_items_none :
      (items : List ChatOrderItem) → merge_order_items r.normalize_match_text items [] ≡ items
  unfolding merge_order_items
  merge_order_items_none [] = refl
  merge_order_items_none (i ∷ items) = refl

  abbrev pub filled_by : Option Profile → ChatOrderSlots → ChatOrderSlots
  filled_by user s =
      merge_order_slots r.normalize_match_text (account_default_contact_slots user) (some s)

  -- Slots that the account has filled are not changed by it again.
  pub filled_again :
      (user : Option Profile) (confirmed : Bool) (s : ChatOrderSlots)
      → filled_by user (record (filled_by user s) { confirmed = confirmed })
        ≡ record (filled_by user s) { confirmed = confirmed }
  unfolding merge_order_slots merge_slots account_default_contact_slots merge_order_items
  filled_again none confirmed s =
      rw
        (
          merge_order_items_nil s.items,
          merge_order_items_nil s.items,
          or_else_twice s.customer_name none,
          or_else_twice s.customer_phone none,
          or_else_twice s.delivery_address none,
          or_else_twice s.delivery_notes none,
          or_else_twice s.payment_method none,
        )
        refl
  filled_again (some u) confirmed s =
      rw
        (
          merge_order_items_nil s.items,
          merge_order_items_nil s.items,
          or_else_twice s.customer_name (or_else u.full_name none),
          or_else_twice s.customer_phone (or_else u.phone none),
          or_else_twice s.delivery_address (or_else u.address none),
          or_else_twice s.delivery_notes (or_else u.delivery_notes none),
          or_else_twice s.payment_method (or_else none none),
        )
        refl

  or_false : (b : Bool) → (b || false) ≡ b
  or_false true = refl
  or_false false = refl

  -- A message without slots leaves clean slots as they are.
  pub merge_blank :
      (s : ChatOrderSlots)
      → IsClean r.strip s
      → merge_order_slots r.normalize_match_text (some s) (some no_slots) ≡ s
  unfolding merge_order_slots merge_slots
  merge_blank s h =
      rw
        (
          merge_order_items_nil s.items,
          merge_order_items_none s.items,
          or_else_text s.customer_name h.customer_name,
          or_else_text s.customer_phone h.customer_phone,
          or_else_text s.delivery_address h.delivery_address,
          or_else_text s.delivery_notes h.delivery_notes,
          or_else_text s.payment_method h.payment_method,
          or_else_blank s.customer_name,
          or_else_blank s.customer_phone,
          or_else_blank s.delivery_address,
          or_else_blank s.delivery_notes,
          or_else_blank s.payment_method,
          or_false s.confirmed,
        )
        refl

  pub with_cues_plain :
      (content : String) (s : ChatOrderSlots)
      → IsPlainYes content
      → IsClean r.strip s
      → with_cues r products content s ≡ s
  unfolding with_phone_candidate with_order_cues with_delivery_time_candidate truthy
  with_cues_plain content s plain clean =
      rw
        (
          plain.phone,
          plain.payment,
          plain.delivery_time,
          or_else_text s.payment_method clean.payment_method,
          plain.name s.payment_method,
          or_else_text s.delivery_notes clean.delivery_notes,
          or_else_blank s.customer_name,
        )
        refl

  abbrev pub plain_reading : String → ChatOrderSlots → Reading
  plain_reading content s = record {
    content = content;
    normalized = r.normalize_match_text content;
    previous = some s;
    candidates = [];
    contact = no_slots;
  }

  abbrev pub summary_of : ChatOrderSlots → StateDocument
  summary_of s = order_state_metadata OrderState.awaiting_confirmation (some s) [] []

  pub read_plain :
      (content : String) (d : StateDocument) (s : ChatOrderSlots)
      → IsPlainYes content
      → slots_from_order_state r.strip (some d) ≡ some s
      → read_message r products (some d) content ≡ record {
        content = content;
        normalized = r.normalize_match_text content;
        previous = some s;
        candidates = [];
        contact = no_slots;
      }
  unfolding read_message combine_current_message_slots combine_items
  read_plain content d s plain kept = rw (plain.inferred, plain.extracted, plain.address, kept) refl
