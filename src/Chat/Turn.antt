-- ===== src/Chat/Turn.antt =====
-- A message of the chat with its effects: the checkout of a confirmed order and the assistant's
-- message (backend/app/services/conversation_service.py).
use Prim.Native.String.{◌++◌ as str_append}
use qiki.Base.{
  ℕ, ◌-◌, zero, suc, Bool, true, false, Option, some, List, [], ◌∷◌, String, ok, err, Error, Action,
  take, length, leb, if◌then◌else◌,
}
use text.Mathlib.Text.{◌==◌ as str_eq, is_lt}
use Prim.Native.String.{compare}
use qiki.Models.User.{User}
use qiki.Models.Product.{Product}
use qiki.Models.Order.{PaymentMethod}
use qiki.Models.Store.{Store}
use qiki.Orders.Checkout.{CheckoutRequest, Surroundings, create_order, get_or_zero}
use qiki.Chat.Slots.{ChatOrderItem, ChatOrderSlots, Profile, nonzero, text_of}
use qiki.Chat.Metadata.{Document, slots_to_metadata}
use qiki.Chat.Items.{Reader}
use qiki.Chat.History.{Message, MessageRole}
use qiki.Chat.Review.{Reply, valid_phone}
use qiki.Chat.Handling.{handle_chat_order}

-- One conversation with the tables of the shop. Messages stand newest first.
pub record ChatState : Type 0 where
  pub store : Store
  pub messages : List Message

-- The order of the fingerprint: by product, then by quantity.
abbrev item_before : ChatOrderItem → ChatOrderItem → Bool
item_before a b =
    if is_lt (compare (text_of a.product) (text_of b.product))
    then true
    else if str_eq (text_of a.product) (text_of b.product)
    then leb (get_or_zero a.quantity) (get_or_zero b.quantity)
    else false

unfoldable pub insert_item : ChatOrderItem → List ChatOrderItem → List ChatOrderItem
insert_item i [] = i ∷ []
insert_item i (j ∷ items) =
    let rest = insert_item i items in if item_before i j then i ∷ j ∷ items else j ∷ rest

-- `sorted(slots.items, key=...)`
unfoldable pub sorted_items : List ChatOrderItem → List ChatOrderItem
sorted_items [] = []
sorted_items (i ∷ items) = insert_item i (sorted_items items)

-- `"|".join(texts)`
unfoldable pub join : List String → String
join [] = ""
join (t ∷ []) = t
join (t ∷ u ∷ texts) = str_append t (str_append "|" (join (u ∷ texts)))

module _ (r : Reader) where
  abbrev quantity_text : Option ℕ → String
  quantity_text q = if nonzero q then r.str_of_int (get_or_zero q) else ""

  unfoldable pub item_texts : List ChatOrderItem → List String
  item_texts [] = []
  item_texts (i ∷ items) =
      str_append (text_of i.product) (str_append ":" (quantity_text i.quantity)) ∷ item_texts items

  unfoldable pub chat_order_idempotency_key : String → ChatOrderSlots → ℕ
  chat_order_idempotency_key conversation_id s = r.uuid5 (
      str_append "chat-order:" (
        join (
          conversation_id
          ∷ join (item_texts (sorted_items s.items))
          ∷ text_of s.customer_phone
          ∷ text_of s.delivery_address
          ∷ [])))

abbrev pub assistant_message : ℕ → Document → Message
assistant_message now d = record {
  role = MessageRole.assistant;
  created_at = now;
  retrieved_documents = d ∷ [];
}

abbrev pub customer_message : ℕ → Message
customer_message now = record {
  role = MessageRole.user;
  created_at = now;
  retrieved_documents = [];
}

abbrev payment_text : PaymentMethod → String
payment_text PaymentMethod.cod = "cod"
payment_text PaymentMethod.bank_transfer = "bank_transfer"

-- The slots as the placed order keeps them: with the number as it was normalised first.
abbrev pub placed_slots : Reader → List Product → CheckoutRequest → ChatOrderSlots → ChatOrderSlots
placed_slots r products c s = record s {
  customer_phone = valid_phone r products s.customer_phone;
  payment_method = some (payment_text c.payment_method);
}

abbrev pub say : Message → ChatState → ChatState
say m s = record s { messages = m ∷ s.messages }

-- `list_by_conversation(skip=0, limit=200)`: the oldest messages.
unfoldable pub drop {ℓ} : {A : Type ℓ} → ℕ → List A → List A
drop zero xs = xs
drop (suc n) [] = []
drop (suc n) (x ∷ xs) = drop n xs

abbrev pub oldest : ℕ → List Message → List Message
oldest limit messages = drop (length messages - limit) messages

module _ (r : Reader) (products : List Product) (conversation_id : String) where
  -- The state of the session at the return or the raise. The customer's message is committed before the
  -- checkout, which may raise; a request that the validators refuse raises before that commit,
  -- so that the session's end drops the message.
  unfoldable pub carry_out : ℕ → Surroundings → Option User → Reply → Action ChatState Message
  carry_out now env user (Reply.order_state d) s =
      let m = assistant_message now (Document.chat_order_state d) in (ok m, say m s)
  carry_out now env user (Reply.post_order_change number slots) s =
      let m = assistant_message now (Document.chat_order number slots) in (ok m, say m s)
  carry_out now env user (Reply.checkout c slots) s =
      let (result, store) =
        create_order env c user (chat_order_idempotency_key r conversation_id slots) s.store in
      elim result [
        | err e ↦ (err e, s)
        | ok o ↦
            let m = assistant_message now (
              Document.chat_order o.order_number
                (slots_to_metadata (placed_slots r products c slots))) in
            (ok m, say m (record s { store = store }))
      ]
  carry_out now env user Reply.invalid_request s = (err Error.internal_error, s)

  unfoldable pub chat_turn :
      ℕ → Surroundings → Option User → Option Profile → String → Action ChatState Message
  chat_turn now env user profile content s =
      carry_out now env user
        (handle_chat_order r products now (take 10 s.messages)
          (oldest 200 (customer_message now ∷ s.messages)) profile content)
        (say (customer_message now) s)
