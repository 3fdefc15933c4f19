-- ===== src/Chat/Again.antt =====
-- A checkout of the chat that is sent again, and one that fails
-- (backend/app/services/conversation_service.py, with backend/app/services/order_service.py).
use qiki.Base.{
  take, ◌∙◌, ap, ℕ, Option, List, ◌∷◌, String, Result, ok, err, Error, ◌≡◌, refl, arith,
}
use qiki.Models.User.{User}
use qiki.Models.Product.{Product}
use qiki.Models.Order.{Order, OrderNumber}
use qiki.Models.Store.{Store}
use qiki.Orders.Checkout.{CheckoutRequest, Surroundings, create_order}
use qiki.Stock.Levels.{ProductTable}
use qiki.Orders.Create.{create_order_replay}
use qiki.Chat.Slots.{ChatOrderSlots, Profile}
use qiki.Chat.Metadata.{Document, slots_to_metadata}
use qiki.Chat.Items.{Reader}
use qiki.Chat.History.{Message}
use qiki.Chat.Review.{Reply}
use qiki.Chat.Handling.{handle_chat_order}
use qiki.Chat.Turn.{
  oldest, ChatState, chat_order_idempotency_key, assistant_message, customer_message, placed_slots,
  say, carry_out, chat_turn,
}

module _ (r : Reader) (products : List Product) (conversation_id : String) where
  -- The key of a checkout is made of the items, the phone number and the address.
  same_key :
      (a b : ChatOrderSlots)
      → b.items ≡ a.items
      → b.customer_phone ≡ a.customer_phone
      → b.delivery_address ≡ a.delivery_address
      → chat_order_idempotency_key r conversation_id b
        ≡ chat_order_idempotency_key r conversation_id a
  unfolding chat_order_idempotency_key
  same_key a b items phone address = rw (items, phone, address) refl

  placed_message :
      (now : ℕ) (env : Surroundings) (user : Option User) (c : CheckoutRequest)
      (slots : ChatOrderSlots) (s s' : ChatState) (m : Message)
      → carry_out r products conversation_id now env user (Reply.checkout c slots) s ≡ (ok m, s')
      → (o : Order) × (create_order env c user
            (chat_order_idempotency_key r conversation_id slots)
            s.store
          ≡ (ok o, s'.store))
        × (m
            ≡ assistant_message now (
                Document.chat_order o.order_number
                  (slots_to_metadata (placed_slots r products c slots))))
  unfolding carry_out
  placed_message now env user c slots s s' m e =
      go (create_order env c user (chat_order_idempotency_key r conversation_id slots) s.store) refl
    where
      go :
          (x : Result Order × Store)
          → create_order env c user (chat_order_idempotency_key r conversation_id slots) s.store ≡ x
          → (o : Order) × (create_order env c user
                (chat_order_idempotency_key r conversation_id slots)
                s.store
              ≡ (ok o, s'.store))
            × (m
                ≡ assistant_message now (
                    Document.chat_order o.order_number
                      (slots_to_metadata (placed_slots r products c slots))))
      go (err failure, store) ran = absurd (ground arith)
      go (ok o, store) ran = (o, ground (arith, ran), ground (arith, ran))

  carry_out_ok :
      (now : ℕ) (env : Surroundings) (user : Option User) (c : CheckoutRequest)
      (slots : ChatOrderSlots) (s : ChatState) (o : Order) (store : Store)
      → create_order env c user (chat_order_idempotency_key r conversation_id slots) s.store
        ≡ (ok o, store)
      → let m = assistant_message now (
          Document.chat_order o.order_number
            (slots_to_metadata (placed_slots r products c slots))) in
        carry_out r products conversation_id now env user (Reply.checkout c slots) s
        ≡ (ok m, say m (record s { store = store }))
  unfolding carry_out
  carry_out_ok now env user c slots s o store ran = ground (arith, ran)

  -- After an order of the chat, a checkout in the same conversation with the same items, phone number
  -- and address, whatever its recipient, its notes and its payment, adds no order: it is answered
  -- with the number of the first one, no table changes, and its message says that the order was
  -- placed with the new slots. The rows of the products stand under their ids.
  pub carry_out-carry_out :
      (now : ℕ) (env : Surroundings) (user : Option User) (c : CheckoutRequest)
      (slots : ChatOrderSlots) (s s' : ChatState) (m : Message) (now' : ℕ) (env' : Surroundings)
      (user' : Option User) (c' : CheckoutRequest) (slots' : ChatOrderSlots)
      (messages : List Message)
      → ProductTable s.store
      → carry_out r products conversation_id now env user (Reply.checkout c slots) s ≡ (ok m, s')
      → slots'.items ≡ slots.items
      → slots'.customer_phone ≡ slots.customer_phone
      → slots'.delivery_address ≡ slots.delivery_address
      → (number : OrderNumber) × (m
          ≡ assistant_message now
              (Document.chat_order number (slots_to_metadata (placed_slots r products c slots))))
        × (let m' = assistant_message now' (
              Document.chat_order number (slots_to_metadata (placed_slots r products c' slots'))) in
            carry_out r products conversation_id now' env' user'
              (Reply.checkout c' slots')
              (record s' { messages = messages })
            ≡ (ok m', record s' { messages = m' ∷ messages }))
  carry_out-carry_out now env user c slots s s' m now' env' user' c' slots' messages table run items
        phone address =
      let (o, ran, said) = placed_message now env user c slots s s' m run in
      let key = chat_order_idempotency_key r conversation_id slots in
      let again = (create_order_replay env c user key s.store table ran env' c' user').1 in
      (
        o.order_number,
        said,
        carry_out_ok now' env' user' c' slots' (record s' { messages = messages }) o s'.store
            (ap (λ k. create_order env' c' user' k s'.store)
                (same_key slots slots' items phone address)
              ∙ again),
      )

  carry_out_err :
      (now : ℕ) (env : Surroundings) (user : Option User) (answer : Reply) (s s' : ChatState)
      (e : Error)
      → carry_out r products conversation_id now env user answer s ≡ (err e, s')
      → s' ≡ s
  unfolding carry_out
  carry_out_err now env user (Reply.order_state d) s s' e run = absurd (ground arith)
  carry_out_err now env user (Reply.post_order_change number slots) s s' e run =
      absurd (ground arith)
  carry_out_err now env user Reply.invalid_request s s' e run = ground arith
  carry_out_err now env user (Reply.checkout c slots) s s' e run =
      go (create_order env c user (chat_order_idempotency_key r conversation_id slots) s.store) refl
    where
      go :
          (x : Result Order × Store)
          → create_order env c user (chat_order_idempotency_key r conversation_id slots) s.store ≡ x
          → s' ≡ s
      go (err failure, store) ran = ground (arith, ran)
      go (ok o, store) ran = absurd (ground (arith, ran))

  -- A message that ends in an error places nothing: the tables are as they were, and the session holds
  -- the message of the customer and nothing else that is new.
  chat_turn_err :
      (now : ℕ) (env : Surroundings) (user : Option User) (profile : Option Profile)
      (content : String) (s s' : ChatState) (e : Error)
      → chat_turn r products conversation_id now env user profile content s ≡ (err e, s')
      → s' ≡ say (customer_message now) s
  unfolding chat_turn
  chat_turn_err now env user profile content s s' e run =
      carry_out_err now env user
        (handle_chat_order r products now (take 10 s.messages)
          (oldest 200 (customer_message now ∷ s.messages)) profile content)
        (say (customer_message now) s) s' e run
