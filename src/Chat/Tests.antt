-- ===== src/Chat/Tests.antt =====
-- Turns of the chat on the small store, and the theorems at these inputs.
use qiki.Base.{true, false, ◌≡◌, refl, none, some, [], ◌∷◌, Result, ok, err, arith}
use qiki.Models.Order.{OrderNumber, PaymentMethod}
use qiki.Stock.Levels.{ProductTable}
use qiki.Orders.Checkout.{CheckoutRequest}
use qiki.Orders.Fixture.{env, owner, shop}
use qiki.Chat.Slots.{ChatOrderSlots}
use qiki.Chat.Metadata.{OrderState, Document, slots_from_metadata, slots_to_metadata}
use qiki.Chat.Cues.{is_affirmation, is_order_cancel_request, normalize_payment_method}
use qiki.Chat.History.{Message, find_order_state}
use qiki.Chat.Review.{Reply, checkout_of, checkout_or_raise}
use qiki.Chat.Dialogue.{status_of}
use qiki.Chat.Handling.{read_message, continue_order, handle_chat_order}
use qiki.Chat.Turn.{
  ChatState, carry_out, chat_turn, customer_message, assistant_message, placed_slots,
}
use qiki.Chat.RoundTrip.{IsClean, slots_from_metadata-slots_to_metadata}
use qiki.Chat.Machine.{Move, outcome_of, may_place}
use qiki.Chat.Moves.{continue_order-Move}
use qiki.Chat.Placing.{IsReady, handle_chat_order-checkout}
use qiki.Chat.Plain.{IsPlainYes}
use qiki.Chat.Affirming.{IsPlacedOrRefused, handle_chat_order-review}
use qiki.Chat.Again.{carry_out-carry_out}
use qiki.Chat.Fixture.{one_elf, reader, catalog, summary, summarised, empty_chat, chat_code}

abbrev answer_of : Result Message → Message
answer_of (ok m) = m
answer_of (err e) = customer_message 0

-- A refusal holds the phrase "dong y" and counts as an affirmation.
refusal_affirms : is_affirmation "khong dong y" ≡ true
unfolding chat_code
refusal_affirms = refl

refusal_cancels : is_order_cancel_request "khong dong y" ≡ false
unfolding chat_code
refusal_cancels = refl

first_message : handle_chat_order reader catalog 10 [] [] none "1 elf" ≡ Reply.order_state summary
unfolding chat_code
first_message = refl

abbrev confirmed_elf : ChatOrderSlots
confirmed_elf = record one_elf { confirmed = true }

abbrev elf_checkout : CheckoutRequest
elf_checkout = checkout_of reader catalog one_elf "+84912345678" PaymentMethod.cod

abbrev SecondMessage : Type 0
SecondMessage =
    handle_chat_order reader catalog 20 summarised [] none "dong y"
    ≡ Reply.checkout elf_checkout confirmed_elf

second_message : SecondMessage
unfolding chat_code
second_message = refl

one_elf-IsClean : IsClean reader.strip one_elf
unfolding chat_code
one_elf-IsClean = record {
  items = (((refl, refl), refl, refl), tt);
  customer_name = (refl, refl);
  customer_phone = (refl, refl);
  delivery_address = (refl, refl);
  delivery_notes = tt;
  payment_method = (refl, refl);
}

dong_y-IsPlainYes : IsPlainYes reader catalog "dong y"
unfolding chat_code
dong_y-IsPlainYes = record {
  inferred = refl;
  extracted = refl;
  address = refl;
  phone = refl;
  payment = refl;
  name = λ payment. refl;
  delivery_time = refl;
  window = refl;
  affirms = refl;
  keeps = refl;
  no_change = refl;
}

continue_order-Move_example : Move true (some OrderState.awaiting_confirmation) (
    outcome_of (
      continue_order reader catalog
        (some summary)
        []
        none
        (read_message reader catalog (some summary) "dong y")))
unfolding chat_code
continue_order-Move_example =
    continue_order-Move reader catalog (some summary) [] none
      (read_message reader catalog (some summary) "dong y")

handle_chat_order-checkout_example :
    (is_affirmation "dong y" ≡ true)
    × (is_order_cancel_request "dong y" ≡ false)
    × (may_place (status_of (find_order_state 20 true summarised)) ≡ true)
    × IsReady reader catalog elf_checkout confirmed_elf
handle_chat_order-checkout_example =
    handle_chat_order-checkout reader catalog 20 summarised [] none "dong y" elf_checkout
      confirmed_elf second_message

handle_chat_order-review_example :
    (payment : PaymentMethod) × (normalize_payment_method "cod" ≡ some payment)
    × IsPlacedOrRefused reader catalog one_elf "+84912345678" payment
        (handle_chat_order reader catalog 20 summarised [] none "dong y")
unfolding chat_code
handle_chat_order-review_example =
    handle_chat_order-review reader catalog false none none one_elf 10 20 [] [] "dong y" refl refl
      one_elf-IsClean dong_y-IsPlainYes (ground arith)

-- More units than a line of a request may have.
abbrev many_elves : ChatOrderSlots
many_elves = record one_elf { items = record { product = some "Elf"; quantity = some 150 } ∷ [] }

too_many_elves :
    checkout_or_raise reader catalog many_elves "+84912345678" PaymentMethod.cod
    ≡ Reply.invalid_request
unfolding chat_code
too_many_elves = refl

slots_from_metadata-slots_to_metadata_example :
    slots_from_metadata reader.strip (slots_to_metadata one_elf) ≡ one_elf
slots_from_metadata-slots_to_metadata_example =
    slots_from_metadata-slots_to_metadata reader.strip one_elf one_elf-IsClean

abbrev bank_elf : ChatOrderSlots
bank_elf = record one_elf { customer_name = some "Binh"; payment_method = some "bank" }

abbrev bank_checkout : CheckoutRequest
bank_checkout = checkout_of reader catalog bank_elf "+84912345678" PaymentMethod.bank_transfer

abbrev placed_chat : ChatState
placed_chat =
    (carry_out reader catalog "c1" 20 env (some owner) (Reply.checkout elf_checkout one_elf)
      empty_chat).1

abbrev placed_answer : Message
placed_answer =
    answer_of
      (carry_out reader catalog "c1" 20 env (some owner) (Reply.checkout elf_checkout one_elf)
        empty_chat).0

shop_table : ProductTable shop
unfolding chat_code
shop_table = ground arith

carry_out-carry_out_example :
    (number : OrderNumber) × (placed_answer
      ≡ assistant_message 20 (
          Document.chat_order number
            (slots_to_metadata (placed_slots reader catalog elf_checkout one_elf))))
    × (let m = assistant_message 90 (
          Document.chat_order number
            (slots_to_metadata (placed_slots reader catalog bank_checkout bank_elf))) in
        carry_out reader catalog "c1" 90 env
          (some owner)
          (Reply.checkout bank_checkout bank_elf)
          (record placed_chat { messages = [] })
        ≡ (ok m, record placed_chat { messages = m ∷ [] }))
unfolding chat_code
carry_out-carry_out_example =
    carry_out-carry_out reader catalog "c1" 20 env (some owner) elf_checkout one_elf empty_chat
      placed_chat placed_answer 90 env (some owner) bank_checkout bank_elf [] shop_table refl refl
      refl refl

-- The same confirmation where the product is not in the table.
abbrev bare_chat : ChatState
bare_chat = record { store = record shop { products = [] }; messages = summarised }

abbrev failed_chat : ChatState
failed_chat = (chat_turn reader catalog "c1" 20 env (some owner) none "dong y" bare_chat).1
