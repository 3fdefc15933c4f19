-- ===== src/Chat/Machine.antt =====
-- The dialogue of an order as an abstract machine: the states that `_handle_chat_order` of
-- backend/app/services/conversation_service.py may ask for, and when an order may be placed.
use qiki.Base.{Bool, true, false, ◌&&◌, not, Option, none, some, is_some, ◌≡◌, refl, arith}
use qiki.Chat.Metadata.{OrderState}
use qiki.Chat.Review.{Reply}

-- How a message ends: with a state of the order, with a note on a placed order, with a placed order,
-- or with a request that its validators refuse.
pub data Outcome : Type 0 where
  asked : OrderState → Outcome
  noted placed failed : Outcome

abbrev pub outcome_of : Reply → Outcome
outcome_of (Reply.order_state d) = Outcome.asked d.status
outcome_of (Reply.post_order_change number slots) = Outcome.noted
outcome_of (Reply.checkout c s) = Outcome.placed
outcome_of Reply.invalid_request = Outcome.failed

-- The moves of the machine, from the state of the order, by a message that affirms or not.
pub data Move (affirmed : Bool) : Option OrderState → Outcome → Type 0 where
  -- Any question about the order, and its summary, may come at any time.
  ask_slots : (s : Option OrderState) → Move affirmed s (asked OrderState.awaiting_missing_slots)
  ask_product : (s : Option OrderState) → Move affirmed s (asked OrderState.awaiting_product_choice)
  ask_change :
      (s : Option OrderState)
      → Move affirmed s (asked OrderState.awaiting_product_change_confirmation)
  ask_place : (s : Option OrderState) → Move affirmed s (asked OrderState.awaiting_add_or_replace)
  summarise : (s : Option OrderState) → Move affirmed s (asked OrderState.awaiting_confirmation)
  -- A known contact is offered only by the first message of an order.
  offer_contact : Move affirmed none (asked OrderState.awaiting_reused_contact_confirmation)
  offer_account : Move affirmed none (asked OrderState.awaiting_account_contact_confirmation)
  -- Only an order in progress is cancelled.
  cancel : (s : OrderState) → Move affirmed (some s) (asked OrderState.order_cancelled)
  -- Only an affirmation places the order: of its summary, or in the choice of a product.
  place : affirmed ≡ true → Move affirmed (some OrderState.awaiting_confirmation) placed
  place_rest : affirmed ≡ true → Move affirmed (some OrderState.awaiting_product_choice) placed
  -- What would be placed may be refused instead.
  fail : affirmed ≡ true → Move affirmed (some OrderState.awaiting_confirmation) failed
  fail_rest : affirmed ≡ true → Move affirmed (some OrderState.awaiting_product_choice) failed

abbrev pub may_place : Option OrderState → Bool
may_place (some OrderState.awaiting_confirmation) = true
may_place (some OrderState.awaiting_product_choice) = true
may_place _ = false

-- The same moves as a test.
abbrev pub allowed : Bool → Option OrderState → Outcome → Bool
allowed affirmed s (asked OrderState.awaiting_reused_contact_confirmation) = not (is_some s)
allowed affirmed s (asked OrderState.awaiting_account_contact_confirmation) = not (is_some s)
allowed affirmed s (asked OrderState.order_cancelled) = is_some s
allowed affirmed s (asked _) = true
allowed affirmed s noted = false
allowed affirmed s placed = affirmed && may_place s
allowed affirmed s failed = affirmed && may_place s

pub allowed→Move :
    (affirmed : Bool) (s : Option OrderState) (o : Outcome)
    → allowed affirmed s o ≡ true
    → Move affirmed s o
allowed→Move affirmed s (asked OrderState.awaiting_missing_slots) h = ask_slots s
allowed→Move affirmed s (asked OrderState.awaiting_product_choice) h = ask_product s
allowed→Move affirmed s (asked OrderState.awaiting_product_change_confirmation) h = ask_change s
allowed→Move affirmed s (asked OrderState.awaiting_add_or_replace) h = ask_place s
allowed→Move affirmed s (asked OrderState.awaiting_confirmation) h = summarise s
allowed→Move affirmed none (asked OrderState.awaiting_reused_contact_confirmation) h = offer_contact
allowed→Move affirmed (some s) (asked OrderState.awaiting_reused_contact_confirmation) h =
    absurd (ground arith)
allowed→Move affirmed none (asked OrderState.awaiting_account_contact_confirmation) h =
    offer_account
allowed→Move affirmed (some s) (asked OrderState.awaiting_account_contact_confirmation) h =
    absurd (ground arith)
allowed→Move affirmed none (asked OrderState.order_cancelled) h = absurd (ground arith)
allowed→Move affirmed (some s) (asked OrderState.order_cancelled) h = cancel s
allowed→Move affirmed s noted h = absurd (ground arith)
allowed→Move true (some OrderState.awaiting_confirmation) placed h = place refl
allowed→Move true (some OrderState.awaiting_product_choice) placed h = place_rest refl
allowed→Move affirmed s placed h = absurd (ground arith)
allowed→Move true (some OrderState.awaiting_confirmation) failed h = fail refl
allowed→Move true (some OrderState.awaiting_product_choice) failed h = fail_rest refl
allowed→Move affirmed s failed h = absurd (ground arith)
