-- ===== src/Support/Ordering.antt =====
-- What a turn of the chat may change in the shop (`_plan_response` of
-- backend/app/services/conversation_service.py).
use qiki.Base.{
  ℕ, true, false, Option, List, String, lookup, take, Result, ok, err, ◌≡◌, refl, sym, ◌⊎◌, inl,
  inr, arith, Option-cases, subst,
}
use qiki.Models.User.{User}
use qiki.Models.Product.{Product}
use qiki.Models.Order.{Order}
use qiki.Models.Store.{Store}
use qiki.Orders.Checkout.{CheckoutRequest, Surroundings, create_order}
use qiki.Chat.Slots.{ChatOrderSlots, Profile}
use qiki.Chat.Cues.{is_affirmation, is_order_cancel_request}
use qiki.Chat.History.{Message, find_order_state}
use qiki.Chat.Review.{Reply}
use qiki.Chat.Handling.{handle_chat_order}
use qiki.Chat.Dialogue.{status_of}
use qiki.Chat.Machine.{may_place}
use qiki.Chat.Placing.{IsReady, handle_chat_order-checkout}
use qiki.Chat.Turn.{ChatState, customer_message, chat_order_idempotency_key, carry_out, oldest}
use qiki.Support.Conversations.{Conversation}
use qiki.Support.Intent.{IntentResult, RoutingDecision, route_intent}
use qiki.Support.Understanding.{Understanding, understand}
use qiki.Support.Plan.{
  Desk, Branch, RagAnswer, messages_of, chat_of, back_to, say_in, escalate, branch_of,
  followup_note, planned, respond, carry_turn, plan_response,
}

module _ (k : Understanding) (products : List Product) (now : ℕ) (env : Surroundings)
    (user : Option User) (profile : Option Profile) (id : ℕ) (content : String) where
  -- An order is placed: by a message that affirms and does not cancel, when the order of the
  -- history may be placed, from slots that are complete and valid, by one call of the checkout.
  pub record IsPlacing (history : List Message) (before after : Store) : Type 0 where
    pub checkout : CheckoutRequest
    pub slots : ChatOrderSlots
    pub order : Order
    pub affirms : is_affirmation (k.reader.normalize_match_text content) ≡ true
    pub keeps : is_order_cancel_request (k.reader.normalize_match_text content) ≡ false
    pub waits : may_place (status_of (find_order_state now true history)) ≡ true
    pub ready : IsReady k.reader products checkout slots
    pub placed :
        create_order env checkout user
          (chat_order_idempotency_key k.reader (k.str_of_uuid id) slots)
          before
        ≡ (ok order, after)

  abbrev Kept : List Message → Store → Store → Type 0
  Kept history before after = (after ≡ before) ⊎ IsPlacing history before after

  carry_out-Kept :
      (history conversation : List Message) (reply : Reply) (s : ChatState)
      → handle_chat_order k.reader products now history conversation profile content ≡ reply
      → Kept history s.store
          (carry_out k.reader products (k.str_of_uuid id) now env user reply s).1.store
  unfolding carry_out
  carry_out-Kept history conversation (Reply.order_state d) s e = inl refl
  carry_out-Kept history conversation (Reply.post_order_change number slots) s e = inl refl
  carry_out-Kept history conversation Reply.invalid_request s e = inl refl
  carry_out-Kept history conversation (Reply.checkout c slots) s e =
      go
        (create_order env c user (chat_order_idempotency_key k.reader (k.str_of_uuid id) slots)
          s.store)
        refl
    where
      go :
          (x : Result Order × Store)
          → create_order env c user
              (chat_order_idempotency_key k.reader (k.str_of_uuid id) slots)
              s.store
            ≡ x
          → Kept history s.store
              (carry_out k.reader products
                (k.str_of_uuid id)
                now
                env
                user
                (Reply.checkout c slots)
                s).1.store
      go (err f, store) q = inl (ground (arith, q))
      go (ok o, store) q =
          let (affirms, keeps, waits, ready) =
            handle_chat_order-checkout k.reader products now history conversation profile content c
              slots e in
          inr record {
            checkout = c;
            slots = slots;
            order = o;
            affirms = affirms;
            keeps = keeps;
            waits = waits;
            ready = ready;
            placed = ground (arith, q);
          }

  back_to-store : (d : Desk) (r : Result Message × ChatState) → (back_to id d r).1.store ≡ r.1.store
  back_to-store d (err e, s) = refl
  back_to-store d (ok m, s) = refl

  respond-Kept :
      (history : List Message) (branch : Branch) (d : Desk)
      → Kept history d.store
          (respond k products now env user profile id content history branch d).1.store
  unfolding respond
  respond-Kept history Branch.emergency d = inl refl
  respond-Kept history (Branch.followup note) d = inl refl
  respond-Kept history Branch.handoff d = inl refl
  respond-Kept history Branch.clarification d = inl refl
  respond-Kept history Branch.inquiry d = inl refl
  respond-Kept history Branch.open_ended d = inl refl
  respond-Kept history Branch.order d =
      let conversation = oldest 200 (messages_of id d) in
      let reply = handle_chat_order k.reader products now history conversation profile content in
      subst (Kept history d.store)
        (sym (
          back_to-store d
            (carry_out k.reader products (k.str_of_uuid id) now env user reply (chat_of id d))))
        (carry_out-Kept history conversation reply (chat_of id d) refl)

  planned-desk :
      (intent : IntentResult) (routing : RoutingDecision) (branch : Branch)
      (r : Result (Option RagAnswer × Option Message) × Desk)
      → (planned k products intent routing branch r).1 ≡ r.1
  planned-desk intent routing branch (err e, d) = refl
  planned-desk intent routing branch (ok (answer, m), d) = refl

  escalate-store :
      (routing : RoutingDecision) (c : Conversation) (d : Desk)
      → (escalate now id routing c d).store ≡ d.store
  unfolding escalate
  escalate-store routing c d = ground arith

  carry_turn-Kept :
      (c : Conversation) (intent : IntentResult) (d : Desk)
      → Kept
          (take 10 (messages_of id d))
          d.store
          (carry_turn k products now env user profile id content c intent d).1.store
  unfolding carry_turn escalate
  carry_turn-Kept c intent d =
      let history = take 10 (messages_of id d) in
      let routing = route_intent d.users intent in
      let branch =
        branch_of k products content intent routing.requires_human
          (followup_note k products now history content intent.category) in
      let d' = escalate now id routing c (say_in id (customer_message now) d) in
      let r = respond k products now env user profile id content history branch d' in
      subst (λ (x : Desk). Kept history d.store x.store)
        (sym (planned-desk intent routing branch r))
        (subst (λ store. Kept history store r.1.store)
          (escalate-store routing c (say_in id (customer_message now) d))
          (respond-Kept history branch d'))

  -- A turn leaves the tables of the shop as they are, or it places one order: for a message that
  -- affirms and does not cancel, when the order of the recent messages waits for its
  -- confirmation or for the choice of a product, from slots that are complete and valid.
  pub plan_response-Placing :
      (d : Desk)
      → let after = (plan_response k products now env user profile id content d).1.store in
        (after ≡ d.store) ⊎ IsPlacing (take 10 (messages_of id d)) d.store after
  unfolding plan_response
  plan_response-Placing d = elim (Option-cases (lookup id d.conversations)) [
    | inl missing ↦ inl (ground arith)
    | inr (c, found) ↦
        let intent = understand k products now (take 10 (messages_of id d)) content in
        let same : plan_response k products now env user profile id content d
            ≡ carry_turn k products now env user profile id content c intent d =
          ground (arith, found) in
        subst (λ r. Kept (take 10 (messages_of id d)) d.store r.1.store) (sym same)
          (carry_turn-Kept c intent d)
  ]
