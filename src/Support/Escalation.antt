-- ===== src/Support/Escalation.antt =====
-- What a turn does with an emergency (`_plan_response` of
-- backend/app/services/conversation_service.py).
use qiki.Base.{
  ℕ, Option, some, List, ◌∷◌, String, lookup, insert, take, Result, ok, ◌≡◌, refl, subst, sym,
  arith, lookup-insert_self,
}
use qiki.Models.User.{User}
use qiki.Models.Product.{Product}
use qiki.Orders.Checkout.{Surroundings}
use qiki.Chat.Slots.{Profile}
use qiki.Chat.History.{Message}
use qiki.Chat.Turn.{customer_message}
use qiki.Support.Conversations.{Conversation, assign_to_staff}
use qiki.Support.Intent.{IntentCategory, IntentResult, classify, route_intent}
use qiki.Support.Understanding.{
  Understanding, in_order_context, on_unclear_time, on_human_request, on_post_order_change,
  on_catalog_product, understand,
}
use qiki.Support.Plan.{
  Desk, ResponsePlan, Branch, messages_of, message_with, sources_of, query, escalate, branch_of,
  respond, carry_turn, plan_response,
}

module _ (k : Understanding) (products : List Product) where
  -- No override touches an emergency.
  pub understand-safety :
      (now : ℕ) (history : List Message) (content : String)
      → (classify k.classifiers content).category ≡ IntentCategory.safety_emergency
      → understand k products now history content ≡ classify k.classifiers content
  unfolding understand in_order_context on_unclear_time on_human_request on_post_order_change
      on_catalog_product
  understand-safety now history content h = ground arith

  pub record IsEmergencyTurn (now id : ℕ) (content : String) (c : Conversation) (d : Desk)
      (r : Result ResponsePlan × Desk) : Type 0 where
    pub plan : ResponsePlan
    pub returns : r.0 ≡ ok plan
    pub branch : plan.branch ≡ Branch.emergency
    pub answer : plan.rag_answer ≡ some (query k products content)
    pub first_priority : plan.routing.priority ≡ 0
    pub row :
        lookup id r.1.conversations
        ≡ some (assign_to_staff now plan.routing.assigned_staff_id plan.routing.reason c)
    pub shop : r.1.store ≡ d.store
    pub messages :
        messages_of id r.1
        ≡ message_with now (sources_of (query k products content))
          ∷ customer_message now
          ∷ messages_of id d

  module _ (now : ℕ) (env : Surroundings) (user : Option User) (profile : Option Profile) (id : ℕ)
      (content : String) (d : Desk) (c : Conversation) where
    found :
        lookup id d.conversations ≡ some c
        → (classify k.classifiers content).category ≡ IntentCategory.safety_emergency
        → plan_response k products now env user profile id content d
          ≡ carry_turn k products now env user profile id content c
              (classify k.classifiers content)
              d
    unfolding plan_response
    found e h =
        let same = understand-safety now (take 10 (messages_of id d)) content h in
        ground (arith, e, same)

    carry_turn-emergency :
        (intent : IntentResult)
        → intent.category ≡ IntentCategory.safety_emergency
        → IsEmergencyTurn now id content c d
            (carry_turn k products now env user profile id content c intent d)
    unfolding carry_turn branch_of respond escalate route_intent
    carry_turn-emergency intent h = record {
      plan = record {
        intent = intent;
        routing = route_intent d.users intent;
        branch = Branch.emergency;
        rag_answer = some (query k products content);
        assistant_message = some (message_with now (sources_of (query k products content)));
      };
      returns = ground arith;
      branch = refl;
      answer = refl;
      first_priority = ground arith;
      row = ground (
        arith,
        lookup-insert_self id
            (assign_to_staff now (route_intent d.users intent).assigned_staff_id
              (route_intent d.users intent).reason c)
            d.conversations,
      );
      shop = ground arith;
      messages = ground (
        arith,
        lookup-insert_self id (customer_message now ∷ messages_of id d) d.messages,
        lookup-insert_self id
            (message_with now (sources_of (query k products content))
              ∷ customer_message now
              ∷ messages_of id d)
            (insert id (customer_message now ∷ messages_of id d) d.messages),
      );
    }

    -- A message that the classifiers take for an emergency, in a conversation that exists, is answered
    -- by the pipeline, whatever order is in progress. The conversation is escalated with the first
    -- priority, both messages are kept, and no table of the shop changes.
    pub plan_response-emergency :
        lookup id d.conversations ≡ some c
        → (classify k.classifiers content).category ≡ IntentCategory.safety_emergency
        → IsEmergencyTurn now id content c d
            (plan_response k products now env user profile id content d)
    plan_response-emergency e h =
        subst (IsEmergencyTurn now id content c d) (sym (found e h))
          (carry_turn-emergency (classify k.classifiers content) h)
