-- ===== src/Support/Tests.antt =====
-- Turns on the small desk, and the theorems at these inputs.
use qiki.Base.{Bool, Option, lookup, true, false, ◌≡◌, refl, ◌↔◌, ◌⊎◌, none, some, take}
use qiki.Models.Order.{Order}
use qiki.Orders.Fixture.{env, owner}
use qiki.Chat.Fixture.{catalog}
use qiki.Chat.Cues.{is_bare_category}
use qiki.Support.Conversations.{
  ConversationStatus, Conversation, set_status, assign_to_staff, resolve,
}
use qiki.Support.Lifecycle.{◌⟶◌, Reachable, IsStamped, reachable_IsStamped}
use qiki.Support.Intent.{IntentCategory, classify}
use qiki.Support.Alarm.{Alarm, classify-Alarm}
use qiki.Support.Safety.{check_query}
use qiki.Support.Plan.{messages_of, plan_response}
use qiki.Support.Escalation.{IsEmergencyTurn, plan_response-emergency}
use qiki.Support.Ordering.{IsPlacing, plan_response-Placing}
use qiki.Support.Fixture.{classifiers, folding, understanding, opened, desk, support_code}

abbrev reopened : Conversation
reopened =
    set_status 30 ConversationStatus.active
      (resolve 20 (some 5) (assign_to_staff 10 none "Intent requires staff" opened))

reopened_Reachable : Reachable reopened
reopened_Reachable =
    Reachable.moved
      (Reachable.moved
        (Reachable.moved (Reachable.started 5 (some 5) "s1")
          (◌⟶◌.assign 10 none "Intent requires staff"))
        (◌⟶◌.close 20 (some 5)))
      (◌⟶◌.set 30 ConversationStatus.active)

reachable_IsStamped_example : IsStamped reopened
reachable_IsStamped_example = reachable_IsStamped reopened_Reachable

classify-Alarm_example :
    ((classify classifiers "mui gas nong").category ≡ IntentCategory.safety_emergency)
    ↔ ((is_bare_category "mui gas nong" ≡ false) × Alarm classifiers "mui gas nong")
classify-Alarm_example = classify-Alarm classifiers "mui gas nong"

worn_hose : check_query folding "day dan gas bi nut" ≡ true
unfolding support_code
worn_hose = refl

plain_question : check_query folding "gas con hang khong" ≡ false
unfolding support_code
plain_question = refl

plan_response-emergency_example :
    IsEmergencyTurn understanding catalog 20 1 "mui gas nong" opened desk
      (plan_response understanding catalog 20 env (some owner) none 1 "mui gas nong" desk)
unfolding support_code
plan_response-emergency_example =
    plan_response-emergency understanding catalog 20 env (some owner) none 1 "mui gas nong" desk
      opened refl refl

plan_response-Placing_example :
    ((plan_response understanding catalog 20 env (some owner) none 1 "dong y" desk).1.store
      ≡ desk.store)
    ⊎ IsPlacing understanding catalog 20 env
        (some owner)
        none
        1
        "dong y"
        (take 10 (messages_of 1 desk))
        desk.store
        (plan_response understanding catalog 20 env (some owner) none 1 "dong y" desk).1.store
plan_response-Placing_example =
    plan_response-Placing understanding catalog 20 env (some owner) none 1 "dong y" desk

abbrev is_placed : Option Order → Bool
is_placed none = false
is_placed (some o) = true

-- The second case does happen.
confirmed_order :
    is_placed (
      lookup 8
        (plan_response understanding catalog 20 env
          (some owner)
          none
          1
          "dong y"
          desk).1.store.orders)
    ≡ true
unfolding support_code
confirmed_order = refl
