-- ===== src/Reviews/Tests.antt =====
-- A queue of two messages, and the theorems at these inputs.
use qiki.Base.{true, false, ◌≡◌, refl, none, some, [], lookup, insert, length}
use qiki.Models.User.{is_staff}
use qiki.Chat.History.{MessageRole}
use qiki.Chat.Slots.{truthy}
use qiki.Chat.Turn.{drop}
use qiki.Catalogue.Sorting.{insert_by, sort_by}
use qiki.Orders.Fixture.{owner, clerk}
use qiki.Reviews.{
  Message, Reviews, should_be_flagged, create, change, submit_feedback, approve_message,
  reject_message, add_to_knowledge_base, get_flagged_for_review,
}
use qiki.Reviews.Queue.{
  IsSound, Call, run, Reachable, reachable_IsSound, IsAdded, add_to_knowledge_base-reject_message,
}

unfoldable pub review_code : Unit {0}
unfolding is_staff lookup insert truthy drop insert_by sort_by should_be_flagged create change
    submit_feedback approve_message reject_message add_to_knowledge_base get_flagged_for_review
review_code = tt

abbrev answer : MessageRole → Message
answer role = record {
  conversation_id = 1;
  role = role;
  content = "gia gas";
  intent_confidence = some 40;
  feedback_score = none;
  flagged_for_review = false;
  reviewed_by = none;
  reviewed_at = none;
  review_action = none;
  corrected_content = none;
  created_at = 10;
}

abbrev start : Reviews
start = record { messages = []; documents = [] }

abbrev queue : Reviews
queue = run (Call.creating 3 (answer MessageRole.assistant)) start

abbrev judged : Reviews
judged = run (Call.approving 20 3 none clerk) queue

-- A customer's own message stands in the queue too.
own_message :
    length (get_flagged_for_review 0 20 (run (Call.creating 3 (answer MessageRole.user)) start)) ≡ 1
unfolding review_code
own_message = refl

-- A customer approves nothing.
refused : run (Call.approving 20 3 none owner) queue ≡ queue
unfolding review_code
refused = refl

judged_Reachable : Reachable judged
unfolding review_code
judged_Reachable =
    Reachable.called (Call.approving 20 3 none clerk)
      (Reachable.called (Call.creating 3 (answer MessageRole.assistant)) Reachable.empty
        (refl, refl))
      tt

reachable_IsSound_example : IsSound judged
reachable_IsSound_example = reachable_IsSound judged_Reachable

abbrev stored : Message
stored = record (answer MessageRole.assistant) { flagged_for_review = true }

add_to_knowledge_base-reject_message_example :
    IsAdded 40 90 3 "faq" "Gia" clerk stored queue
      (add_to_knowledge_base 40 90 3 "faq" "Gia" clerk (reject_message 30 3 clerk queue).1)
unfolding review_code
add_to_knowledge_base-reject_message_example =
    add_to_knowledge_base-reject_message 30 40 90 3 "faq" "Gia" clerk stored queue refl refl
