-- ===== src/Support/Plan.antt =====
-- A message of a customer, from its intent to its answer (`_plan_response` of
-- backend/app/services/conversation_service.py).
use qiki.Base.{
  ℕ, zero, suc, Bool, ◌&&◌, not, Option, none, some, List, [], ◌∷◌, String, Dict, lookup, insert,
  is_some, take, Result, ok, err, Action, Error, if◌then◌else◌,
}
use qiki.Models.User.{User}
use qiki.Models.Product.{Product}
use qiki.Models.Store.{Store}
use qiki.Orders.Checkout.{Surroundings}
use qiki.Chat.Slots.{Profile}
use qiki.Chat.Metadata.{Document}
use qiki.Chat.History.{Message, MessageRole, find_existing_chat_order, is_order_in_progress}
use qiki.Chat.Handling.{handle_chat_order}
use qiki.Chat.Turn.{ChatState, carry_out, customer_message, oldest}
use qiki.Support.Conversations.{Conversation, assign_to_staff}
use qiki.Support.Intent.{
  IntentCategory, IntentResult, RoutingDecision, route_intent, is_safety, is_place_order,
  is_product_inquiry,
}
use qiki.Support.Safety.{check_query}
use qiki.Support.Followup.{FollowupNote, detect_followup_request}
use qiki.Support.Understanding.{Understanding, understand, should_ask_intent_clarification}

-- The tables that a turn reads and writes. The messages of a conversation stand newest first.
pub record Desk : Type 0 where
  pub store : Store
  pub conversations : Dict Conversation
  pub messages : Dict (List Message)
  pub users : List User

-- The answer of the retrieval pipeline: the fixed guidance, or a text generated from sources.
pub data RagAnswer : Type 0 where
  emergency_response : RagAnswer
  generated : ℕ → RagAnswer

-- The branch that answers.
pub data Branch : Type 0 where
  emergency handoff clarification inquiry order open_ended : Branch
  followup : FollowupNote → Branch

pub record ResponsePlan : Type 0 where
  pub intent : IntentResult
  pub routing : RoutingDecision
  pub branch : Branch
  pub rag_answer : Option RagAnswer
  pub assistant_message : Option Message

abbrev or_empty {ℓ} : {A : Type ℓ} → Option (List A) → List A
or_empty none = []
or_empty (some xs) = xs

abbrev pub messages_of : ℕ → Desk → List Message
messages_of id d = or_empty (lookup id d.messages)

abbrev pub say_in : ℕ → Message → Desk → Desk
say_in id m d = record d { messages = insert id (m ∷ messages_of id d) d.messages }

abbrev pub chat_of : ℕ → Desk → ChatState
chat_of id d = record { store = d.store; messages = messages_of id d }

abbrev with_chat : ℕ → ChatState → Desk → Desk
with_chat id s d = record d { store = s.store; messages = insert id s.messages d.messages }

-- What the order's part of the conversation did, in the tables.
abbrev pub back_to :
    ℕ → Desk → Result Message × ChatState → Result (Option RagAnswer × Option Message) × Desk
back_to id d (err e, s) = (err e, with_chat id s d)
back_to id d (ok m, s) = (ok (none, some m), with_chat id s d)

unfoldable pub escalate : ℕ → ℕ → RoutingDecision → Conversation → Desk → Desk
escalate now id routing c d =
    if routing.requires_human
    then record d {
      conversations =
          insert id (assign_to_staff now routing.assigned_staff_id routing.reason c)
            d.conversations;
    }
    else d

abbrev others : ℕ → List Document
others zero = []
others (suc n) = Document.other ∷ others n

abbrev pub message_with : ℕ → List Document → Message
message_with now documents = record {
  role = MessageRole.assistant;
  created_at = now;
  retrieved_documents = documents;
}

abbrev pub sources_of : RagAnswer → List Document
sources_of RagAnswer.emergency_response = []
sources_of (RagAnswer.generated n) = others n

module _ (k : Understanding) (products : List Product) where
  -- The pipeline looks for an emergency in the text itself, before it retrieves. Of the answer only the
  -- number of its sources is kept.
  unfoldable pub query : String → RagAnswer
  query content =
      if check_query k.folding content
      then RagAnswer.emergency_response
      else RagAnswer.generated (k.source_count content)

  -- No follow-up is noted while an order is handled.
  unfoldable pub followup_note : ℕ → List Message → String → IntentCategory → Option FollowupNote
  followup_note now history content category =
      if not (is_safety category)
        && not (is_order_in_progress now history)
        && not (is_some (find_existing_chat_order history))
      then detect_followup_request (k.reader.normalize_match_text content) category
          (k.followup_window content)
      else none

  unfoldable pub branch_without_note : String → IntentResult → Bool → Branch
  branch_without_note content intent requires_human =
      if requires_human
      then Branch.handoff
      else if should_ask_intent_clarification intent
      then Branch.clarification
      else if is_product_inquiry intent.category && k.inquiry_message content products
      then Branch.inquiry
      else if is_place_order intent.category
      then Branch.order
      else Branch.open_ended

  unfoldable pub branch_of : String → IntentResult → Bool → Option FollowupNote → Branch
  branch_of content intent requires_human note =
      if is_safety intent.category then Branch.emergency else elim note [
        | some n ↦ Branch.followup n
        | none ↦ branch_without_note content intent requires_human
      ]

  -- The answer, the message that keeps it and the tables after it. An open-ended question has
  -- its answer after the plan.
  unfoldable pub respond :
      ℕ
      → Surroundings
      → Option User
      → Option Profile
      → ℕ
      → String
      → List Message
      → Branch
      → Action Desk (Option RagAnswer × Option Message)
  respond now env user profile id content history Branch.emergency d =
      let answer = query content in
      let m = message_with now (sources_of answer) in (ok (some answer, some m), say_in id m d)
  respond now env user profile id content history (Branch.followup note) d =
      let m = message_with now (Document.other ∷ []) in (ok (none, some m), say_in id m d)
  respond now env user profile id content history Branch.order d = back_to id d (
      carry_out k.reader products (k.str_of_uuid id) now env user
        (handle_chat_order k.reader products now history (oldest 200 (messages_of id d)) profile
          content)
        (chat_of id d))
  respond now env user profile id content history Branch.open_ended d = (ok (none, none), d)
  respond now env user profile id content history branch d =
      let m = message_with now [] in (ok (none, some m), say_in id m d)

  -- The plan of a turn that is answered.
  abbrev pub planned :
      IntentResult
      → RoutingDecision
      → Branch
      → Result (Option RagAnswer × Option Message) × Desk
      → Result ResponsePlan × Desk
  planned intent routing branch (err e, d) = (err e, d)
  planned intent routing branch (ok (answer, m), d) = (
    ok record {
      intent = intent;
      routing = routing;
      branch = branch;
      rag_answer = answer;
      assistant_message = m;
    },
    d,
  )

  -- From the intent on: the customer's message, the escalation and the answer.
  unfoldable pub carry_turn :
      ℕ
      → Surroundings
      → Option User
      → Option Profile
      → ℕ
      → String
      → Conversation
      → IntentResult
      → Action Desk ResponsePlan
  carry_turn now env user profile id content c intent d =
      let history = take 10 (messages_of id d) in
      let routing = route_intent d.users intent in
      let note = followup_note now history content intent.category in
      let branch = branch_of content intent routing.requires_human note in
      planned intent routing branch (
        respond now env user profile id content history branch
          (escalate now id routing c (say_in id (customer_message now) d)))

  -- The state is that of the session at the return or the raise. Where the request of an order is
  -- refused by its validators, nothing has been committed, and the session's end drops the messages.
  unfoldable pub plan_response :
      ℕ → Surroundings → Option User → Option Profile → ℕ → String → Action Desk ResponsePlan
  plan_response now env user profile id content d = elim (lookup id d.conversations) [
    | none ↦ (err Error.conversation_not_found, d)
    | some c ↦
        carry_turn now env user profile id content c
          (understand k products now (take 10 (messages_of id d)) content) d
  ]
