-- ===== src/Support/Conversations.antt =====
-- The rows of conversations and their life cycle
-- (backend/app/repositories/conversation_repository.py).
use qiki.Base.{ℕ, Bool, true, false, Option, none, some, String, ltb, if◌then◌else◌}

pub data ConversationStatus : Type 0 where
  active escalated flagged resolved closed abandoned : ConversationStatus

pub record Conversation : Type 0 where
  pub user_id : Option ℕ
  pub session_id : String
  pub status : ConversationStatus
  pub assigned_to : Option ℕ
  pub created_at : ℕ
  pub escalated_at : Option ℕ
  pub escalation_reason : Option String
  pub resolved_at : Option ℕ
  pub satisfaction_rating : Option ℕ

unfoldable pub start : ℕ → Option ℕ → String → Conversation
start now user_id session_id = record {
  user_id = user_id;
  session_id = session_id;
  status = ConversationStatus.active;
  assigned_to = none;
  created_at = now;
  escalated_at = none;
  escalation_reason = none;
  resolved_at = none;
  satisfaction_rating = none;
}

abbrev pub or_now : Option ℕ → ℕ → Option ℕ
or_now none now = some now
or_now (some t) now = some t

-- The status alone is written; no service calls this.
unfoldable pub update_status : ConversationStatus → Conversation → Conversation
update_status status c = record c { status = status }

-- The status is set directly; reopening drops the instants of the past.
unfoldable pub set_status : ℕ → ConversationStatus → Conversation → Conversation
set_status now ConversationStatus.resolved c = record c {
  status = ConversationStatus.resolved;
  resolved_at = some now;
}
set_status now ConversationStatus.escalated c = record c {
  status = ConversationStatus.escalated;
  escalated_at = or_now c.escalated_at now;
}
set_status now ConversationStatus.active c = record c {
  status = ConversationStatus.active;
  resolved_at = none;
  escalated_at = none;
}
set_status now status c = record c { status = status }

unfoldable pub assign_to_staff : ℕ → Option ℕ → String → Conversation → Conversation
assign_to_staff now staff_id reason c = record c {
  status = ConversationStatus.escalated;
  assigned_to = staff_id;
  escalated_at = some now;
  escalation_reason = some reason;
}

unfoldable pub transfer : ℕ → Conversation → Conversation
transfer staff_id c = record c { assigned_to = some staff_id }

unfoldable pub resolve : ℕ → Option ℕ → Conversation → Conversation
resolve now rating c = record c {
  status = ConversationStatus.resolved;
  resolved_at = some now;
  satisfaction_rating = rating;
}

abbrev pub is_active : Conversation → Bool
is_active c = elim c.status [ ConversationStatus.active ↦ true | _ ↦ false ]

abbrev last_activity : Option ℕ → Conversation → ℕ
last_activity none c = c.created_at
last_activity (some t) c = t

-- `last` is the instant of the conversation's last message, if it has one.
unfoldable pub close_stale : ℕ → Option ℕ → Conversation → Conversation
close_stale cutoff last c =
    if is_active c
    then if ltb (last_activity last c) cutoff
      then record c { status = ConversationStatus.closed }
      else c
    else c
