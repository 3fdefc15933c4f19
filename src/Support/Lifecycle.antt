-- ===== src/Support/Lifecycle.antt =====
-- The life of a conversation, as the operations of
-- backend/app/repositories/conversation_repository.py that the services call move it. `update_status`
-- of that file, which nothing calls, is not a step: it writes the status without its instant.
use qiki.Base.{ℕ, true, Option, none, String, is_some, ◌≡◌, refl, arith}
use qiki.Support.Conversations.{
  ConversationStatus, Conversation, start, set_status, assign_to_staff, transfer, resolve,
  close_stale, update_status,
}

-- Each operation that a service calls; `update_status`, which none calls, is left out.
infix 40 ◌⟶◌
pub data ◌⟶◌ : Conversation → Conversation → Type 0 where
  assign :
      {c : Conversation} (now : ℕ) (staff_id : Option ℕ) (reason : String)
      → c ⟶ assign_to_staff now staff_id reason c
  set : {c : Conversation} (now : ℕ) (status : ConversationStatus) → c ⟶ set_status now status c
  hand_over : {c : Conversation} (staff_id : ℕ) → c ⟶ transfer staff_id c
  close : {c : Conversation} (now : ℕ) (rating : Option ℕ) → c ⟶ resolve now rating c
  sweep : {c : Conversation} (cutoff : ℕ) (last : Option ℕ) → c ⟶ close_stale cutoff last c

-- The rows that a conversation goes through from its start.
pub data Reachable : Conversation → Type 0 where
  started :
      (now : ℕ) (user_id : Option ℕ) (session_id : String)
      → Reachable (start now user_id session_id)
  moved : {c c' : Conversation} → Reachable c → c ⟶ c' → Reachable c'

-- The instants that the status asks for are there, and an active row has none of them.
pub record IsStamped (c : Conversation) : Type 0 where
  pub escalated : c.status ≡ ConversationStatus.escalated → is_some c.escalated_at ≡ true
  pub resolved : c.status ≡ ConversationStatus.resolved → is_some c.resolved_at ≡ true
  pub never_escalated : c.status ≡ ConversationStatus.active → c.escalated_at ≡ none
  pub never_resolved : c.status ≡ ConversationStatus.active → c.resolved_at ≡ none

set_status-IsStamped :
    (now : ℕ) (status : ConversationStatus) (c : Conversation)
    → IsStamped c
    → IsStamped (set_status now status c)
unfolding set_status
set_status-IsStamped now ConversationStatus.active c h = ground arith
set_status-IsStamped now ConversationStatus.escalated c h = ground arith
set_status-IsStamped now ConversationStatus.flagged c h = ground arith
set_status-IsStamped now ConversationStatus.resolved c h = ground arith
set_status-IsStamped now ConversationStatus.closed c h = ground arith
set_status-IsStamped now ConversationStatus.abandoned c h = ground arith

⟶-IsStamped : {c c' : Conversation} → c ⟶ c' → IsStamped c → IsStamped c'
unfolding assign_to_staff transfer resolve close_stale
⟶-IsStamped (assign now staff_id reason) h = ground arith
⟶-IsStamped {c} (set now status) h = set_status-IsStamped now status c h
⟶-IsStamped (hand_over staff_id) h = ground arith
⟶-IsStamped (close now rating) h = ground arith
⟶-IsStamped (sweep cutoff last) h = ground arith

-- An active conversation that `update_status` escalates lacks the instant of its escalation.
update_status_unstamped :
    (c : Conversation)
    → IsStamped c
    → c.status ≡ ConversationStatus.active
    → ¬ IsStamped (update_status ConversationStatus.escalated c)
unfolding update_status
update_status_unstamped c h fresh after =
    ground (arith, h.never_escalated fresh, after.escalated refl)

-- However the operations that the services call follow each other (all that write the status or
-- an instant, except `update_status`, which no service calls and which writes the status alone), an escalated
-- conversation has the instant of its escalation, a resolved one that of its resolution, and an
-- active one has neither.
pub reachable_IsStamped : {c : Conversation} → Reachable c → IsStamped c
unfolding start
reachable_IsStamped (started now user_id session_id) = ground arith
reachable_IsStamped (moved before step) = ⟶-IsStamped step (reachable_IsStamped before)
