-- ===== src/Support.antt =====
-- Customer support (backend/app/services/conversation_service.py, routing_service.py and
-- backend/app/intent): the conversations, the intent of a message and the branch that answers it.
pub mod Conversations
pub mod Intent
pub mod Followup
pub mod Understanding
pub mod Safety
pub mod Plan
pub mod Lifecycle
pub mod Alarm
pub mod Escalation
pub mod Ordering
mod Fixture
mod Tests
