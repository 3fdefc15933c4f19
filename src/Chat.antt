-- ===== src/Chat.antt =====
-- backend/app/services/conversation_service.py: an order taken in the chat, from the slots that the
-- customer fills to the checkout.
pub mod Slots
pub mod Metadata
pub mod Cues
pub mod Items
pub mod History
pub mod Review
pub mod Bounds
pub mod Dialogue
pub mod Handling
pub mod Turn
pub mod RoundTrip
pub mod Machine
pub mod Steps
pub mod Moves
pub mod Placing
pub mod Plain
pub mod Affirming
pub mod Again
pub mod Fixture
mod Tests
