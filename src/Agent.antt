-- ===== src/Agent.antt =====
-- backend/app/agent: the assistant's tool policy, its confirmation gate, the tool executor and the
-- graph of one turn.
pub mod Policy
pub mod Gate
pub mod Executor
pub mod Safety
pub mod Approval
pub mod Audit
pub mod State
pub mod Nodes
pub mod Graph
pub mod Turn
mod Fixture
mod Tests
