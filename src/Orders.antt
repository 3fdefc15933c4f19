-- ===== src/Orders.antt =====
-- backend/app/services/order_service.py and backend/app/repositories/order_repository.py: checkout,
-- the order's life cycle, cancellation, and the reorder of a past order.
pub mod Status
pub mod Checkout
pub mod Cancel
pub mod Reorder
pub mod Requests
pub mod Decrement
pub mod Lines
pub mod Placed
pub mod Inventory
pub mod Create
pub mod Restock
pub mod Cancellation
pub mod Rebuild
pub mod Fixture
mod Tests
