-- ===== src/Models.antt =====
-- The rows of the database: the classes of backend/app/models and the store that holds them.
-- Amounts of money (`Numeric(10, 2)`) are natural numbers of hundredths, identifiers (UUIDs) and
-- instants are natural numbers. Columns that no modelled operation reads or writes (descriptions,
-- images other than the one copied into a cart, timestamps kept by the database) are left out. Redis
-- holds the pending confirmations.
pub mod User
pub mod Product
pub mod Coupon
pub mod Order
pub mod Store
pub mod Redis
pub mod KeyStore
