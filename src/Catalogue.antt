-- ===== src/Catalogue.antt =====
-- The catalogue as the shop shows it (backend/app/services/product_query.py,
-- recommendation_service.py and product_service.py).
pub mod Sorting
pub mod Query
pub mod Ranking
pub mod Answers
pub mod Suggestions
mod Tests
