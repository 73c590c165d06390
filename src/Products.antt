-- ===== src/Products.antt =====
-- src/modules/products: the aggregate of the catalogue.
pub mod Product
mod Tests
