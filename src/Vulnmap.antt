-- ===== src/Vulnmap.antt =====
-- domain/vulnmap: the ranges, products and issues that every other part exchanges.
pub mod Range
pub mod Product
pub mod Issue
pub mod Tests
