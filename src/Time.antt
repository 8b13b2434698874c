-- ===== src/Time.antt =====
-- crates/time: the spans, their bins, the ordered collector and the clock.
pub mod Result
pub mod Span
pub mod Bin
pub mod Collector
pub mod Clock
pub mod Tests
