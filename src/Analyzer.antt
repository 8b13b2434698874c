-- ===== src/Analyzer.antt =====
-- crates/analyzer: the binned timelines of weighted values, and the utilisation of resources over them.
pub mod Float
pub mod Timeline
pub mod Resource
pub mod Utilization
pub mod Tests
