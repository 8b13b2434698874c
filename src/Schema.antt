-- ===== src/Schema.antt =====
-- crates/schema: the identifiers and paths, the parts of a schema with their builders, and the walk of a
-- visitor over them.
pub mod Identifier
pub mod TypePath
pub mod Keys
pub mod Elements
pub mod Builder
pub mod Visitor
pub mod Tests
