-- ===== src/Constraints.antt =====
-- crates/constraints: the constraints that a schema is validated against. The strings of the
-- reports are texts.
pub mod DuplicateTypePaths
pub mod EntitiesWithoutEvents
pub mod UnregisteredConstraints
pub mod UnresolvedReferences
pub mod RecursiveRecords
pub mod Validate
pub mod Tests
