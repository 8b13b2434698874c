-- ===== src/Constraints/DuplicateTypePaths.antt =====
-- crates/constraints/src/duplicate_type_paths.rs: paths of a record and an entity both.
pub mod Shared
use quent.Base.{◌+◌, Option, some, List, ◌++◌, map, nat_eq, pair_eq, option_eq, list_eq, keep}
use quent.Base.Text.{Text, text}
use quent.Base.Assoc.{Assoc, lookup, insert}
use quent.Base.Set.{member, add_all, set_insert}
use quent.Base.Graph.{Graph, in_large}
use quent.Schema.Identifier.{Identifier}
use quent.Schema.TypePath
use quent.Schema.TypePath.{TypePath}
use quent.Schema.Keys.{identifier_eq, type_path_eq}
use quent.Schema.Elements.{
  Constraint, Annotations, DataType, record_ref, Event, Entity, Record, Schema, values, is_some,
  schema_record,
}
use quent.Schema.Visitor
use quent.Schema.Visitor.{
  Element, the_schema, the_annotations, the_entity, the_event, the_field, the_record, the_type,
  Cursor, current, root, Visitor,
}

abbrev pub record_paths : Schema → List TypePath
record_paths s = map (λ r. r.path) (values s.records)

unfoldable pub shared_paths : Schema → List Text
unfolding member TypePath.display
shared_paths s =
    map (λ e. TypePath.display e.path)
      (keep (λ e. member e.path (record_paths s)) (values s.entities))

abbrev pub visit_element : List Text → Option Element → List Text
visit_element found (some (the_schema s)) = found ++ shared_paths s
visit_element found _ = found

unfoldable pub visit : List Text → Cursor → List Text
unfolding current
visit found cursor = visit_element found (current cursor)

abbrev pub duplicate_type_paths : Visitor (List Text) (List Text)
duplicate_type_paths = record { visit = visit; finish = λ found. found }
