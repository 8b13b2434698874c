-- ===== src/Constraints/UnresolvedReferences.antt =====
-- crates/constraints/src/unresolved_refs.rs: references to records that are not declared.
pub mod Dangling
use quent.Base.{
  ◌+◌, Bool, true, Option, none, some, List, [], ◌∷◌, ◌++◌, if◌then◌else◌, nat_eq, pair_eq,
  option_eq, list_eq,
}
use quent.Base.Text.{Text, text}
use quent.Base.Assoc.{Assoc, lookup, insert}
use quent.Base.Set.{member, add_all, set_insert}
use quent.Base.Graph.{Graph, in_large}
use quent.Schema.Identifier.{Identifier}
use quent.Schema.TypePath
use quent.Schema.TypePath.{TypePath}
use quent.Schema.Keys.{identifier_eq, type_path_eq}
use quent.Schema.Elements.{
  Constraint, Annotations, DataType, record_ref, Event, Entity, Record, Schema, values, is_some,
  schema_record,
}
use quent.Schema.Visitor
use quent.Schema.Visitor.{
  Element, the_schema, the_annotations, the_entity, the_event, the_field, the_record, the_type,
  Cursor, current, root, Visitor,
}

-- A cursor starts at the schema; that it does not is what the source calls unreachable.
abbrev pub resolves : Option Schema → TypePath → Bool
resolves (some s) path = is_some (schema_record s path)
resolves none path = true

unfoldable pub describe : Cursor → TypePath → Text
unfolding Visitor.display TypePath.display
describe cursor path = Visitor.display cursor ++ text ": " ++ TypePath.display path

abbrev pub visit_element : List Text → Cursor → Option Element → List Text
visit_element found cursor (some (the_type (record_ref path))) =
    if resolves (root cursor) path then found else found ++ describe cursor path ∷ []
visit_element found cursor _ = found

unfoldable pub visit : List Text → Cursor → List Text
unfolding current root schema_record describe
visit found cursor = visit_element found cursor (current cursor)

abbrev pub unresolved_references : Visitor (List Text) (List Text)
unresolved_references = record { visit = visit; finish = λ found. found }
