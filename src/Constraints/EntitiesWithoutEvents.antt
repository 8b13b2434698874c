-- ===== src/Constraints/EntitiesWithoutEvents.antt =====
-- crates/constraints/src/entities_without_events.rs: entities that declare no events.
pub mod Eventless
use quent.Base.{
  ◌+◌, Option, some, List, [], ◌∷◌, ◌++◌, eqb, if◌then◌else◌, nat_eq, pair_eq, option_eq, list_eq,
  length,
}
use quent.Base.Text.{Text, text}
use quent.Base.Assoc.{Assoc, lookup, insert}
use quent.Base.Set.{member, add_all, set_insert}
use quent.Base.Graph.{Graph, in_large}
use quent.Schema.Identifier.{Identifier}
use quent.Schema.TypePath
use quent.Schema.TypePath.{TypePath}
use quent.Schema.Keys.{identifier_eq, type_path_eq}
use quent.Schema.Elements.{
  Constraint, Annotations, DataType, record_ref, Event, Entity, Record, Schema, values, is_some,
  schema_record,
}
use quent.Schema.Visitor
use quent.Schema.Visitor.{
  Element, the_schema, the_annotations, the_entity, the_event, the_field, the_record, the_type,
  Cursor, current, root, Visitor,
}

abbrev pub visit_element : List Text → Option Element → List Text
visit_element entities (some (the_entity e)) =
    if eqb (length e.events) 0 then entities ++ TypePath.display e.path ∷ [] else entities
visit_element entities _ = entities

unfoldable pub visit : List Text → Cursor → List Text
unfolding current TypePath.display
visit entities cursor = visit_element entities (current cursor)

abbrev pub entities_without_events : Visitor (List Text) (List Text)
entities_without_events = record { visit = visit; finish = λ entities. entities }
