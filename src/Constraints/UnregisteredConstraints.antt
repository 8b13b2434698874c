-- ===== src/Constraints/UnregisteredConstraints.antt =====
-- crates/constraints/src/unregistered_constraints.rs: constraints that no validated one handles.
pub mod Mentions
use quent.Base.{Option, some, List, [], ◌∷◌, if◌then◌else◌, nat_eq, pair_eq, option_eq, list_eq}
use quent.Base.Text.{Text, text, text_before}
use quent.Base.Assoc.{Assoc, lookup, insert}
use quent.Base.Set.{member, add_all, set_insert}
use quent.Base.Graph.{Graph, in_large}
use quent.Schema.Identifier.{Identifier}
use quent.Schema.TypePath
use quent.Schema.TypePath.{TypePath}
use quent.Schema.Keys.{identifier_eq, type_path_eq}
use quent.Schema.Elements.{
  Constraint, Annotations, DataType, record_ref, Event, Entity, Record, Schema, values, is_some,
  schema_record,
}
use quent.Schema.Visitor
use quent.Schema.Visitor.{
  Element, the_schema, the_annotations, the_entity, the_event, the_field, the_record, the_type,
  Cursor, current, root, Visitor,
}

pub record UnregisteredConstraints : Type 0 where
  pub registered : List Text
  pub unregistered : List Text

unfoldable pub new : List Text → UnregisteredConstraints
unfolding add_all
new registered = record { registered = add_all [] registered; unregistered = [] }

-- The loop over the constraints of an annotation.
unfoldable pub insert_unregistered : List Text → List Text → List Constraint → List Text
unfolding member set_insert
insert_unregistered registered unregistered [] = unregistered
insert_unregistered registered unregistered (c ∷ cs) =
    let next =
      if member c.name registered
      then unregistered
      else set_insert text_before c.name unregistered in
    insert_unregistered registered next cs

abbrev pub visit_element : UnregisteredConstraints → Option Element → UnregisteredConstraints
visit_element u (some (the_annotations a)) = record u {
  unregistered = insert_unregistered u.registered u.unregistered (values a.constraints);
}
visit_element u _ = u

unfoldable pub visit : UnregisteredConstraints → Cursor → UnregisteredConstraints
unfolding current insert_unregistered
visit u cursor = visit_element u (current cursor)

abbrev pub unregistered_constraints : Visitor UnregisteredConstraints (List Text)
unregistered_constraints = record { visit = visit; finish = λ u. u.unregistered }
