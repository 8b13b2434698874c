-- ===== src/Schema/Tests.antt =====
-- Paths, schemas and walks at concrete values.
use quent.Base.{◌≡◌, refl, ◌↔◌, true, none, [], ◌∷◌, nat_eq, pair_eq, option_eq, list_eq, length}
use quent.Base.Text.{Text, text}
use quent.Base.Set.{member}
use quent.Base.Result.{ok, err}
use quent.Schema.Identifier.{Identifier}
use quent.Schema.TypePath
use quent.Schema.TypePath.{TypePath, from_str}
use quent.Schema.TypePath.Printing.{well_formed, from_str-display}
use quent.Schema.Elements.{
  Annotations, record_ref, option, Field, once, Event, Entity, Record, Schema,
}
use quent.Schema.Builder.{duplicate_name}
use quent.Schema.Builder.Annotations
use quent.Schema.Builder.Entity
use quent.Schema.Builder.Entity.{EntityBuilder}
use quent.Schema.Builder.Schema
use quent.Schema.Builder.Schema.{SchemaBuilder}
use quent.Schema.Builder.Accepts.{
  buildable, assembled, schema_build-ok, entity_buildable, entity_assembled, entity_build-ok,
}
use quent.Schema.Visitor.{walk}
use quent.Schema.Visitor.Positions.{positions, visits, walk-positions}
use quent.Constraints.EntitiesWithoutEvents.{entities_without_events}

abbrev pub identifier : Text → Identifier
identifier t = record { text = t }

abbrev pub path : Text → Text → TypePath
path namespace name = record { namespace = identifier namespace ∷ []; name = identifier name }

abbrev pub foo_query : TypePath
foo_query = path (text "Foo") (text "Query")

abbrev pub bar_plan : TypePath
bar_plan = path (text "Bar") (text "Plan")

abbrev pub plain : Annotations
plain = record { docs = none; constraints = []; metadata = [] }

abbrev pub started : Event
started = record {
  name = identifier (text "started");
  cardinality = once;
  payload = [];
  annotations = plain;
}

abbrev query_builder : EntityBuilder
query_builder = record { path = foo_query; events = started ∷ []; annotations = Annotations.new }

abbrev pub query : Entity
query = record { path = foo_query; events = (started.name, started) ∷ []; annotations = plain }

-- A record with a field that refers to the record itself, and one to a record that is not there.
abbrev pub self_field : Field
self_field = record {
  name = identifier (text "next");
  ty = option (record_ref bar_plan);
  annotations = plain;
}

abbrev pub lost_field : Field
lost_field = record {
  name = identifier (text "lost");
  ty = record_ref (path (text "Bar") (text "Lost"));
  annotations = record plain {
    constraints = (text "quent.x", record { name = text "quent.x"; payload = none }) ∷ [];
  };
}

abbrev pub plan : Record
plan = record {
  path = bar_plan;
  fields = (self_field.name, self_field) ∷ (lost_field.name, lost_field) ∷ [];
  annotations = plain;
}

abbrev pub builder : SchemaBuilder
builder = record {
  name = identifier (text "Model");
  entities = query ∷ [];
  records = plan ∷ [];
  annotations = Annotations.new;
}

abbrev pub model : Schema
model = record {
  name = identifier (text "Model");
  entities = (foo_query, query) ∷ [];
  records = (bar_plan, plan) ∷ [];
  annotations = plain;
}

from_str-display_example :
    (from_str (text "Foo::Query") ≡ ok foo_query)
    ↔ ((well_formed foo_query ≡ true) × (TypePath.display foo_query ≡ text "Foo::Query"))
from_str-display_example = from_str-display (text "Foo::Query") foo_query

schema_build-ok_example :
    (Schema.build builder ≡ ok model) ↔ ((buildable builder ≡ true) × (assembled builder ≡ model))
schema_build-ok_example = schema_build-ok builder model

builder-buildable : buildable builder ≡ true
unfolding member
builder-buildable = refl

entity_build-ok_example :
    (Entity.build query_builder ≡ ok query)
    ↔ ((entity_buildable query_builder ≡ true) × (entity_assembled query_builder ≡ query))
entity_build-ok_example = entity_build-ok query_builder query

-- One name on a constraint and on a metadata entry, and on two constraints.
abbrev across_kinds : EntityBuilder
across_kinds = record query_builder {
  annotations =
      Annotations.with_metadata (Annotations.with_constraint Annotations.new (text "x") none)
        (text "x") none;
}

abbrev within_kind : EntityBuilder
within_kind = record query_builder {
  annotations =
      Annotations.with_constraint (Annotations.with_constraint Annotations.new (text "x") none)
        (text "x") none;
}

across_kinds-built : Entity.build across_kinds ≡ ok (entity_assembled across_kinds)
unfolding Annotations.with_constraint Annotations.with_metadata member
across_kinds-built = (entity_build-ok across_kinds (entity_assembled across_kinds)).1 (refl, refl)

within_kind-refused : Entity.build within_kind ≡ err (duplicate_name (text "x"))
unfolding Entity.build Annotations.with_constraint
within_kind-refused = refl

walk-positions_example :
    walk entities_without_events [] model
    ≡ visits entities_without_events.visit [] (positions model)
walk-positions_example = walk-positions entities_without_events [] model

positions-length : length (positions model) ≡ 15
unfolding positions
positions-length = refl
