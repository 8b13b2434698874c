-- ===== src/Schema/Builder/Schema.antt =====
-- crates/schema/src/builder/mod.rs: the builder of schemas.
use quent.Base.{
  Option, none, some, List, [], ◌∷◌, ◌++◌, if◌then◌else◌, nat_eq, pair_eq, option_eq, list_eq,
}
use quent.Base.Text.{Text}
use quent.Base.Assoc.{Assoc, lookup}
use quent.Base.Result.{Result, ok, err, ◌>>=◌}
use quent.Schema.Identifier
use quent.Schema.Identifier.{Identifier, IdentifierError}
use quent.Schema.TypePath
use quent.Schema.TypePath.{TypePath, PathError}
use quent.Schema.Keys.{identifier_eq, type_path_eq}
use quent.Schema.Elements.{Annotations, Entity, Record, Schema, is_some}
use quent.Schema.Builder.{BuilderError, duplicate_name, collect_unique}
use quent.Schema.Builder.Annotations
use quent.Schema.Builder.Annotations.{AnnotationsBuilder, from_annotations}

pub record SchemaBuilder : Type 0 where
  pub name : Identifier
  pub entities : List Entity
  pub records : List Record
  pub annotations : AnnotationsBuilder

unfoldable pub new : Identifier → SchemaBuilder
new name = record { name = name; entities = []; records = []; annotations = Annotations.new }

unfoldable pub try_new : Text → Result SchemaBuilder IdentifierError
unfolding new Identifier.try_new
try_new name = do i ← Identifier.try_new name; ok (new i)

unfoldable pub with_entity : SchemaBuilder → Entity → SchemaBuilder
with_entity b entity = record b { entities = b.entities ++ entity ∷ [] }

unfoldable pub with_entities : SchemaBuilder → List Entity → SchemaBuilder
with_entities b entities = record b { entities = b.entities ++ entities }

unfoldable pub with_record : SchemaBuilder → Record → SchemaBuilder
with_record b r = record b { records = b.records ++ r ∷ [] }

unfoldable pub with_records : SchemaBuilder → List Record → SchemaBuilder
with_records b records = record b { records = b.records ++ records }

unfoldable pub with_annotations : SchemaBuilder → Annotations → SchemaBuilder
unfolding from_annotations
with_annotations b a = record b { annotations = from_annotations a }

-- The first key of one map that is a key of the other.
unfoldable pub shared_key : Assoc TypePath Entity → Assoc TypePath Record → Option TypePath
unfolding lookup
shared_key [] records = none
shared_key ((path, e) ∷ entities) records =
    let rest = shared_key entities records in
    if is_some (lookup path records) then some path else rest

unfoldable pub or_shared : Option TypePath → Result Schema BuilderError → Result Schema BuilderError
unfolding TypePath.display
or_shared (some path) rest = err (duplicate_name (TypePath.display path))
or_shared none rest = rest

unfoldable pub build : SchemaBuilder → Result Schema BuilderError
unfolding collect_unique shared_key or_shared Annotations.build TypePath.display
build b = do
  entities ← collect_unique TypePath.display (λ e. e.path) b.entities
  records ← collect_unique TypePath.display (λ r. r.path) b.records
  or_shared (shared_key entities records) (do
    annotations ← Annotations.build b.annotations
    ok (record {
      name = b.name;
      entities = entities;
      records = records;
      annotations = annotations;
    }))
