-- ===== src/Schema/Builder/Record.antt =====
-- crates/schema/src/builder/record.rs: the builder of records.
use quent.Base.{List, [], ◌∷◌, ◌++◌, nat_eq, pair_eq, option_eq, list_eq}
use quent.Base.Text.{Text}
use quent.Base.Result.{Result, ok, ◌>>=◌}
use quent.Schema.TypePath
use quent.Schema.TypePath.{TypePath, PathError}
use quent.Schema.Keys.{identifier_eq, type_path_eq}
use quent.Schema.Elements.{Annotations, Field, Record}
use quent.Schema.Builder.{BuilderError, collect_unique}
use quent.Schema.Builder.Annotations
use quent.Schema.Builder.Annotations.{AnnotationsBuilder, from_annotations}

pub record RecordBuilder : Type 0 where
  pub path : TypePath
  pub fields : List Field
  pub annotations : AnnotationsBuilder

unfoldable pub new : TypePath → RecordBuilder
new path = record { path = path; fields = []; annotations = Annotations.new }

unfoldable pub try_new : Text → Result RecordBuilder PathError
unfolding new TypePath.from_str
try_new path = do p ← TypePath.from_str path; ok (new p)

unfoldable pub with_field : RecordBuilder → Field → RecordBuilder
with_field b field = record b { fields = b.fields ++ field ∷ [] }

unfoldable pub with_fields : RecordBuilder → List Field → RecordBuilder
with_fields b fields = record b { fields = b.fields ++ fields }

unfoldable pub with_annotations : RecordBuilder → Annotations → RecordBuilder
unfolding from_annotations
with_annotations b a = record b { annotations = from_annotations a }

unfoldable pub build : RecordBuilder → Result Record BuilderError
unfolding collect_unique Annotations.build
build b = do
  fields ← collect_unique (λ i. i.text) (λ f. f.name) b.fields
  annotations ← Annotations.build b.annotations
  ok (record { path = b.path; fields = fields; annotations = annotations })
