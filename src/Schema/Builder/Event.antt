-- ===== src/Schema/Builder/Event.antt =====
-- crates/schema/src/builder/event.rs: the builder of events.
use quent.Base.{List, [], ◌∷◌, ◌++◌, nat_eq, pair_eq, option_eq, list_eq}
use quent.Base.Text.{Text}
use quent.Base.Result.{Result, ok, ◌>>=◌}
use quent.Schema.Identifier
use quent.Schema.Identifier.{Identifier, IdentifierError}
use quent.Schema.Keys.{identifier_eq, type_path_eq}
use quent.Schema.Elements.{Annotations, Field, Cardinality, Event}
use quent.Schema.Builder.{BuilderError, collect_unique}
use quent.Schema.Builder.Annotations
use quent.Schema.Builder.Annotations.{AnnotationsBuilder, from_annotations}

pub record EventBuilder : Type 0 where
  pub name : Identifier
  pub cardinality : Cardinality
  pub payload : List Field
  pub annotations : AnnotationsBuilder

unfoldable pub new : Identifier → Cardinality → EventBuilder
new name cardinality = record {
  name = name;
  cardinality = cardinality;
  payload = [];
  annotations = Annotations.new;
}

unfoldable pub try_new : Text → Cardinality → Result EventBuilder IdentifierError
unfolding new Identifier.try_new
try_new name cardinality = do i ← Identifier.try_new name; ok (new i cardinality)

unfoldable pub with_field : EventBuilder → Field → EventBuilder
with_field b field = record b { payload = b.payload ++ field ∷ [] }

unfoldable pub with_fields : EventBuilder → List Field → EventBuilder
with_fields b fields = record b { payload = b.payload ++ fields }

unfoldable pub with_annotations : EventBuilder → Annotations → EventBuilder
unfolding from_annotations
with_annotations b a = record b { annotations = from_annotations a }

unfoldable pub build : EventBuilder → Result Event BuilderError
unfolding collect_unique Annotations.build
build b = do
  payload ← collect_unique (λ i. i.text) (λ f. f.name) b.payload
  annotations ← Annotations.build b.annotations
  ok (record {
    name = b.name;
    cardinality = b.cardinality;
    payload = payload;
    annotations = annotations;
  })
