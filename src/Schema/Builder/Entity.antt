-- ===== src/Schema/Builder/Entity.antt =====
-- crates/schema/src/builder/entity.rs: the builder of entities.
use quent.Base.{Bool, true, false, List, [], ◌∷◌, ◌++◌, nat_eq, pair_eq, option_eq, list_eq}
use quent.Base.Text.{Text}
use quent.Base.Result.{Result, ok, err, ◌>>=◌}
use quent.Schema.TypePath
use quent.Schema.TypePath.{TypePath, PathError}
use quent.Schema.Keys.{identifier_eq, type_path_eq}
use quent.Schema.Elements.{Annotations, Event, Entity}
use quent.Schema.Builder.{BuilderError, no_events, collect_unique}
use quent.Schema.Builder.Annotations
use quent.Schema.Builder.Annotations.{AnnotationsBuilder, from_annotations}

pub record EntityBuilder : Type 0 where
  pub path : TypePath
  pub events : List Event
  pub annotations : AnnotationsBuilder

unfoldable pub new : TypePath → EntityBuilder
new path = record { path = path; events = []; annotations = Annotations.new }

unfoldable pub try_new : Text → Result EntityBuilder PathError
unfolding new TypePath.from_str
try_new path = do p ← TypePath.from_str path; ok (new p)

unfoldable pub with_event : EntityBuilder → Event → EntityBuilder
with_event b event = record b { events = b.events ++ event ∷ [] }

unfoldable pub with_events : EntityBuilder → List Event → EntityBuilder
with_events b events = record b { events = b.events ++ events }

unfoldable pub with_annotations : EntityBuilder → Annotations → EntityBuilder
unfolding from_annotations
with_annotations b a = record b { annotations = from_annotations a }

abbrev pub no_items {ℓ} : {A : Type ℓ} → List A → Bool
no_items [] = true
no_items (x ∷ xs) = false

abbrev pub or_no_events : Bool → Result Entity BuilderError → Result Entity BuilderError
or_no_events true rest = err no_events
or_no_events false rest = rest

unfoldable pub build : EntityBuilder → Result Entity BuilderError
unfolding collect_unique Annotations.build TypePath.display
build b =
    let rest = do
      events ← collect_unique (λ i. i.text) (λ e. e.name) b.events
      annotations ← Annotations.build b.annotations
      ok (record { path = b.path; events = events; annotations = annotations })
    in or_no_events (no_items b.events) rest
