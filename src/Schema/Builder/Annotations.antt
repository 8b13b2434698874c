-- ===== src/Schema/Builder/Annotations.antt =====
-- crates/schema/src/builder/annotations.rs: the builder of annotations.
use quent.Base.{
  Bool, true, false, Option, none, some, List, [], ◌∷◌, ◌++◌, nat_eq, pair_eq, option_eq, list_eq,
}
use quent.Base.Text.{Text}
use quent.Base.Assoc.{Assoc, lookup}
use quent.Base.Result.{Result, ok, err, ◌>>=◌}
use quent.Schema.Keys.{identifier_eq, type_path_eq}
use quent.Schema.Elements.{Constraint, Metadata, Annotations, values}
use quent.Schema.Builder.{BuilderError, duplicate_name, empty_name}

pub record AnnotationsBuilder : Type 0 where
  pub docs : Option Text
  pub constraints : List Constraint
  pub metadata : List Metadata

abbrev pub new : AnnotationsBuilder
new = record { docs = none; constraints = []; metadata = [] }

unfoldable pub from_annotations : Annotations → AnnotationsBuilder
from_annotations a = record {
  docs = a.docs;
  constraints = values a.constraints;
  metadata = values a.metadata;
}

unfoldable pub with_docs : AnnotationsBuilder → Text → AnnotationsBuilder
with_docs b docs = record b { docs = some docs }

unfoldable pub with_constraint : AnnotationsBuilder → Text → Option Text → AnnotationsBuilder
with_constraint b name payload = record b {
  constraints = b.constraints ++ record { name = name; payload = payload } ∷ [];
}

unfoldable pub with_metadata : AnnotationsBuilder → Text → Option Text → AnnotationsBuilder
with_metadata b name payload = record b {
  metadata = b.metadata ++ record { name = name; payload = payload } ∷ [];
}

module _ {ℓ} {V : Type ℓ} (name : V → Text) where
  abbrev pub is_empty : Text → Bool
  is_empty [] = true
  is_empty (c ∷ s) = false

  -- The entry of the map for the value's name, with the loop's next steps where it is vacant.
  abbrev pub if_named_vacant :
      Bool
      → Option V
      → Text
      → Result (Assoc Text V) BuilderError
      → Result (Assoc Text V) BuilderError
  if_named_vacant true found key rest = err empty_name
  if_named_vacant false (some v) key rest = err (duplicate_name key)
  if_named_vacant false none key rest = rest

  unfoldable pub collect_named_from : Assoc Text V → List V → Result (Assoc Text V) BuilderError
  unfolding lookup
  collect_named_from m [] = ok m
  collect_named_from m (v ∷ vs) =
      let rest = collect_named_from (m ++ (name v, v) ∷ []) vs in
      if_named_vacant (is_empty (name v)) (lookup (name v) m) (name v) rest

  unfoldable pub collect_named : List V → Result (Assoc Text V) BuilderError
  unfolding collect_named_from
  collect_named vs = collect_named_from [] vs

unfoldable pub build : AnnotationsBuilder → Result Annotations BuilderError
unfolding collect_named
build b = do
  constraints ← collect_named (λ c. c.name) b.constraints
  metadata ← collect_named (λ m. m.name) b.metadata
  ok (record { docs = b.docs; constraints = constraints; metadata = metadata })
