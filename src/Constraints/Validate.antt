-- ===== src/Constraints/Validate.antt =====
-- crates/constraints/src/lib.rs: the validation of a schema in one walk.
pub mod Built
use quent.Base.{
  ◌+◌, ◌-◌, ◌&&◌, List, [], ◌∷◌, ◌++◌, eqb, if◌then◌else◌, nat_eq, pair_eq, option_eq, list_eq,
  length,
}
use quent.Base.Text.{Text, text}
use quent.Base.Assoc.{Assoc, lookup, insert}
use quent.Base.Set.{member, add_all, set_insert}
use quent.Base.Graph.{Graph, in_large}
use quent.Schema.Identifier.{Identifier}
use quent.Schema.TypePath
use quent.Schema.TypePath.{TypePath}
use quent.Schema.Keys.{identifier_eq, type_path_eq}
use quent.Schema.Elements.{
  Constraint, Annotations, DataType, record_ref, Event, Entity, Record, Schema, values, is_some,
  schema_record,
}
use quent.Schema.Visitor
use quent.Schema.Visitor.{
  Element, the_schema, the_annotations, the_entity, the_event, the_field, the_record, the_type,
  Cursor, current, root, Visitor,
}
use quent.Base.Result.{Result, ok, err}
use quent.Schema.Visitor.{pair_visitor, walk}
use quent.Constraints.DuplicateTypePaths.{duplicate_type_paths}
use quent.Constraints.EntitiesWithoutEvents.{entities_without_events}
use quent.Constraints.UnregisteredConstraints
use quent.Constraints.UnregisteredConstraints.{unregistered_constraints}
use quent.Constraints.UnresolvedReferences.{unresolved_references}
use quent.Constraints.RecursiveRecords.{recursive_records}

pub record BaseConstraintsError : Type 0 where
  pub invalid_references : List Text
  pub recursive_records : List Text
  pub entities_without_events : List Text
  pub duplicate_type_paths : List Text

pub record Report {ℓ} (R : Type ℓ) : Type ℓ where
  pub base_constraints : Result {0, 0} Unit BaseConstraintsError
  pub unregistered_constraints : List Text
  pub results : R

abbrev pub bullets : List Text → List Text
bullets [] = []
bullets (s ∷ ss) = (text "  - " ++ s) ∷ bullets ss

unfoldable pub join_lines : List Text → Text
join_lines [] = []
join_lines (s ∷ []) = s
join_lines (s ∷ t ∷ ss) = s ++ 10 ∷ join_lines (t ∷ ss)

unfoldable pub bullet_list : List Text → Text
unfolding join_lines
bullet_list items = join_lines (bullets items)

unfoldable pub display_base_constraints_error : BaseConstraintsError → Text
unfolding bullet_list join_lines
display_base_constraints_error e =
    text "base constraints failed to validate:"
    ++ 10
      ∷ join_lines (
          bullet_list e.invalid_references
          ∷ bullet_list e.recursive_records
          ∷ bullet_list e.entities_without_events
          ∷ bullet_list e.duplicate_type_paths
          ∷ [])

abbrev pub base_result : BaseConstraintsError → Result {0, 0} Unit BaseConstraintsError
base_result e =
    if eqb (length e.invalid_references) 0
      && eqb (length e.recursive_records) 0
      && eqb (length e.entities_without_events) 0
      && eqb (length e.duplicate_type_paths) 0
    then ok tt
    else err e

-- What the visitors of a validation give.
abbrev pub Reported {ℓ} : Type ℓ → Type ℓ
Reported R = List Text × (List Text × (List Text × (List Text × (List Text × R))))

abbrev pub report_of {ℓ} : {R : Type ℓ} → Reported R → Report R
report_of (invalid, (unregistered, (recursive, (no_events, (duplicate, results))))) = record {
  base_constraints = base_result (record {
    invalid_references = invalid;
    recursive_records = recursive;
    entities_without_events = no_events;
    duplicate_type_paths = duplicate;
  });
  unregistered_constraints = unregistered;
  results = results;
}

-- The constraints to validate are a visitor, its state at first and the names.
module _ {ℓ κ} {S : Type ℓ} {R : Type κ} (tarjan_scc : Graph TypePath → List (List TypePath)) where
  unfoldable pub validate : Visitor S R → S → List Text → Schema → Report R
  unfolding walk UnregisteredConstraints.new
  validate constraints state names schema = report_of (
      walk
        (pair_visitor unresolved_references (
          pair_visitor unregistered_constraints (
            pair_visitor (recursive_records tarjan_scc) (
              pair_visitor entities_without_events
                (pair_visitor duplicate_type_paths constraints)))))
        ([], (UnregisteredConstraints.new names, ([], ([], ([], state))))) schema)
