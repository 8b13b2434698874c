-- ===== src/Constraints/Validate/Built.antt =====
-- The validation of a schema reports what each constraint does, and of a schema that is built from
-- entities with events, no path that is declared twice and no entity without events.
use quent.Base.{
  ◌≡◌, refl, sym, ap, ◌∙◌, Bool, true, false, not, ◌&&◌, List, [], ◌∷◌, map, arith, eqb, nat_eq,
  pair_eq, option_eq, list_eq, length, keep,
}
use quent.Base.Text.{Text}
use quent.Base.Graph.{Graph}
use quent.Base.Set.{member}
use quent.Base.Result.{ok}
use quent.Schema.TypePath
use quent.Schema.TypePath.{TypePath}
use quent.Schema.Keys.{type_path_eq}
use quent.Schema.Elements.{Entity, Schema, values}
use quent.Schema.Builder.Schema
use quent.Schema.Builder.Schema.{SchemaBuilder}
use quent.Schema.Builder.Unique.{entries}
use quent.Schema.Builder.Accepts.{disjoint, schema_build-ok}
use quent.Schema.Visitor.{Visitor, pair_visitor, walk}
use quent.Schema.Visitor.Positions.{walk-pair_visitor}
use quent.Constraints.DuplicateTypePaths.{duplicate_type_paths, shared_paths}
use quent.Constraints.DuplicateTypePaths.Shared.{walk-shared_paths}
use quent.Constraints.EntitiesWithoutEvents.{entities_without_events}
use quent.Constraints.EntitiesWithoutEvents.Eventless.{eventless, walk-eventless}
use quent.Constraints.UnregisteredConstraints
use quent.Constraints.UnregisteredConstraints.{unregistered_constraints}
use quent.Constraints.UnresolvedReferences.{unresolved_references}
use quent.Constraints.RecursiveRecords.{recursive_records}
use quent.Constraints.Validate.{BaseConstraintsError, base_result, report_of, validate}

-- What each of the base constraints reports alone.
abbrev pub base_error : (Graph TypePath → List (List TypePath)) → Schema → BaseConstraintsError
base_error tarjan_scc s = record {
  invalid_references = walk unresolved_references [] s;
  recursive_records = walk (recursive_records tarjan_scc) [] s;
  entities_without_events = walk entities_without_events [] s;
  duplicate_type_paths = walk duplicate_type_paths [] s;
}

-- A validation in one walk reports what each of the constraints reports in a walk of its own.
pub validate-walks {ℓ κ} :
    {S : Type ℓ} {R : Type κ} (tarjan_scc : Graph TypePath → List (List TypePath))
    (constraints : Visitor S R) (state : S) (names : List Text) (s : Schema)
    → validate tarjan_scc constraints state names s ≡ record {
      base_constraints = base_result (base_error tarjan_scc s);
      unregistered_constraints =
          walk unregistered_constraints (UnregisteredConstraints.new names) s;
      results = walk constraints state s;
    }
unfolding validate
validate-walks tarjan_scc constraints state names s =
    let v5 = pair_visitor duplicate_type_paths constraints in
    let v4 = pair_visitor entities_without_events v5 in
    let v3 = pair_visitor (recursive_records tarjan_scc) v4 in
    let v2 = pair_visitor unregistered_constraints v3 in
    let start = UnregisteredConstraints.new names in
    let w1 = walk unresolved_references [] s in
    let w2 = walk unregistered_constraints start s in
    let w3 = walk (recursive_records tarjan_scc) [] s in
    let w4 = walk entities_without_events [] s in
    ap report_of (
      walk-pair_visitor unresolved_references v2 [] (start, ([], ([], ([], state)))) s
      ∙ ap (λ r. (w1, r))
          (walk-pair_visitor unregistered_constraints v3 start ([], ([], ([], state))) s)
      ∙ ap (λ r. (w1, (w2, r)))
          (walk-pair_visitor (recursive_records tarjan_scc) v4 [] ([], ([], state)) s)
      ∙ ap (λ r. (w1, (w2, (w3, r))))
          (walk-pair_visitor entities_without_events v5 [] ([], state) s)
      ∙ ap (λ r. (w1, (w2, (w3, (w4, r)))))
          (walk-pair_visitor duplicate_type_paths constraints [] state s))

values-entries {ℓ κ} :
    {K : Type ℓ} {V : Type κ} (key : V → K) (vs : List V) → values (entries key vs) ≡ vs
values-entries key [] = refl
values-entries key (v ∷ vs) = ap (λ r. v ∷ r) (values-entries key vs)

-- Entities that have events.
abbrev pub with_events : List Entity → Bool
with_events [] = true
with_events (e ∷ es) = not (eqb (length e.events) 0) && with_events es

eventless-with_events : (es : List Entity) → with_events es ≡ true → eventless es ≡ []
eventless-with_events [] h = refl
eventless-with_events (e ∷ es) h =
    let rest = eventless-with_events es (ground arith) in
    let some_events : eqb (length e.events) 0 ≡ false = ground arith in rw some_events rest

abbrev sharing : List TypePath → List Entity → List Text
sharing ps es = map (λ e. TypePath.display e.path) (keep (λ e. member e.path ps) es)

shared-disjoint :
    (ps : List TypePath) (es : List Entity)
    → disjoint (map (λ e. e.path) es) ps ≡ true
    → keep (λ e. member e.path ps) es ≡ []
shared-disjoint ps [] h = refl
shared-disjoint ps (e ∷ es) h = let rest = shared-disjoint ps es (ground arith) in ground arith

-- A schema that is built from entities that have events is reported neither for a path that is
-- declared twice nor for an entity without events.
pub build-base_error :
    (tarjan_scc : Graph TypePath → List (List TypePath)) (b : SchemaBuilder) (s : Schema)
    → Schema.build b ≡ ok s
    → with_events b.entities ≡ true
    → ((base_error tarjan_scc s).duplicate_type_paths ≡ [])
      × ((base_error tarjan_scc s).entities_without_events ≡ [])
unfolding shared_paths
build-base_error tarjan_scc b s h k =
    let (fine, same) = (schema_build-ok b s).0 h in
    let es =
      sym (ap values (ap (λ s. s.entities) same)) ∙ values-entries (λ e. e.path) b.entities in
    let rs = sym (ap values (ap (λ s. s.records) same)) ∙ values-entries (λ r. r.path) b.records in
    let apart : disjoint (map (λ e. e.path) b.entities) (map (λ r. r.path) b.records) ≡ true =
      ground arith in
    let found = shared-disjoint (map (λ r. r.path) b.records) b.entities apart in
    let none = eventless-with_events b.entities k in
    (
      walk-shared_paths s
          ∙ ap (sharing (map (λ r. r.path) (values s.records))) es
          ∙ ap (λ rs. sharing (map (λ r. r.path) rs) b.entities) rs
          ∙ ap (map (λ e. TypePath.display e.path)) found,
      walk-eventless s ∙ ap eventless es ∙ none,
    )
