-- ===== src/Constraints/Tests.antt =====
-- The constraints on a schema with a record that refers to itself and to one that is not there.
use quent.Base.{
  ℕ, ◌≡◌, refl, ◌↔◌, true, not, ◌&&◌, List, [], ◌∷◌, map, if◌then◌else◌, ◌==◌, nat_eq, pair_eq,
  option_eq, list_eq,
}
use quent.Base.Text.{text}
use quent.Base.Set.{member}
use quent.Base.Graph.{Graph, Cyclic, Components}
use quent.Base.Graph.Ranked.{ranked-Components}
use quent.Base.Result.{ok}
use quent.Schema.TypePath.{TypePath}
use quent.Schema.Keys.{type_path_eq}
use quent.Schema.Elements.{schema_record}
use quent.Schema.Builder.Schema
use quent.Schema.Visitor.{walk, current, empty_visitor}
use quent.Schema.Visitor.Positions.{positions}
use quent.Schema.Tests.{bar_plan, foo_query, model, builder}
use quent.Constraints.UnresolvedReferences.{unresolved_references, describe}
use quent.Constraints.UnresolvedReferences.Dangling.{dangling, walk-dangling}
use quent.Constraints.UnregisteredConstraints
use quent.Constraints.UnregisteredConstraints.{unregistered_constraints}
use quent.Constraints.UnregisteredConstraints.Mentions.{mentioned, walk-unregistered}
use quent.Constraints.RecursiveRecords.{Edges, graph, recursive}
use quent.Constraints.RecursiveRecords.Cycles.{recursive-Cyclic}
use quent.Constraints.Validate.{base_result, validate}
use quent.Constraints.Validate.Built.{base_error, validate-walks, build-base_error}

walk-dangling_example : walk unresolved_references [] model ≡ dangling model (positions model)
walk-dangling_example = walk-dangling model

model-dangling :
    dangling model (positions model) ≡ text "Model.Bar::Plan.lost.Record(Bar::Lost): Bar::Lost" ∷ []
unfolding positions current schema_record describe
model-dangling = refl

walk-unregistered_example :
    member
      (text "quent.x")
      (walk unregistered_constraints (UnregisteredConstraints.new (text "quent.fsm" ∷ [])) model)
    ≡ (mentioned (text "quent.x") (positions model)
        && not (member (text "quent.x") (text "quent.fsm" ∷ [])))
walk-unregistered_example = walk-unregistered (text "quent.x") (text "quent.fsm" ∷ []) model

-- A record that refers to itself, and another that refers to it.
abbrev edges : Edges
edges = (bar_plan, bar_plan ∷ []) ∷ (foo_query, bar_plan ∷ []) ∷ []

abbrev rank : TypePath → ℕ
rank p = if p == bar_plan then 1 else 0

abbrev components : Graph TypePath → List (List TypePath)
components g = map (λ n. n ∷ []) (bar_plan ∷ foo_query ∷ [])

edges-Components : Components (graph edges) (components (graph edges))
unfolding graph
edges-Components = ranked-Components rank (graph edges) (bar_plan ∷ foo_query ∷ []) refl

recursive-Cyclic_example :
    (member bar_plan (recursive components edges) ≡ true) ↔ Cyclic (graph edges) bar_plan
recursive-Cyclic_example = recursive-Cyclic components edges bar_plan edges-Components

recursive-edges : recursive components edges ≡ bar_plan ∷ []
unfolding recursive
recursive-edges = refl

validate-walks_example : validate components empty_visitor tt [] model ≡ record {
  base_constraints = base_result (base_error components model);
  unregistered_constraints = walk unregistered_constraints (UnregisteredConstraints.new []) model;
  results = walk empty_visitor tt model;
}
validate-walks_example = validate-walks components empty_visitor tt [] model

builder-builds : Schema.build builder ≡ ok model
unfolding Schema.build
builder-builds = refl

build-base_error_example :
    ((base_error components model).duplicate_type_paths ≡ [])
    × ((base_error components model).entities_without_events ≡ [])
build-base_error_example = build-base_error components builder model builder-builds refl
