-- ===== src/Fsm/Constraint.antt =====
-- crates/fsm/src/lib.rs: the constraint of an entity by a finite state machine. The traversals of a
-- graph, forward and backward, and the decoding of a topology are a library's; a hashed set is a
-- list, in the order in which it is iterated.
use quent.Base.{
  Bool, true, false, Option, none, some, List, [], ◌∷◌, ◌++◌, map, if◌then◌else◌, nat_eq, pair_eq,
  option_eq, list_eq,
}
use quent.Base.Text.{Text, text}
use quent.Base.Assoc.{Assoc, insert, lookup}
use quent.Base.Set.{member, add_all}
use quent.Base.Graph.{Graph}
use quent.Base.Result.{Result, ok, err}
use quent.Schema.Identifier.{Identifier}
use quent.Schema.TypePath.{TypePath}
use quent.Schema.Keys.{identifier_eq}
use quent.Schema.Elements.{Cardinality, once, multi, Event, Entity, values, Constraint, constraint}
use quent.Schema.Visitor.{Element, the_entity, Cursor, current}
use quent.Fsm.{
  Fsm, GraphNode, init, end, named, node_eq, states, is_final_state, graph, find_cyclic,
}

mutual
  pub data FsmError : Type 0 where
    invalid_data : TypePath → Text → FsmError
    unreachable_from_init : TypePath → Identifier → FsmError
    cannot_reach_final_state : TypePath → Identifier → FsmError
    initial_state_is_final : TypePath → Identifier → FsmError
    unknown_state : TypePath → Identifier → FsmError
    uncovered_event : TypePath → Identifier → FsmError
    cardinality_mismatch : TypePath → Identifier → Cardinality → Cardinality → FsmError
    multiple : FsmErrors → FsmError

  -- A list of errors.
  pub data FsmErrors : Type 0 where
    no_errors : FsmErrors
    more_errors : FsmError → FsmErrors → FsmErrors

abbrev pub event_names : Entity → List Identifier
event_names e = add_all [] (map (λ v. v.name) (values e.events))

-- The last event of a name gives its cardinality.
abbrev pub collect_cardinalities :
    Assoc Identifier Cardinality → List Event → Assoc Identifier Cardinality
collect_cardinalities m [] = m
collect_cardinalities m (v ∷ vs) = collect_cardinalities (insert v.name v.cardinality m) vs

abbrev pub cardinality_by_event : Entity → Assoc Identifier Cardinality
cardinality_by_event e = collect_cardinalities [] (values e.events)

abbrev pub cardinality_beq : Cardinality → Cardinality → Bool
cardinality_beq once once = true
cardinality_beq multi multi = true
cardinality_beq _ _ = false

-- A loop that pushes an error for each name that fails a test.
abbrev pub failing : (Identifier → Bool) → (Identifier → FsmError) → List Identifier → List FsmError
failing p error [] = []
failing p error (n ∷ ns) = let rest = failing p error ns in if p n then rest else error n ∷ rest

abbrev pub expected_cardinality : List Identifier → Identifier → Cardinality
expected_cardinality on_cycle n = if member n on_cycle then multi else once

abbrev pub mismatch : TypePath → Identifier → Cardinality → Option Cardinality → List FsmError
mismatch path n expected none = []
mismatch path n expected (some actual) =
    if cardinality_beq actual expected then [] else cardinality_mismatch path n expected actual ∷ []

abbrev pub mismatches :
    TypePath → List Identifier → Assoc Identifier Cardinality → List Identifier → List FsmError
mismatches path on_cycle cards [] = []
mismatches path on_cycle cards (n ∷ ns) =
    mismatch path n (expected_cardinality on_cycle n) (lookup n cards)
    ++ mismatches path on_cycle cards ns

module _ (tarjan_scc : Graph GraphNode → List (List GraphNode))
    (bfs bfs_reversed : Graph GraphNode → GraphNode → List GraphNode) where
  unfoldable pub check_entity : Entity → Fsm → List FsmError → List FsmError
  unfolding states is_final_state graph find_cyclic add_all member insert lookup
  check_entity e f errors =
      let names = event_names e in
      let all = add_all [] (states f) in
      let g = graph f in
      let reachable_from_init = bfs g init in
      let reaches_final = bfs_reversed g end in
      errors
      ++ failing (λ s. member s names) (unknown_state e.path) all
      ++ failing (λ n. member n all) (uncovered_event e.path) names
      ++ failing (λ s. member (named s) reachable_from_init) (unreachable_from_init e.path) all
      ++ failing (λ s. member (named s) reaches_final) (cannot_reach_final_state e.path) all
      ++ (if is_final_state f f.initial_state
          then initial_state_is_final e.path f.initial_state ∷ []
          else [])
      ++ mismatches e.path (find_cyclic tarjan_scc g f) (cardinality_by_event e) all

  module _ (decode : Text → Result Fsm Text) where
    abbrev pub check_decoded : List FsmError → Entity → Result Fsm Text → List FsmError
    check_decoded errors e (ok f) = check_entity e f errors
    check_decoded errors e (err m) =
        errors ++ invalid_data e.path (text "failed to decode fsm: " ++ m) ∷ []

    abbrev pub check_data : List FsmError → Entity → Option Text → List FsmError
    check_data errors e none =
        errors ++ invalid_data e.path (text "constraint data is missing") ∷ []
    check_data errors e (some raw) = check_decoded errors e (decode raw)

    abbrev pub check_constraint : List FsmError → Entity → Option Constraint → List FsmError
    check_constraint errors e none = errors
    check_constraint errors e (some c) = check_data errors e c.payload

    abbrev pub visit_element : List FsmError → Option Element → List FsmError
    visit_element errors (some (the_entity e)) =
        check_constraint errors e (constraint e.annotations (text "quent.fsm.v0.1.0"))
    visit_element errors _ = errors

    unfoldable pub visit : List FsmError → Cursor → List FsmError
    unfolding current constraint check_entity
    visit errors cursor = visit_element errors (current cursor)

abbrev pub errors_of : List FsmError → FsmErrors
errors_of [] = no_errors
errors_of (e ∷ es) = more_errors e (errors_of es)

unfoldable pub finish : List FsmError → Result {0, 0} Unit FsmError
finish [] = ok tt
finish (e ∷ []) = err e
finish (e ∷ f ∷ es) = err (multiple (errors_of (e ∷ f ∷ es)))
