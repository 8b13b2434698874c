-- ===== src/Fsm/Builder.antt =====
-- crates/fsm/src/builder.rs: the builder of an entity from the states of a finite state machine.
-- The encoding of a topology is a library's.
use quent.Base.{
  Bool, Option, none, some, List, [], ◌∷◌, ◌++◌, map, if◌then◌else◌, nat_eq, pair_eq, option_eq,
  list_eq, keep, or_else,
}
use quent.Base.Text.{Text, text}
use quent.Base.Set.{member}
use quent.Base.Graph.{Graph}
use quent.Base.Result.{Result, ok, err, ◌>>=◌, map_err}
use quent.Schema.Identifier.{Identifier}
use quent.Schema.TypePath.{TypePath}
use quent.Schema.Keys.{identifier_eq}
use quent.Schema.Elements.{Annotations, once, Field, Event, Entity}
use quent.Schema.Builder.{BuilderError}
use quent.Schema.Builder.Annotations
use quent.Schema.Builder.Annotations.{AnnotationsBuilder, from_annotations, with_constraint}
use quent.Schema.Builder.Event
use quent.Schema.Builder.Entity
use quent.Schema.Builder.Entity.{EntityBuilder}
use quent.Fsm
use quent.Fsm.{Transition, Fsm, GraphNode}
use quent.Fsm.Constraint.{FsmError, check_entity}

pub record StateDecl : Type 0 where
  pub name : Identifier
  pub attributes : List Field
  pub to : List Identifier
  pub initial : Bool

pub record FsmEntityBuilder : Type 0 where
  pub path : TypePath
  pub annotations : AnnotationsBuilder
  pub states : List StateDecl

pub data FsmEntityBuilderError : Type 0 where
  no_initial_state : FsmEntityBuilderError
  multiple_initial_states : List Identifier → FsmEntityBuilderError
  duplicate_state : Identifier → FsmEntityBuilderError
  build_failed : BuilderError → FsmEntityBuilderError
  serialize : Text → FsmEntityBuilderError
  invalid : FsmError → FsmEntityBuilderError

unfoldable pub new : TypePath → FsmEntityBuilder
new path = record { path = path; annotations = Annotations.new; states = [] }

unfoldable pub with_annotations : FsmEntityBuilder → Annotations → FsmEntityBuilder
unfolding from_annotations
with_annotations b a = record b { annotations = from_annotations a }

unfoldable pub with_state : FsmEntityBuilder → StateDecl → FsmEntityBuilder
with_state b s = record b { states = b.states ++ s ∷ [] }

unfoldable pub with_states : FsmEntityBuilder → List StateDecl → FsmEntityBuilder
with_states b ss = record b { states = b.states ++ ss }

-- The first state whose name has been seen.
unfoldable pub duplicate : List Identifier → List StateDecl → Option Identifier
unfolding member
duplicate seen [] = none
duplicate seen (s ∷ ss) =
    let rest = duplicate (s.name ∷ seen) ss in if member s.name seen then some s.name else rest

unfoldable pub initials : List StateDecl → List Identifier
initials ss = map (λ s. s.name) (keep (λ s. s.initial) ss)

abbrev pub reject_duplicate : Option Identifier → Result {0, 0} Unit FsmEntityBuilderError
reject_duplicate none = ok tt
reject_duplicate (some name) = err (duplicate_state name)

abbrev pub the_initial : List Identifier → Result Identifier FsmEntityBuilderError
the_initial [] = err no_initial_state
the_initial (i ∷ []) = ok i
the_initial (i ∷ j ∷ is) = err (multiple_initial_states (i ∷ j ∷ is))

abbrev pub transitions_from : Identifier → List Identifier → List Transition
transitions_from source [] = []
transitions_from source (t ∷ ts) =
    record { source = source; target = t } ∷ transitions_from source ts

unfoldable pub transitions_of : List StateDecl → List Transition
transitions_of [] = []
transitions_of (s ∷ ss) = transitions_from s.name s.to ++ transitions_of ss

-- The state machine of the states, from an initial one.
abbrev pub fsm_of : FsmEntityBuilder → Identifier → Fsm
fsm_of b initial = record { initial_state = initial; transitions = transitions_of b.states }

abbrev pub reject_invalid : Entity → List FsmError → Result Entity FsmEntityBuilderError
reject_invalid e [] = ok e
reject_invalid e (x ∷ xs) = err (invalid x)

module _ (tarjan_scc : Graph GraphNode → List (List GraphNode))
    (bfs bfs_reversed : Graph GraphNode → GraphNode → List GraphNode)
    (encode : Fsm → Result Text Text) where
  unfoldable pub state_event : Fsm → StateDecl → Result Event BuilderError
  unfolding Fsm.cardinality Event.new Event.with_fields Event.build
  state_event f s = Event.build (
      Event.with_fields (Event.new s.name (or_else (Fsm.cardinality tarjan_scc f s.name) once))
        s.attributes)

  -- The loop over the states.
  unfoldable pub add_events :
      Fsm → EntityBuilder → List StateDecl → Result EntityBuilder FsmEntityBuilderError
  unfolding state_event Entity.with_event
  add_events f b [] = ok b
  add_events f b (s ∷ ss) = do
    event ← map_err build_failed (state_event f s)
    add_events f (Entity.with_event b event) ss

  -- The entity with its events and the constraint, not yet validated.
  unfoldable pub assemble : FsmEntityBuilder → Fsm → Result Entity FsmEntityBuilderError
  unfolding add_events with_constraint Annotations.build Entity.new Entity.with_annotations
      Entity.build
  assemble b f = do
    entity ← add_events f (Entity.new b.path) b.states
    encoded ← map_err serialize (encode f)
    annotations ←
        map_err build_failed (
          Annotations.build
            (with_constraint b.annotations (text "quent.fsm.v0.1.0") (some encoded)))
    map_err build_failed (Entity.build (Entity.with_annotations entity annotations))

  unfoldable pub build_validated : FsmEntityBuilder → Fsm → Result Entity FsmEntityBuilderError
  unfolding assemble check_entity
  build_validated b f = do
    entity ← assemble b f
    reject_invalid entity (check_entity tarjan_scc bfs bfs_reversed entity f [])

  unfoldable pub build : FsmEntityBuilder → Result Entity FsmEntityBuilderError
  unfolding duplicate initials transitions_of build_validated
  build b = do
    _ ← reject_duplicate (duplicate [] b.states)
    initial ← the_initial (initials b.states)
    build_validated b (fsm_of b initial)
