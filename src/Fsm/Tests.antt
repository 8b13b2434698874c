-- ===== src/Fsm/Tests.antt =====
-- A state machine of two states, the entity that is built from it, and its check.
use quent.Base.{
  ℕ, ◌≡◌, refl, ◌↔◌, true, false, some, List, [], ◌∷◌, map, if◌then◌else◌, ◌==◌, nat_eq, pair_eq,
  option_eq, list_eq,
}
use quent.Base.Text.{Text, text}
use quent.Base.Set.{member}
use quent.Base.Graph.{Graph, Reach, stay, step, Components}
use quent.Base.Graph.Ranked.{ranked-Components, Reach-closed, Reach-closed_back, All-member}
use quent.Base.Result.{Result, ok}
use quent.Schema.Identifier.{Identifier}
use quent.Schema.Keys.{identifier_eq}
use quent.Schema.Elements.{once, Entity, Event}
use quent.Schema.Builder.Annotations
use quent.Schema.Tests.{identifier, path, plain}
use quent.Fsm.{Fsm, GraphNode, init, end, named, node_eq, graph}
use quent.Fsm.Constraint.{check_entity}
use quent.Fsm.Requirements.{Requirements, check_entity-Requirements}
use quent.Fsm.Builder
use quent.Fsm.Builder.{StateDecl, FsmEntityBuilder, fsm_of}
use quent.Fsm.Built.{build-Requirements}

abbrev idle : Identifier
idle = identifier (text "idle")

abbrev done : Identifier
done = identifier (text "done")

abbrev idle_state : StateDecl
idle_state = record { name = idle; attributes = []; to = done ∷ []; initial = true }

abbrev done_state : StateDecl
done_state = record { name = done; attributes = []; to = []; initial = false }

abbrev two_states : FsmEntityBuilder
two_states = record {
  path = path (text "Foo") (text "Task");
  annotations = Annotations.new;
  states = idle_state ∷ done_state ∷ [];
}

abbrev machine : Fsm
machine = record {
  initial_state = idle;
  transitions = record { source = idle; target = done } ∷ [];
}

abbrev nodes : List GraphNode
nodes = init ∷ named idle ∷ named done ∷ end ∷ []

abbrev rank : GraphNode → ℕ
rank init = 0
rank (named s) = if s == idle then 1 else 2
rank end = 3

abbrev components : Graph GraphNode → List (List GraphNode)
components g = map (λ n. n ∷ []) nodes

abbrev traversal : Graph GraphNode → GraphNode → List GraphNode
traversal g n = nodes

abbrev encode : Fsm → Result Text Text
encode f = ok (text "{}")

abbrev event_of : Identifier → Event
event_of name = record { name = name; cardinality = once; payload = []; annotations = plain }

abbrev task : Entity
task = record {
  path = path (text "Foo") (text "Task");
  events = (idle, event_of idle) ∷ (done, event_of done) ∷ [];
  annotations = record plain {
    constraints =
        (
          text "quent.fsm.v0.1.0",
          record { name = text "quent.fsm.v0.1.0"; payload = some (text "{}") },
        )
        ∷ [];
  };
}

machine-Components : Components (graph machine) (components (graph machine))
unfolding graph
machine-Components = ranked-Components rank (graph machine) nodes refl

to_idle : Reach (graph machine) init (named idle)
unfolding graph
to_idle = step init (named idle) stay refl

to_done : Reach (graph machine) init (named done)
unfolding graph
to_done = step (named idle) (named done) to_idle refl

from_done : Reach (graph machine) (named done) end
unfolding graph
from_done = step (named done) end stay refl

from_idle : Reach (graph machine) (named idle) end
unfolding graph
from_idle = step (named done) end (step (named idle) (named done) stay refl) refl

all_the_way : Reach (graph machine) init end
unfolding graph
all_the_way = step (named done) end to_done refl

machine-forward :
    (n : GraphNode)
    → (member n (traversal (graph machine) init) ≡ true) ↔ Reach (graph machine) init n
unfolding graph member
machine-forward n = (
  λ h.
      All-member (λ m. Reach (graph machine) init m) nodes n
        (stay, (to_idle, (to_done, (all_the_way, tt)))) h,
  λ r. Reach-closed nodes (graph machine) init n refl refl r,
)

machine-backward :
    (n : GraphNode)
    → (member n (traversal (graph machine) end) ≡ true) ↔ Reach (graph machine) n end
unfolding graph member
machine-backward n = (
  λ h.
      All-member (λ m. Reach (graph machine) m end) nodes n
        (all_the_way, (from_idle, (from_done, (stay, tt)))) h,
  λ r. Reach-closed_back nodes (graph machine) n end refl refl r,
)

check_entity-Requirements_example :
    (check_entity components traversal traversal task machine [] ≡ []) ↔ Requirements task machine
check_entity-Requirements_example =
    check_entity-Requirements components traversal traversal task machine machine-Components
      machine-forward machine-backward

task-checked : check_entity components traversal traversal task machine [] ≡ []
unfolding check_entity
task-checked = refl

two_states-built : Builder.build components traversal traversal encode two_states ≡ ok task
unfolding Builder.build
two_states-built = refl

build-Requirements_example : Requirements task machine
unfolding Builder.build
build-Requirements_example =
    build-Requirements components traversal traversal encode two_states idle task machine-Components
      machine-forward machine-backward refl two_states-built
