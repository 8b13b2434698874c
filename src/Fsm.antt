-- ===== src/Fsm.antt =====
-- crates/fsm/src/lib.rs: the topology of a finite state machine, its graph and the cardinality of
-- its states. The partition of a graph into strongly connected components is a library's.
pub mod Constraint
pub mod Builder
pub mod OnCycle
pub mod Requirements
pub mod Built
pub mod Tests
use quent.Base.{
  ◌+◌, ◌≡◌, refl, ap, ◌↔◌, Bool, true, false, not, ◌&&◌, ◌||◌, Option, none, some, List, [], ◌∷◌,
  ◌++◌, ltb, if◌then◌else◌, Eq, ◌==◌, nat_eq, pair_eq, option_eq, list_eq, length, keep,
}
use quent.Base.Set.{member, add, add_all}
use quent.Base.Graph.{Graph}
use quent.Schema.Identifier.{Identifier}
use quent.Schema.Keys.{identifier_eq}
use quent.Schema.Elements.{Cardinality, once, multi}

pub record Transition : Type 0 where
  pub source : Identifier
  pub target : Identifier

pub record Fsm : Type 0 where
  pub initial_state : Identifier
  pub transitions : List Transition

pub data GraphNode : Type 0 where
  init : GraphNode
  end : GraphNode
  named : Identifier → GraphNode

abbrev pub node_beq : GraphNode → GraphNode → Bool
node_beq init init = true
node_beq end end = true
node_beq (named i) (named j) = i == j
node_beq _ _ = false

pub node_beq_iff : (m n : GraphNode) → (node_beq m n ≡ true) ↔ (m ≡ n)
node_beq_iff init init = (λ h. refl, λ h. refl)
node_beq_iff end end = (λ h. refl, λ h. refl)
node_beq_iff (named i) (named j) =
    let (there, back) = identifier_eq.same_iff i j in (λ h. ap named (there h), λ h. back cc)
node_beq_iff init end = (λ h. cc, λ h. cc)
node_beq_iff init (named j) = (λ h. cc, λ h. cc)
node_beq_iff end init = (λ h. cc, λ h. cc)
node_beq_iff end (named j) = (λ h. cc, λ h. cc)
node_beq_iff (named i) init = (λ h. cc, λ h. cc)
node_beq_iff (named i) end = (λ h. cc, λ h. cc)

instance abbrev pub node_eq : Eq GraphNode
node_eq = record { same = node_beq; same_iff = node_beq_iff }

abbrev pub endpoints : List Transition → List Identifier
endpoints [] = []
endpoints (t ∷ ts) = t.source ∷ t.target ∷ endpoints ts

-- May yield duplicates.
unfoldable pub states : Fsm → List Identifier
states f = f.initial_state ∷ endpoints f.transitions

abbrev pub has_source : Identifier → List Transition → Bool
has_source s [] = false
has_source s (t ∷ ts) = (t.source == s) || has_source s ts

unfoldable pub is_final_state : Fsm → Identifier → Bool
unfolding states member
is_final_state f s = member s (states f) && not (has_source s f.transitions)

abbrev pub transition_edges : List Transition → Graph GraphNode
transition_edges [] = []
transition_edges (t ∷ ts) = (named t.source, named t.target) ∷ transition_edges ts

abbrev pub final_edges : List Identifier → Graph GraphNode
final_edges [] = []
final_edges (s ∷ ss) = (named s, end) ∷ final_edges ss

unfoldable pub graph : Fsm → Graph GraphNode
unfolding states is_final_state
graph f =
    (init, named f.initial_state) ∷ transition_edges f.transitions
    ++ final_edges (keep (is_final_state f) (states f))

-- The names of a component's nodes, added to the set.
unfoldable pub add_named : List Identifier → List GraphNode → List Identifier
unfolding add
add_named on_cycle [] = on_cycle
add_named on_cycle (named s ∷ ns) = add_named (add on_cycle s) ns
add_named on_cycle (_ ∷ ns) = add_named on_cycle ns

unfoldable pub add_components : List Identifier → List (List GraphNode) → List Identifier
unfolding add_named
add_components on_cycle [] = on_cycle
add_components on_cycle (c ∷ cs) =
    add_components (if ltb 1 (length c) then add_named on_cycle c else on_cycle) cs

unfoldable pub add_loops : List Identifier → List Transition → List Identifier
unfolding add
add_loops on_cycle [] = on_cycle
add_loops on_cycle (t ∷ ts) =
    add_loops (if t.source == t.target then add on_cycle t.source else on_cycle) ts

module _ (tarjan_scc : Graph GraphNode → List (List GraphNode)) where
  unfoldable pub find_cyclic : Graph GraphNode → Fsm → List Identifier
  unfolding add_components add_loops
  find_cyclic g f = add_loops (add_components [] (tarjan_scc g)) f.transitions

  unfoldable pub cardinality : Fsm → Identifier → Option Cardinality
  unfolding states member graph find_cyclic
  cardinality f s =
      if member s (states f)
      then some (if member s (find_cyclic (graph f) f) then multi else once)
      else none
