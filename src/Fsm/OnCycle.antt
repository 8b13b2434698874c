-- ===== src/Fsm/OnCycle.antt =====
-- The states that are found on a cycle are those on a cycle of transitions.
use quent.Base.{
  ◌≡◌, refl, sym, ap, ◌∙◌, ◌↔◌, inl, inr, true, false, ◌&&◌, ◌||◌, List, [], ◌∷◌, arith, ltb,
  Bool-cases, ◌==◌, nat_eq, pair_eq, option_eq, list_eq, length, keep,
}
use quent.Base.Set.{member, add, member-add, member-append}
use quent.Base.Graph.{Graph, Cyclic, Components, in_large, in_large-or-Edge}
use quent.Schema.Identifier.{Identifier}
use quent.Schema.Keys.{identifier_eq}
use quent.Fsm.{
  Transition, Fsm, GraphNode, init, end, named, node_eq, states, is_final_state, graph, find_cyclic,
  add_named, add_components, add_loops, transition_edges, final_edges,
}

member-add_named :
    (s : Identifier) (on_cycle : List Identifier) (c : List GraphNode)
    → member s (add_named on_cycle c) ≡ (member s on_cycle || member (named s) c)
unfolding add_named member
member-add_named s on_cycle [] = ground arith
member-add_named s on_cycle (init ∷ c) = member-add_named s on_cycle c
member-add_named s on_cycle (end ∷ c) = member-add_named s on_cycle c
member-add_named s on_cycle (named t ∷ c) =
    let here = member-add s on_cycle t in
    let rest = member-add_named s (add on_cycle t) c in ground arith

member-add_components :
    (s : Identifier) (on_cycle : List Identifier) (cs : List (List GraphNode))
    → member s (add_components on_cycle cs) ≡ (member s on_cycle || in_large (named s) cs)
unfolding add_components
member-add_components s on_cycle [] = ground arith
member-add_components s on_cycle (c ∷ cs) =
    let here = member-add_named s on_cycle c in
    let large = member-add_components s (add_named on_cycle c) cs in
    let small = member-add_components s on_cycle cs in
    elim (Bool-cases (ltb 1 (length c))) [
      | inl t ↦ rw t (ground arith)
      | inr f ↦ rw f (ground arith)
    ]

member-add_loops :
    (s : Identifier) (on_cycle : List Identifier) (ts : List Transition)
    → member s (add_loops on_cycle ts)
      ≡ (member s on_cycle || member (named s, named s) (transition_edges ts))
unfolding add_loops member
member-add_loops s on_cycle [] = ground arith
member-add_loops s on_cycle (t ∷ ts) =
    let here = member-add s on_cycle t.source in
    let more = member-add_loops s (add on_cycle t.source) ts in
    let less = member-add_loops s on_cycle ts in
    let left = identifier_eq.same_iff t.source s in
    let right = identifier_eq.same_iff t.target s in
    let loop = identifier_eq.same_iff t.source t.target in
    elim (Bool-cases (t.source == t.target)) [
      | inl q ↦
          let same : (t.source == s) ≡ (t.target == s) = ap (λ i. i == s) (loop.0 q) in
          rw q (ground arith)
      | inr q ↦
          let apart : (t.source == s && t.target == s) ≡ false = elim (Bool-cases (t.source == s)) [
            | inl a ↦ elim (Bool-cases (t.target == s)) [
              | inl b ↦ let bad = loop.1 (left.0 a ∙ sym (right.0 b)) in cc
              | inr b ↦ ground arith
            ]
            | inr a ↦ ground arith
          ] in
          rw q (ground arith)
    ]

loop-final_edges :
    (s : Identifier) (ss : List Identifier) → member (named s, named s) (final_edges ss) ≡ false
unfolding member
loop-final_edges s [] = refl
loop-final_edges s (t ∷ ss) = let rest = loop-final_edges s ss in ground arith

loop-graph :
    (f : Fsm) (s : Identifier)
    → member (named s, named s) (graph f)
      ≡ member (named s, named s) (transition_edges f.transitions)
unfolding graph member
loop-graph f s =
    let finals = keep (is_final_state f) (states f) in
    let none = loop-final_edges s finals in
    let apart =
      member-append (named s, named s) (transition_edges f.transitions) (final_edges finals) in
    ground arith

-- Where the strongly connected components of the graph are what they should be, a state is found on
-- a cycle exactly where there is one.
pub find_cyclic-Cyclic :
    (tarjan_scc : Graph GraphNode → List (List GraphNode)) (f : Fsm) (s : Identifier)
    → Components (graph f) (tarjan_scc (graph f))
    → (member s (find_cyclic tarjan_scc (graph f) f) ≡ true) ↔ Cyclic (graph f) (named s)
unfolding find_cyclic member
find_cyclic-Cyclic tarjan_scc f s scc =
    let (there, back) = in_large-or-Edge (graph f) (tarjan_scc (graph f)) (named s) scc in
    let large = member-add_components s [] (tarjan_scc (graph f)) in
    let loops = member-add_loops s (add_components [] (tarjan_scc (graph f))) f.transitions in
    let same = loop-graph f s in
    (
      λ h. elim (Bool-cases (member (named s, named s) (graph f))) [
        | inl t ↦ there (inr t)
        | inr n ↦ there (inl (ground arith))
      ],
      λ h. elim (back h) [ inl l ↦ ground arith | inr l ↦ ground arith ],
    )
