-- ===== src/Fsm/Built.antt =====
-- An entity that is built from states meets the requirements of their state machine.
use quent.Base.{
  ◌≡◌, refl, sym, ap, ◌∙◌, ◌↔◌, true, List, [], ◌∷◌, nat_eq, pair_eq, option_eq, list_eq,
}
use mathlib.Core.Path.{subst}
use quent.Base.Text.{Text}
use quent.Base.Set.{member}
use quent.Base.Graph.{Graph, Reach, Components}
use quent.Base.Result.{Result, ok, ◌>>=◌, bind_ok}
use quent.Schema.Identifier.{Identifier}
use quent.Schema.Elements.{Entity}
use quent.Fsm.{Fsm, GraphNode, init, end, node_eq, graph}
use quent.Fsm.Constraint.{FsmError, check_entity}
use quent.Fsm.Requirements.{Requirements, check_entity-Requirements}
use quent.Fsm.Builder
use quent.Fsm.Builder.{
  FsmEntityBuilder, FsmEntityBuilderError, fsm_of, initials, transitions_of, reject_invalid,
  the_initial, assemble, build_validated, reject_duplicate, duplicate,
}

reject_invalid-ok :
    (e d : Entity) (errors : List FsmError)
    → reject_invalid e errors ≡ ok d
    → (errors ≡ []) × (e ≡ d)
reject_invalid-ok e d [] h = (refl, cc)
reject_invalid-ok e d (x ∷ xs) h = cc

the_initial-ok : (is : List Identifier) (i : Identifier) → the_initial is ≡ ok i → is ≡ i ∷ []
the_initial-ok [] i h = cc
the_initial-ok (j ∷ []) i h = let same : j ≡ i = cc in ap (λ k. k ∷ []) same
the_initial-ok (j ∷ k ∷ is) i h = cc

module _ (tarjan_scc : Graph GraphNode → List (List GraphNode))
    (bfs bfs_reversed : Graph GraphNode → GraphNode → List GraphNode)
    (encode : Fsm → Result Text Text) where
  build_validated-checked :
      (b : FsmEntityBuilder) (f : Fsm) (d : Entity)
      → build_validated tarjan_scc bfs bfs_reversed encode b f ≡ ok d
      → check_entity tarjan_scc bfs bfs_reversed d f [] ≡ []
  unfolding build_validated
  build_validated-checked b f d h =
      let checked : Entity → Result Entity FsmEntityBuilderError =
        λ e. reject_invalid e (check_entity tarjan_scc bfs bfs_reversed e f []) in
      let (e, made, h) =
        (bind_ok (assemble tarjan_scc bfs bfs_reversed encode b f) checked d).0 h in
      let (clean, same) =
        reject_invalid-ok e d (check_entity tarjan_scc bfs bfs_reversed e f []) h in
      ap (λ x. check_entity tarjan_scc bfs bfs_reversed x f []) (sym same) ∙ clean

  -- Where the components and the traversals of the graph of its states are what they should be, an
  -- entity that is built meets the requirements of the state machine of the states, whose initial
  -- state is the only one that is marked.
  pub build-Requirements :
      (b : FsmEntityBuilder) (i : Identifier) (d : Entity)
      → Components (graph (fsm_of b i)) (tarjan_scc (graph (fsm_of b i)))
      → ((n : GraphNode)
          → (member n (bfs (graph (fsm_of b i)) init) ≡ true) ↔ Reach (graph (fsm_of b i)) init n)
      → ((n : GraphNode)
          → (member n (bfs_reversed (graph (fsm_of b i)) end) ≡ true)
            ↔ Reach (graph (fsm_of b i)) n end)
      → initials b.states ≡ i ∷ []
      → Builder.build tarjan_scc bfs bfs_reversed encode b ≡ ok d
      → Requirements d (fsm_of b i)
  unfolding Builder.build
  build-Requirements b i d scc forward backward one h =
      let validated : Identifier → Result Entity FsmEntityBuilderError =
        λ i. build_validated tarjan_scc bfs bfs_reversed encode b (fsm_of b i) in
      let rest : Unit {0} → Result Entity FsmEntityBuilderError =
        λ u. the_initial (initials b.states) >>= validated in
      let (u, fresh, h) = (bind_ok (reject_duplicate (duplicate [] b.states)) rest d).0 h in
      let (j, found, h) = (bind_ok (the_initial (initials b.states)) validated d).0 h in
      let the_one = sym (the_initial-ok (initials b.states) j found) ∙ one in
      let same : j ≡ i = cc in
      let checked =
        build_validated-checked b (fsm_of b i) d (subst (λ k. validated k ≡ ok d) same h) in
      (check_entity-Requirements tarjan_scc bfs bfs_reversed d (fsm_of b i) scc forward backward).0
        checked
