-- ===== src/Constraints/RecursiveRecords/Cycles.antt =====
-- The records that are reported as recursive are those on a cycle of references.
use quent.Base.{
  ◌≡◌, ◌↔◌, inl, inr, true, ◌&&◌, ◌||◌, List, [], ◌∷◌, arith, ltb, Bool-cases, ◌==◌, nat_eq,
  pair_eq, option_eq, list_eq, length, set,
}
use quent.Base.Set.{member, set_insert, member-set_insert, member-append}
use quent.Base.Graph.{Graph, Cyclic, Components, in_large, in_large-or-Edge}
use quent.Schema.TypePath.{TypePath}
use quent.Schema.Keys.{type_path_eq}
use quent.Constraints.RecursiveRecords.{
  Edges, edges_from, graph, path_before, extend, insert_components, insert_loops, recursive,
}

member-extend :
    (p : TypePath) (set ps : List TypePath)
    → member p (extend set ps) ≡ (member p set || member p ps)
unfolding extend member
member-extend p set [] = ground arith
member-extend p set (q ∷ ps) =
    let here = member-set_insert path_before p q set in
    let rest = member-extend p (set_insert path_before q set) ps in ground arith

member-insert_components :
    (p : TypePath) (set : List TypePath) (cs : List (List TypePath))
    → member p (insert_components set cs) ≡ (member p set || in_large p cs)
unfolding insert_components
member-insert_components p set [] = ground arith
member-insert_components p set (c ∷ cs) =
    let here = member-extend p set c in
    let large = member-insert_components p (extend set c) cs in
    let small = member-insert_components p set cs in
    elim (Bool-cases (ltb 1 (length c))) [
      | inl t ↦ rw t (ground arith)
      | inr f ↦ rw f (ground arith)
    ]

member-edges_from :
    (p q : TypePath) (ts : List TypePath)
    → member (p, p) (edges_from q ts) ≡ ((p == q) && member q ts)
unfolding edges_from member
member-edges_from p q [] = ground arith
member-edges_from p q (t ∷ ts) =
    let rest = member-edges_from p q ts in
    ground (
      arith,
      type_path_eq.same_iff p q,
      type_path_eq.same_iff q p,
      type_path_eq.same_iff t p,
      type_path_eq.same_iff t q,
    )

member-insert_loops :
    (p : TypePath) (set : List TypePath) (edges : Edges)
    → member p (insert_loops set edges) ≡ (member p set || member (p, p) (graph edges))
unfolding insert_loops graph
member-insert_loops p set [] = ground arith
member-insert_loops p set ((source, targets) ∷ edges) =
    let here = member-set_insert path_before p source set in
    let loop = member-edges_from p source targets in
    let apart = member-append (p, p) (edges_from source targets) (graph edges) in
    let more = member-insert_loops p (set_insert path_before source set) edges in
    let less = member-insert_loops p set edges in
    let same = type_path_eq.same_iff p source in
    let same' = type_path_eq.same_iff source p in
    elim (Bool-cases (member source targets)) [
      | inl t ↦ rw t (ground (arith, same, same'))
      | inr f ↦ rw f (ground arith)
    ]

-- Where the strongly connected components of the references are what they should be, a record is
-- reported as recursive exactly where it is on a cycle of references.
pub recursive-Cyclic :
    (tarjan_scc : Graph TypePath → List (List TypePath)) (edges : Edges) (p : TypePath)
    → Components (graph edges) (tarjan_scc (graph edges))
    → (member p (recursive tarjan_scc edges) ≡ true) ↔ Cyclic (graph edges) p
unfolding recursive
recursive-Cyclic tarjan_scc edges p scc =
    let (there, back) = in_large-or-Edge (graph edges) (tarjan_scc (graph edges)) p scc in
    let large = member-insert_components p [] (tarjan_scc (graph edges)) in
    let loops = member-insert_loops p (insert_components [] (tarjan_scc (graph edges))) edges in
    let loop = member (p, p) (graph edges) in
    (
      λ h. elim (Bool-cases loop) [ inl t ↦ there (inr t) | inr f ↦ there (inl (ground arith)) ],
      λ h. elim (back h) [ inl l ↦ ground arith | inr l ↦ ground arith ],
    )
