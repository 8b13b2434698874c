-- ===== src/Fsm/Requirements.antt =====
-- An entity passes the check of its state machine exactly where it meets the requirements.
use quent.Base.{
  ◌≡◌, refl, sym, ◌∙◌, ◌↔◌, ◌⊎◌, inl, inr, Bool, true, false, Option, none, some, List, [], ◌∷◌,
  ◌++◌, map, arith, if◌then◌else◌, Bool-cases, ◌==◌, nat_eq, pair_eq, option_eq, list_eq,
}
use mathlib.Core.Path.{subst}
use quent.Base.Assoc.{Assoc, lookup}
use quent.Base.Set.{member, add_all, member-add_all}
use quent.Base.Graph.{Graph, Reach, Cyclic, Components}
use quent.Schema.Identifier.{Identifier}
use quent.Schema.TypePath.{TypePath}
use quent.Schema.Keys.{identifier_eq}
use quent.Schema.Elements.{Cardinality, once, multi, Entity, values}
use quent.Fsm.{
  Fsm, GraphNode, init, end, named, node_eq, states, is_final_state, graph, find_cyclic,
}
use quent.Fsm.OnCycle.{find_cyclic-Cyclic}
use quent.Fsm.Constraint.{
  FsmError, check_entity, failing, event_names, mismatches, mismatch, cardinality_by_event,
  cardinality_beq, expected_cardinality, initial_state_is_final, unknown_state, uncovered_event,
  unreachable_from_init, cannot_reach_final_state,
}

append_nil_iff {ℓ} : {A : Type ℓ} (xs ys : List A) → (xs ++ ys ≡ []) ↔ ((xs ≡ []) × (ys ≡ []))
append_nil_iff [] ys = (λ h. (refl, h), λ h. h.1)
append_nil_iff (x ∷ xs) ys = (λ h. cc, λ h. cc)

six_nil_iff {ℓ} :
    {A : Type ℓ} (a b c d x y : List A)
    → (a ++ b ++ c ++ d ++ x ++ y ≡ [])
      ↔ ((a ≡ []) × (b ≡ []) × (c ≡ []) × (d ≡ []) × (x ≡ []) × (y ≡ []))
six_nil_iff a b c d x y = (
  λ h.
      let (h, hy) = (append_nil_iff (a ++ b ++ c ++ d ++ x) y).0 h in
      let (h, hx) = (append_nil_iff (a ++ b ++ c ++ d) x).0 h in
      let (h, hd) = (append_nil_iff (a ++ b ++ c) d).0 h in
      let (h, hc) = (append_nil_iff (a ++ b) c).0 h in
      let (ha, hb) = (append_nil_iff a b).0 h in (ha, hb, hc, hd, hx, hy),
  λ (ha, hb, hc, hd, hx, hy). rw (ha, hb, hc, hd, hx, hy) refl,
)

-- What holds of each item of a list.
abbrev Each {ℓ} : (Identifier → Type ℓ) → List Identifier → Type ℓ
Each P ns = (n : Identifier) → member n ns ≡ true → P n

Each-nil {ℓ} : (P : Identifier → Type ℓ) → Each P []
unfolding member
Each-nil P n k = absurd (ground arith)

Each-cons {ℓ} :
    (P : Identifier → Type ℓ) (m : Identifier) (ns : List Identifier)
    → Each P (m ∷ ns) ↔ (P m × Each P ns)
unfolding member
Each-cons P m ns = (
  λ h. (
    h m (let same = (identifier_eq.same_iff m m).1 refl in ground arith),
    λ n k. h n (ground arith),
  ),
  λ (here, rest) n k. elim (Bool-cases (m == n)) [
    | inl t ↦ subst P ((identifier_eq.same_iff m n).0 t) here
    | inr f ↦ rest n (ground arith)
  ],
)

failing-none :
    (p : Identifier → Bool) (error : Identifier → FsmError) (ns : List Identifier)
    → (failing p error ns ≡ []) ↔ Each (λ n. p n ≡ true) ns
failing-none p error [] = (λ h. Each-nil (λ n. p n ≡ true), λ h. refl)
failing-none p error (m ∷ ns) =
    let (there, back) = failing-none p error ns in
    let each = Each-cons (λ n. p n ≡ true) m ns in
    elim (Bool-cases (p m)) [
      | inl t ↦ rw t (λ h. each.1 (t, there h), λ h. back (each.0 h).1)
      | inr f ↦ rw f (λ h. cc, λ h. let bad = (each.0 h).0 in cc)
    ]

cardinality_beq_iff : (a b : Cardinality) → (cardinality_beq a b ≡ true) ↔ (a ≡ b)
cardinality_beq_iff once once = (λ h. refl, λ h. refl)
cardinality_beq_iff multi multi = (λ h. refl, λ h. refl)
cardinality_beq_iff once multi = (λ h. cc, λ h. cc)
cardinality_beq_iff multi once = (λ h. cc, λ h. cc)

mismatch-none :
    (path : TypePath) (n : Identifier) (expected : Cardinality) (o : Option Cardinality)
    → (mismatch path n expected o ≡ []) ↔ ((c : Cardinality) → o ≡ some c → c ≡ expected)
mismatch-none path n expected none = (λ h c k. cc, λ h. refl)
mismatch-none path n expected (some actual) =
    let same = cardinality_beq_iff actual expected in
    elim (Bool-cases (cardinality_beq actual expected)) [
      | inl t ↦ rw t (λ h c k. let e : actual ≡ c = cc in sym e ∙ same.0 t, λ h. refl)
      | inr f ↦ rw f (λ h. cc, λ h. let bad = same.1 (h actual refl) in cc)
    ]

mismatches-none :
    (path : TypePath) (on_cycle : List Identifier) (cards : Assoc Identifier Cardinality)
    (ns : List Identifier)
    → (mismatches path on_cycle cards ns ≡ [])
      ↔ Each
          (λ n. (c : Cardinality) → lookup n cards ≡ some c → c ≡ expected_cardinality on_cycle n)
          ns
mismatches-none path on_cycle cards [] = (
  λ h.
      Each-nil
        (λ n. (c : Cardinality) → lookup n cards ≡ some c → c ≡ expected_cardinality on_cycle n),
  λ h. refl,
)
mismatches-none path on_cycle cards (m ∷ ns) =
    let (there, back) = mismatches-none path on_cycle cards ns in
    let each =
      Each-cons
        (λ n. (c : Cardinality) → lookup n cards ≡ some c → c ≡ expected_cardinality on_cycle n) m
        ns in
    let here = mismatch-none path m (expected_cardinality on_cycle m) (lookup m cards) in
    let both =
      append_nil_iff (mismatch path m (expected_cardinality on_cycle m) (lookup m cards))
        (mismatches path on_cycle cards ns) in
    (
      λ h. let (a, b) = both.0 h in each.1 (here.0 a, there b),
      λ h. let (a, b) = each.0 h in both.1 (here.1 a, back b),
    )

abbrev pub IsState : Fsm → Identifier → Type 0
IsState f s = member s (states f) ≡ true

abbrev pub IsEvent : Entity → Identifier → Type 0
IsEvent e n = member n (map (λ v. v.name) (values e.events)) ≡ true

-- The six requirements on an entity and its state machine. The graph has a node before the initial
-- state and one after the final states.
pub record Requirements (e : Entity) (f : Fsm) : Type 0 where
  pub states_are_events : (s : Identifier) → IsState f s → IsEvent e s
  pub events_are_states : (n : Identifier) → IsEvent e n → IsState f n
  pub reachable : (s : Identifier) → IsState f s → Reach (graph f) init (named s)
  pub finishing : (s : Identifier) → IsState f s → Reach (graph f) (named s) end
  pub initial_not_final : is_final_state f f.initial_state ≡ false
  pub cardinalities :
      (s : Identifier)
      → IsState f s
      → (c : Cardinality) → lookup s (cardinality_by_event e) ≡ some c
      → (c ≡ multi) ↔ Cyclic (graph f) (named s)

Cardinality-cases : (c : Cardinality) → (c ≡ once) ⊎ (c ≡ multi)
Cardinality-cases once = inl refl
Cardinality-cases multi = inr refl

-- The cardinality that is expected is the one of the requirement.
expected-Cyclic :
    (on_cycle : List Identifier) (s : Identifier) (c : Cardinality) {P : Type 0}
    → (member s on_cycle ≡ true) ↔ P
    → (c ≡ expected_cardinality on_cycle s) ↔ ((c ≡ multi) ↔ P)
expected-Cyclic on_cycle s c (there, back) = elim (Bool-cases (member s on_cycle)) [
  | inl t ↦ rw t (λ h. (λ k. there t, λ k. h), λ h. h.1 (there t))
  | inr f ↦ rw f (
    λ h. (λ k. absurd (let bad : once ≡ multi = sym h ∙ k in cc), λ p. let bad = back p in cc),
    λ h. elim (Cardinality-cases c) [ inl q ↦ q | inr q ↦ let bad = back (h.0 q) in cc ],
  )
]

member-set :
    (n : Identifier) (ns : List Identifier)
    → (member n (add_all [] ns) ≡ true) ↔ (member n ns ≡ true)
unfolding member
member-set n ns = let all = member-add_all n [] ns in (λ h. ground arith, λ h. ground arith)

module _ (tarjan_scc : Graph GraphNode → List (List GraphNode))
    (bfs bfs_reversed : Graph GraphNode → GraphNode → List GraphNode) where
  -- Where the components and the traversals are what they should be, the check of an entity finds
  -- no error exactly where the six requirements hold.
  pub check_entity-Requirements :
      (e : Entity) (f : Fsm)
      → Components (graph f) (tarjan_scc (graph f))
      → ((n : GraphNode) → (member n (bfs (graph f) init) ≡ true) ↔ Reach (graph f) init n)
      → ((n : GraphNode) → (member n (bfs_reversed (graph f) end) ≡ true) ↔ Reach (graph f) n end)
      → (check_entity tarjan_scc bfs bfs_reversed e f [] ≡ []) ↔ Requirements e f
  unfolding check_entity
  check_entity-Requirements e f scc forward backward =
      let g = graph f in
      let names = event_names e in
      let all = add_all [] (states f) in
      let on_cycle = find_cyclic tarjan_scc g f in
      let cards = cardinality_by_event e in
      let first = failing-none (λ s. member s names) (unknown_state e.path) all in
      let second = failing-none (λ n. member n all) (uncovered_event e.path) names in
      let third =
        failing-none (λ s. member (named s) (bfs g init)) (unreachable_from_init e.path) all in
      let fourth =
        failing-none (λ s. member (named s) (bfs_reversed g end)) (cannot_reach_final_state e.path)
          all in
      let final = is_final_state f f.initial_state in
      let error = initial_state_is_final e.path f.initial_state in
      let fifth : ((if final then error ∷ [] else []) ≡ []) ↔ (final ≡ false) =
        elim (Bool-cases final) [
          | inl t ↦ rw t (λ h. cc, λ h. cc)
          | inr n ↦ rw n (λ h. refl, λ h. refl)
        ] in
      let sixth = mismatches-none e.path on_cycle cards all in
      let six =
        six_nil_iff (failing (λ s. member s names) (unknown_state e.path) all)
          (failing (λ n. member n all) (uncovered_event e.path) names)
          (failing (λ s. member (named s) (bfs g init)) (unreachable_from_init e.path) all)
          (failing (λ s. member (named s) (bfs_reversed g end)) (cannot_reach_final_state e.path)
            all)
          (if final then error ∷ [] else []) (mismatches e.path on_cycle cards all) in
      let state = λ (s : Identifier). member-set s (states f) in
      let event = λ (s : Identifier). member-set s (map (λ v. v.name) (values e.events)) in
      let cyclic = λ (s : Identifier). find_cyclic-Cyclic tarjan_scc f s scc in
      (
        λ h.
            let (h1, h2, h3, h4, h5, h6) = six.0 h in
            record {
              states_are_events = λ s k. (event s).0 (first.0 h1 s ((state s).1 k));
              events_are_states = λ s k. (state s).0 (second.0 h2 s ((event s).1 k));
              reachable = λ s k. (forward (named s)).0 (third.0 h3 s ((state s).1 k));
              finishing = λ s k. (backward (named s)).0 (fourth.0 h4 s ((state s).1 k));
              initial_not_final = fifth.0 h5;
              cardinalities = λ s k c l.
                  (expected-Cyclic on_cycle s c (cyclic s)).0 (sixth.0 h6 s ((state s).1 k) c l);
            },
        λ r. six.1 (
          first.1 (λ s k. (event s).1 (r.states_are_events s ((state s).0 k))),
          second.1 (λ s k. (state s).1 (r.events_are_states s ((event s).0 k))),
          third.1 (λ s k. (forward (named s)).1 (r.reachable s ((state s).0 k))),
          fourth.1 (λ s k. (backward (named s)).1 (r.finishing s ((state s).0 k))),
          fifth.1 r.initial_not_final,
          sixth.1 (λ s k c l.
              (expected-Cyclic on_cycle s c (cyclic s)).1 (r.cardinalities s ((state s).0 k) c l)),
        ),
      )
