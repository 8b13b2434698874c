-- ===== src/Base/Graph.antt =====
-- Directed graphs as lists of edges, reachability, and what a partition into strongly connected
-- components and a breadth-first traversal promise.
pub mod Ranked
use mathlib.Core.Path.{◌≡◌, refl, sym, subst, ◌∙◌}
use mathlib.Core.Logic.{◌≢◌, ◌↔◌, ◌⊎◌, inl, inr}
use mathlib.Core.Bool.{Bool, true, false, not, ◌&&◌, ◌||◌}
use mathlib.Core.List.{List, [], ◌∷◌}
use native.Mathlib.Omega.{arith}
use quent.Base.Tests.{Eq, Bool-cases, pair_eq, ltb}
use quent.Base.Lists.{length, All, Any}
use quent.Base.Set.{member, distinct}

abbrev pub Graph {ℓ} : Type ℓ → Type ℓ
Graph K = List (K × K)

module _ {ℓ} {K : Type ℓ} ⦃e : Eq K⦄ where
  abbrev pub Edge : Graph K → K → K → Type 0
  Edge g a b = member (a, b) g ≡ true

  pub data Reach (g : Graph K) (a : K) : K → Type ℓ where
    stay : Reach g a a
    step : (b c : K) → Reach g a b → Edge g b c → Reach g a c

  -- A node on a cycle, which may be an edge to itself.
  abbrev pub Cyclic : Graph K → K → Type ℓ
  Cyclic g a = (b : K) × Edge g a b × Reach g b a

  -- One component: its nodes reach each other, and none comes twice.
  abbrev pub Component : Graph K → List K → Type ℓ
  Component g c =
      (distinct c ≡ true) × ((a b : K) → member a c ≡ true → member b c ≡ true → Reach g a b)

  -- The strongly connected components: nodes that reach each other share one.
  pub record Components (g : Graph K) (cs : List (List K)) : Type ℓ where
    pub each : All (Component g) cs
    pub shared :
        (a b : K)
        → a ≢ b
        → Reach g a b
        → Reach g b a
        → Any (λ c. (member a c ≡ true) × (member b c ≡ true)) cs

  pub Reach-trans : {g : Graph K} {a b c : K} → Reach g a b → Reach g b c → Reach g a c
  Reach-trans r stay = r
  Reach-trans r (step b c s h) = step b c (Reach-trans r s) h

  -- The first edge of a way that goes somewhere else.
  pub Reach-first :
      {g : Graph K} {a b : K} → a ≢ b → Reach g a b → (c : K) × Edge g a c × Reach g c b
  Reach-first n stay = absurd (n refl)
  Reach-first {g} {a} n (step b c r h) = elim (Bool-cases (e.same a b)) [
    | inl s ↦ let same = (e.same_iff a b).0 s in (c, rw same h, stay)
    | inr f ↦
        let apart : a ≢ b = λ q. let t = (e.same_iff a b).1 q in cc in
        let (d, first, rest) = Reach-first apart r in (d, first, step b c rest h)
  ]

  -- The components of more than one node that hold a node.
  abbrev pub in_large : K → List (List K) → Bool
  in_large a [] = false
  in_large a (c ∷ cs) = (ltb 1 (length c) && member a c) || in_large a cs

  -- An item of a list of two or more comes with another.
  another :
      (a : K) (c : List K)
      → ltb 1 (length c) ≡ true
      → distinct c ≡ true
      → (b : K) × (a ≢ b) × (member b c ≡ true)
  unfolding member
  another a [] h d = absurd (ground arith)
  another a (x ∷ []) h d = absurd (ground arith)
  another a (x ∷ y ∷ c) h d = elim (Bool-cases (e.same a x)) [
    | inl t ↦
        let apart : a ≢ y = λ q.
          let k = e.same_iff a x in
          let l = e.same_iff y x in let m = e.same_iff y y in ground arith in
        let here = (e.same_iff y y).1 refl in (y, apart, ground arith)
    | inr f ↦
        let apart : a ≢ x = λ q. let t = (e.same_iff a x).1 q in cc in
        let here = (e.same_iff x x).1 refl in (x, apart, ground arith)
  ]

  two_nodes :
      (a b : K) (c : List K)
      → a ≢ b
      → member a c ≡ true
      → member b c ≡ true
      → ltb 1 (length c) ≡ true
  unfolding member
  two_nodes a b [] n h k = cc
  two_nodes a b (x ∷ []) n h k =
      let left : x ≡ a = (e.same_iff x a).0 (ground arith) in
      let right : x ≡ b = (e.same_iff x b).0 (ground arith) in absurd (n (sym left ∙ right))
  two_nodes a b (x ∷ y ∷ c) n h k = ground arith

  in_large-Cyclic :
      (g : Graph K) (cs : List (List K)) (a : K)
      → All (Component g) cs
      → in_large a cs ≡ true
      → Cyclic g a
  in_large-Cyclic g [] a all h = let bad : false ≡ true = h in absurd (ground arith)
  in_large-Cyclic g (c ∷ cs) a all h = elim (Bool-cases (ltb 1 (length c) && member a c)) [
    | inl t ↦
        let large : ltb 1 (length c) ≡ true = ground arith in
        let here : member a c ≡ true = ground arith in
        let (b, n, there) = another a c large all.0.0 in
        let (d, first, rest) = Reach-first n (all.0.1 a b here there) in
        (d, first, Reach-trans rest (all.0.1 b a there here))
    | inr f ↦ in_large-Cyclic g cs a all.1 (ground arith)
  ]

  shared-in_large :
      (cs : List (List K)) (a b : K)
      → a ≢ b
      → Any (λ c. (member a c ≡ true) × (member b c ≡ true)) cs
      → in_large a cs ≡ true
  shared-in_large [] a b n h = absurd h
  shared-in_large (c ∷ cs) a b n (inl h) =
      let large = two_nodes a b c n h.0 h.1 in let here = h.0 in ground arith
  shared-in_large (c ∷ cs) a b n (inr h) = let rest = shared-in_large cs a b n h in ground arith

  -- The nodes on a cycle are those of the components of more than one node, and those with an edge
  -- to themselves.
  pub in_large-or-Edge :
      (g : Graph K) (cs : List (List K)) (a : K)
      → Components g cs
      → ((in_large a cs ≡ true) ⊎ Edge g a a) ↔ Cyclic g a
  in_large-or-Edge g cs a s = (
    λ h. elim h [ inl l ↦ in_large-Cyclic g cs a s.each l | inr l ↦ (a, l, stay) ],
    λ (b, first, rest). elim (Bool-cases (e.same a b)) [
      | inl t ↦ let same = (e.same_iff a b).0 t in inr (subst (λ x. Edge g a x) (sym same) first)
      | inr f ↦
          let apart : a ≢ b = λ q. let t = (e.same_iff a b).1 q in cc in
          inl (shared-in_large cs a b apart (s.shared a b apart (step a b stay first) rest))
    ],
  )
