-- ===== src/Base/Graph/Ranked.antt =====
-- Graphs whose edges go up a rank or back to their node: each node is a component of its own, and
-- the nodes that are reached are those of a closed set.
use Prim.Native.Nat.{ℕ, ◌<◌}
use mathlib.Core.Path.{◌≡◌, refl, sym, subst, ap, ◌∙◌}
use mathlib.Core.Logic.{◌⊎◌, inl, inr}
use mathlib.Core.Bool.{Bool, true, not, ◌&&◌, ◌||◌}
use mathlib.Core.List.{List, [], ◌∷◌, map}
use native.Mathlib.Omega.{arith}
use quent.Base.Tests.{Eq, Bool-cases, pair_eq, ltb}
use quent.Base.Lists.{All}
use quent.Base.Set.{member}
use quent.Base.Graph.{Graph, Edge, Reach, stay, step, Component, Components}

module _ {ℓ} {K : Type ℓ} ⦃e : Eq K⦄ where
  abbrev pub ranked : (K → ℕ) → Graph K → Bool
  ranked rank [] = true
  ranked rank ((a, b) ∷ g) = (e.same a b || ltb (rank a) (rank b)) && ranked rank g

  -- A set that the edges do not leave.
  abbrev pub closed : List K → Graph K → Bool
  closed s [] = true
  closed s ((a, b) ∷ g) = (not (member a s) || member b s) && closed s g

  -- A set that the edges do not enter.
  abbrev pub closed_back : List K → Graph K → Bool
  closed_back s [] = true
  closed_back s ((a, b) ∷ g) = (not (member b s) || member a s) && closed_back s g

  Edge-ranked :
      (rank : K → ℕ) (g : Graph K) (a b : K)
      → ranked rank g ≡ true
      → Edge g a b
      → (a ≡ b) ⊎ (rank a < rank b)
  unfolding member
  Edge-ranked rank [] a b h k = absurd (ground arith)
  Edge-ranked rank ((x, y) ∷ g) a b h k = elim (Bool-cases (e.same x a && e.same y b)) [
    | inl t ↦
        let left = (e.same_iff x a).0 (ground arith) in
        let right = (e.same_iff y b).0 (ground arith) in
        elim (Bool-cases (e.same x y)) [
          | inl q ↦ inl (sym left ∙ (e.same_iff x y).0 q ∙ right)
          | inr q ↦
              let up : rank x < rank y = ground arith in
              let from = ap rank left in let to = ap rank right in inr (omega arith)
        ]
    | inr f ↦ Edge-ranked rank g a b (ground arith) (ground arith)
  ]

  Reach-ranked :
      (rank : K → ℕ) (g : Graph K) (a b : K)
      → ranked rank g ≡ true
      → Reach g a b
      → (a ≡ b) ⊎ (rank a < rank b)
  Reach-ranked rank g a b h stay = inl refl
  Reach-ranked rank g a d h (step b c r k) = elim (Edge-ranked rank g b c h k) [
    | inl q ↦ subst (λ x. (a ≡ x) ⊎ (rank a < rank x)) q (Reach-ranked rank g a b h r)
    | inr up ↦ elim (Reach-ranked rank g a b h r) [
      | inl q ↦ let same = ap rank q in inr (omega arith)
      | inr low ↦ inr (omega arith)
    ]
  ]

  singletons-Component : (g : Graph K) (ns : List K) → All (Component g) (map (λ n. n ∷ []) ns)
  unfolding member
  singletons-Component g [] = tt
  singletons-Component g (n ∷ ns) = (
    (
      refl,
      λ a b h k.
          let left = (e.same_iff n a).0 (ground arith) in
          let right = (e.same_iff n b).0 (ground arith) in
          subst (λ x. Reach g a x) (sym left ∙ right) stay,
    ),
    singletons-Component g ns,
  )

  pub ranked-Components :
      (rank : K → ℕ) (g : Graph K) (ns : List K)
      → ranked rank g ≡ true
      → Components g (map (λ n. n ∷ []) ns)
  ranked-Components rank g ns h = record {
    each = singletons-Component g ns;
    shared = λ a b n r s. elim (Reach-ranked rank g a b h r) [
      | inl q ↦ absurd (n q)
      | inr up ↦ elim (Reach-ranked rank g b a h s) [
        | inl q ↦ absurd (n (sym q))
        | inr down ↦ absurd (omega arith)
      ]
    ];
  }

  Edge-closed :
      (s : List K) (g : Graph K) (a b : K)
      → closed s g ≡ true
      → Edge g a b
      → member a s ≡ true
      → member b s ≡ true
  unfolding member
  Edge-closed s [] a b h k m = absurd (ground arith)
  Edge-closed s ((x, y) ∷ g) a b h k m = elim (Bool-cases (e.same x a && e.same y b)) [
    | inl t ↦
        let left = ap (λ n. member n s) ((e.same_iff x a).0 (ground arith)) in
        let right = ap (λ n. member n s) ((e.same_iff y b).0 (ground arith)) in ground arith
    | inr f ↦ Edge-closed s g a b (ground arith) (ground arith) m
  ]

  Edge-closed_back :
      (s : List K) (g : Graph K) (a b : K)
      → closed_back s g ≡ true
      → Edge g a b
      → member b s ≡ true
      → member a s ≡ true
  unfolding member
  Edge-closed_back s [] a b h k m = absurd (ground arith)
  Edge-closed_back s ((x, y) ∷ g) a b h k m = elim (Bool-cases (e.same x a && e.same y b)) [
    | inl t ↦
        let left = ap (λ n. member n s) ((e.same_iff x a).0 (ground arith)) in
        let right = ap (λ n. member n s) ((e.same_iff y b).0 (ground arith)) in ground arith
    | inr f ↦ Edge-closed_back s g a b (ground arith) (ground arith) m
  ]

  pub Reach-closed :
      (s : List K) (g : Graph K) (a b : K)
      → closed s g ≡ true
      → member a s ≡ true
      → Reach g a b
      → member b s ≡ true
  Reach-closed s g a b h m stay = m
  Reach-closed s g a d h m (step b c r k) = Edge-closed s g b c h k (Reach-closed s g a b h m r)

  pub Reach-closed_back :
      (s : List K) (g : Graph K) (a b : K)
      → closed_back s g ≡ true
      → member b s ≡ true
      → Reach g a b
      → member a s ≡ true
  Reach-closed_back s g a b h m stay = m
  Reach-closed_back s g a d h m (step b c r k) =
      Reach-closed_back s g a b h (Edge-closed_back s g b c h k m) r

  -- What holds of each item of a list holds of a member.
  pub All-member {κ} : (P : K → Type κ) (s : List K) (a : K) → All P s → member a s ≡ true → P a
  unfolding member
  All-member P [] a all h = absurd (ground arith)
  All-member P (x ∷ s) a all h = elim (Bool-cases (e.same x a)) [
    | inl t ↦ subst P ((e.same_iff x a).0 t) all.0
    | inr f ↦ All-member P s a all.1 (ground arith)
  ]
