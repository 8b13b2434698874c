-- ===== src/Base/Set.antt =====
-- The standard library's ordered set as a strictly increasing list, and how its insertion acts on
-- membership.
use mathlib.Core.Path.{◌≡◌, refl}
use mathlib.Core.Logic.{inl, inr}
use mathlib.Core.Bool.{Bool, true, false, not, ◌&&◌, ◌||◌}
use mathlib.Core.List.{List, [], ◌∷◌, ◌++◌}
use native.Mathlib.Omega.{arith}
use quent.Base.Tests.{Eq, if◌then◌else◌, Bool-cases}

module _ {ℓ} {A : Type ℓ} ⦃e : Eq A⦄ where
  unfoldable pub member : A → List A → Bool
  member a [] = false
  member a (x ∷ xs) = e.same x a || member a xs

  -- No item comes twice.
  abbrev pub distinct : List A → Bool
  distinct [] = true
  distinct (x ∷ xs) = not (member x xs) && distinct xs

  -- Items in the order in which they come first, as a set that is hashed is filled.
  unfoldable pub add : List A → A → List A
  unfolding member
  add xs a = if member a xs then xs else xs ++ a ∷ []

  unfoldable pub add_all : List A → List A → List A
  unfolding add
  add_all xs [] = xs
  add_all xs (a ∷ as') = add_all (add xs a) as'

  pub member-append : (a : A) (xs ys : List A) → member a (xs ++ ys) ≡ (member a xs || member a ys)
  unfolding member
  member-append a [] ys = refl
  member-append a (x ∷ xs) ys = ground (arith, member-append a xs ys)

  pub member-add : (b : A) (xs : List A) (a : A) → member b (add xs a) ≡ (member b xs || e.same a b)
  unfolding add member
  member-add b xs a =
      let there = member-append b xs (a ∷ []) in
      elim (Bool-cases (member a xs)) [
        | inl t ↦ elim (Bool-cases (e.same a b)) [
          | inl s ↦
              let here : member b xs ≡ true = rw (← (e.same_iff a b).0 s) t in rw (t, here) refl
          | inr f ↦ ground arith
        ]
        | inr f ↦ rw f ground arith
      ]

  pub member-add_all :
      (b : A) (xs ys : List A) → member b (add_all xs ys) ≡ (member b xs || member b ys)
  unfolding add_all member
  member-add_all b xs [] = ground arith
  member-add_all b xs (a ∷ as') =
      let rest = member-add_all b (add xs a) as' in let one = member-add b xs a in ground arith

  module _ (before : A → A → Bool) where
    unfoldable pub set_insert : A → List A → List A
    set_insert a [] = a ∷ []
    set_insert a (x ∷ xs) =
        if e.same x a then x ∷ xs else if before x a then x ∷ set_insert a xs else a ∷ x ∷ xs

    pub member-set_insert :
        (b a : A) (xs : List A) → member b (set_insert a xs) ≡ (e.same a b || member b xs)
    unfolding member set_insert
    member-set_insert b a [] = refl
    member-set_insert b a (x ∷ xs) =
        ground (arith, e.same_iff x a, e.same_iff a b, e.same_iff x b, member-set_insert b a xs)
