-- ===== src/Base/Sort.antt =====
-- The standard library's stable `sort_by_key`, for keys that a Boolean test compares.
use Prim.Native.Nat.{suc}
use mathlib.Core.Path.{◌≡◌, refl}
use mathlib.Core.Logic.{inl, inr}
use mathlib.Core.Bool.{Bool}
use mathlib.Core.List.{List, [], ◌∷◌}
use native.Mathlib.Omega.{arith}
use quent.Base.Tests.{if◌then◌else◌, Bool-cases}
use quent.Base.Lists.{length, All, Any}

module _ {ℓ} {A : Type ℓ} (after : A → A → Bool) where
  -- In front of the first item that does not come before it: the list is sorted from its end, so
  -- ties keep their order.
  unfoldable pub insert_sorted : A → List A → List A
  insert_sorted x [] = x ∷ []
  insert_sorted x (y ∷ ys) = if after x y then y ∷ insert_sorted x ys else x ∷ y ∷ ys

  unfoldable pub sort_by : List A → List A
  unfolding insert_sorted
  sort_by [] = []
  sort_by (x ∷ xs) = insert_sorted x (sort_by xs)

  length-insert_sorted : (x : A) (xs : List A) → length (insert_sorted x xs) ≡ suc (length xs)
  unfolding insert_sorted
  length-insert_sorted x [] = refl
  length-insert_sorted x (y ∷ ys) = ground (arith, length-insert_sorted x ys)

  pub length-sort_by : (xs : List A) → length (sort_by xs) ≡ length xs
  unfolding sort_by
  length-sort_by [] = refl
  length-sort_by (x ∷ xs) = omega (arith, length-insert_sorted x (sort_by xs), length-sort_by xs)

  module _ {κ} (P : A → Type κ) where
    All-insert_sorted : (x : A) (xs : List A) → P x → All P xs → All P (insert_sorted x xs)
    unfolding insert_sorted
    All-insert_sorted x [] p h = (p, tt)
    All-insert_sorted x (y ∷ ys) p h = elim (Bool-cases (after x y)) [
      | inl t ↦ rw t (h.0, All-insert_sorted x ys p h.1)
      | inr f ↦ rw f (p, h)
    ]

    pub All-sort_by : (xs : List A) → All P xs → All P (sort_by xs)
    unfolding sort_by
    All-sort_by [] h = tt
    All-sort_by (x ∷ xs) h = All-insert_sorted x (sort_by xs) h.0 (All-sort_by xs h.1)

  module _ (P : A → Type 0) where
    Any-insert_sorted_here : (x : A) (xs : List A) → P x → Any P (insert_sorted x xs)
    unfolding insert_sorted
    Any-insert_sorted_here x [] p = inl p
    Any-insert_sorted_here x (y ∷ ys) p = elim (Bool-cases (after x y)) [
      | inl t ↦ rw t (inr (Any-insert_sorted_here x ys p))
      | inr f ↦ rw f (inl p)
    ]

    Any-insert_sorted : (x : A) (xs : List A) → Any P xs → Any P (insert_sorted x xs)
    unfolding insert_sorted
    Any-insert_sorted x [] h = absurd h
    Any-insert_sorted x (y ∷ ys) (inl h) = elim (Bool-cases (after x y)) [
      | inl t ↦ rw t (inl h)
      | inr f ↦ rw f (inr (inl h))
    ]
    Any-insert_sorted x (y ∷ ys) (inr h) = elim (Bool-cases (after x y)) [
      | inl t ↦ rw t (inr (Any-insert_sorted x ys h))
      | inr f ↦ rw f (inr (inr h))
    ]

    pub Any-sort_by : (xs : List A) → Any P xs → Any P (sort_by xs)
    unfolding sort_by
    Any-sort_by [] h = h
    Any-sort_by (x ∷ xs) (inl h) = Any-insert_sorted_here x (sort_by xs) h
    Any-sort_by (x ∷ xs) (inr h) = Any-insert_sorted x (sort_by xs) (Any-sort_by xs h)
