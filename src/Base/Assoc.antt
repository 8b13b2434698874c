-- ===== src/Base/Assoc.antt =====
-- The standard library's hash map as an association list with one entry to a key. Where a program
-- iterates over a map, the order of the list stands for the unspecified order of the map.
use quent.Base.Tests.{Eq, ◌==◌, Bool-cases, if◌then◌else◌}
use quent.Base.Lists.{length}
use Prim.Native.Nat.{ℕ, ◌+◌}
use mathlib.Core.Path.{◌≡◌, refl, ◌∙◌}
use mathlib.Core.Logic.{inl, inr}
use mathlib.Core.Option.{Option, none, some}
use mathlib.Core.List.{List, [], ◌∷◌}
use native.Mathlib.Omega.{arith}

abbrev pub Assoc {ℓ κ} : Type ℓ → Type κ → Type (ℓ ⊔ κ)
Assoc K V = List (K × V)

-- 1 for a key that is there, 0 for one that is not.
abbrev pub present {ℓ} : {V : Type ℓ} → Option V → ℕ
present none = 0
present (some v) = 1

module _ {ℓ κ} {K : Type ℓ} {V : Type κ} ⦃e : Eq K⦄ where
  unfoldable pub lookup : K → Assoc K V → Option V
  lookup k [] = none
  lookup k ((j, v) ∷ m) = if j == k then some v else lookup k m

  unfoldable pub insert : K → V → Assoc K V → Assoc K V
  insert k v [] = (k, v) ∷ []
  insert k v ((j, w) ∷ m) = if j == k then (k, v) ∷ m else (j, w) ∷ insert k v m

  -- A map holds a key once, so the first entry is the only one to go.
  unfoldable pub remove : K → Assoc K V → Assoc K V
  remove k [] = []
  remove k ((j, w) ∷ m) = if j == k then m else (j, w) ∷ remove k m

  pub lookup-insert_self : (k : K) (v : V) (m : Assoc K V) → lookup k (insert k v m) ≡ some v
  unfolding lookup insert
  lookup-insert_self k v [] = ground (arith, e.same_iff k k)
  lookup-insert_self k v ((j, w) ∷ m) =
      ground (arith, e.same_iff k k, e.same_iff j k, lookup-insert_self k v m)

  pub lookup-insert :
      (j k : K) (v : V) (m : Assoc K V)
      → lookup j (insert k v m) ≡ (if k == j then some v else lookup j m)
  unfolding lookup insert
  lookup-insert j k v [] = refl
  lookup-insert j k v ((i, w) ∷ m) =
      ground (arith, e.same_iff k j, e.same_iff i k, e.same_iff i j, lookup-insert j k v m)

  -- The entry of a key that is made anew from what it was.
  pub lookup-insert_changed :
      (f : Option V → V) (j k : K) (m : Assoc K V)
      → lookup j (insert k (f (lookup k m)) m)
        ≡ (if k == j then some (f (lookup j m)) else lookup j m)
  lookup-insert_changed f j k m =
      lookup-insert j k (f (lookup k m)) m
      ∙ elim (Bool-cases (k == j)) [ inl t ↦ rw (t, (e.same_iff k j).0 t) refl | inr n ↦ rw n refl ]

  pub length-insert :
      (k : K) (v : V) (m : Assoc K V) → length (insert k v m) + present (lookup k m) ≡ length m + 1
  unfolding lookup insert
  length-insert k v [] = omega arith
  length-insert k v ((j, w) ∷ m) = ground (arith, length-insert k v m)

  pub length-remove :
      (k : K) (m : Assoc K V) → length (remove k m) + present (lookup k m) ≡ length m
  unfolding lookup remove
  length-remove k [] = omega arith
  length-remove k ((j, w) ∷ m) = ground (arith, length-remove k m)

  -- A property of all entries, and how the operations keep it.
  module _ {μ} (P : K → V → Type μ) where
    abbrev pub AllEntries : Assoc K V → Type μ
    AllEntries [] = Unit
    AllEntries ((k, v) ∷ m) = P k v × AllEntries m

    pub AllEntries-insert :
        (k : K) (v : V) (m : Assoc K V) → P k v → AllEntries m → AllEntries (insert k v m)
    unfolding insert
    AllEntries-insert k v [] p h = (p, tt)
    AllEntries-insert k v ((j, w) ∷ m) p h = elim (Bool-cases (j == k)) [
      | inl t ↦ rw t (p, h.1)
      | inr f ↦ rw f (h.0, AllEntries-insert k v m p h.1)
    ]

    pub AllEntries-remove : (k : K) (m : Assoc K V) → AllEntries m → AllEntries (remove k m)
    unfolding remove
    AllEntries-remove k [] h = tt
    AllEntries-remove k ((j, w) ∷ m) h = elim (Bool-cases (j == k)) [
      | inl t ↦ rw t h.1
      | inr f ↦ rw f (h.0, AllEntries-remove k m h.1)
    ]

    -- What holds of all entries holds of one that is found.
    pub lookup-AllEntries :
        (k : K) (m : Assoc K V) {v : V} → AllEntries m → lookup k m ≡ some v → P k v
    unfolding lookup
    lookup-AllEntries k [] h q = cc
    lookup-AllEntries k ((j, w) ∷ m) {v} h q = elim (Bool-cases (j == k)) [
      | inl t ↦ let found : w ≡ v = ground arith in rw (← (e.same_iff j k).0 t, ← found) h.0
      | inr f ↦ lookup-AllEntries k m h.1 (ground arith)
    ]
