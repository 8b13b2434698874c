-- ===== src/Time/Collector.antt =====
-- crates/time/src/lib.rs: `TimeOrderedCollector`, a sequence of items in the order of their
-- timestamps.
pub mod Order
use quent.Base.{
  ℕ, zero, suc, ◌+◌, Bool, false, Option, none, some, List, [], ◌∷◌, ◌++◌, leb, if◌then◌else◌,
  nat_eq, pair_eq, option_eq, list_eq, last?,
}

-- Where a slice that a test partitions stops to pass it: `partition_point` of the standard library.
abbrev pub partition_point {ℓ} : {A : Type ℓ} → (A → Bool) → List A → ℕ
partition_point p [] = 0
partition_point p (x ∷ xs) = if p x then suc (partition_point p xs) else 0

-- `Vec::insert`.
abbrev pub insert_at {ℓ} : {A : Type ℓ} → ℕ → A → List A → List A
insert_at zero v xs = v ∷ xs
insert_at (suc i) v [] = v ∷ []
insert_at (suc i) v (x ∷ xs) = x ∷ insert_at i v xs

-- The trait `Timestamp` is the function `timestamp`.
module _ {ℓ} {T : Type ℓ} (timestamp : T → ℕ) where
  abbrev not_after : Option T → T → Bool
  not_after none state = false
  not_after (some last) state = leb (timestamp last) (timestamp state)

  unfoldable pub push : List T → T → List T
  push items state =
      if not_after (last? items) state
      then items ++ state ∷ []
      else insert_at (partition_point (λ s. leb (timestamp s) (timestamp state)) items) state items

  unfoldable pub extend : List T → List T → List T
  extend items [] = items
  extend items (x ∷ iter) = extend (push items x) iter

  -- `TimeOrderedCollector::default`, `extend` and `into_inner` together.
  unfoldable pub collect : List T → List T
  unfolding extend
  collect iter = extend [] iter
