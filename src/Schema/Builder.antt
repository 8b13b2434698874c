-- ===== src/Schema/Builder.antt =====
-- crates/schema/src/builder/mod.rs: what the builders of a schema's elements share.
pub mod Annotations
pub mod Event
pub mod Entity
pub mod Record
pub mod Schema
pub mod Unique
pub mod Accepts
use quent.Base.{
  ◌+◌, Option, none, some, List, [], ◌∷◌, ◌++◌, Eq, nat_eq, pair_eq, option_eq, list_eq,
}
use quent.Base.Text.{Text}
use quent.Base.Assoc.{Assoc, lookup}
use quent.Base.Result.{Result, ok, err}

pub data BuilderError : Type 0 where
  duplicate_name : Text → BuilderError
  empty_name : BuilderError
  no_events : BuilderError

module _ {ℓ κ} {K : Type ℓ} {V : Type κ} ⦃e : Eq K⦄ (show : K → Text) (key : V → K) where
  -- The entry of the map for the value's key, with the loop's next steps where it is vacant.
  abbrev pub if_vacant :
      Option V → K → Result (Assoc K V) BuilderError → Result (Assoc K V) BuilderError
  if_vacant (some v) k rest = err (duplicate_name (show k))
  if_vacant none k rest = rest

  unfoldable pub collect_from : Assoc K V → List V → Result (Assoc K V) BuilderError
  unfolding lookup
  collect_from m [] = ok m
  collect_from m (v ∷ vs) =
      let rest = collect_from (m ++ (key v, v) ∷ []) vs in if_vacant (lookup (key v) m) (key v) rest

  unfoldable pub collect_unique : List V → Result (Assoc K V) BuilderError
  unfolding collect_from
  collect_unique vs = collect_from [] vs
