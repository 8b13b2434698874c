-- ===== src/Analyzer/Resource.antt =====
-- crates/analyzer/src/resource/mod.rs: capacities of resource types, and usages of resources.
use quent.Base.{
  ℕ, ◌⊎◌, inl, inr, Option, none, some, List, [], ◌∷◌, map, if◌then◌else◌, ◌==◌, nat_eq, pair_eq,
  option_eq, list_eq,
}
use quent.Base.Text.{Text}
use quent.Time.Span.{SpanNanoSec, duration}
use quent.Analyzer.Float.{Float}

-- The messages of the errors, by what they tell: the capacity, the resource type and its capacities.
pub data Message : Type 0 where
  unknown_capacity : Text → Text → List Text → Message

-- The errors that these parts return.
pub data AnalyzerError : Type 0 where
  invalid_argument : Message → AnalyzerError

pub data CapacityType : Type 0 where
  occupancy : CapacityType
  rate : CapacityType

pub record CapacityDecl : Type 0 where
  pub name : Text
  pub kind : CapacityType

pub record ResourceTypeDecl : Type 0 where
  pub name : Text
  pub capacities : List CapacityDecl
  pub used_by : List Text

pub record CapacityValue : Type 0 where
  pub name : Text
  pub value : Option ℕ

-- The trait `Usage`.
pub record Usage : Type 0 where
  pub entity_id : ℕ
  pub resource_id : ℕ
  pub capacities : List CapacityValue
  pub span : SpanNanoSec

unfoldable pub reinterpret_capacity_value {ℓ} :
    {F : Type ℓ} → Float F → CapacityType → ℕ → SpanNanoSec → F
unfolding duration
reinterpret_capacity_value f occupancy value span = f.from_u64 value
reinterpret_capacity_value f rate value span =
    f.over (f.from_u64 value) (f.from_u64 (duration span))

abbrev pub find_capacity : Text → List CapacityDecl → Option CapacityDecl
find_capacity name [] = none
find_capacity name (c ∷ cs) = if c.name == name then some c else find_capacity name cs

unfoldable pub capacity : ResourceTypeDecl → Text → Option CapacityDecl
capacity t name = find_capacity name t.capacities

abbrev pub declared_names : List CapacityDecl → List Text
declared_names cs = map (λ c. c.name) cs

abbrev pub ok_or : Option CapacityDecl → AnalyzerError → CapacityDecl ⊎ AnalyzerError
ok_or none e = inr e
ok_or (some c) e = inl c

-- `inl` is `Ok` and `inr` is `Err`.
unfoldable pub try_capacity : ResourceTypeDecl → Text → CapacityDecl ⊎ AnalyzerError
unfolding capacity
try_capacity t name =
    ok_or (capacity t name)
      (invalid_argument (unknown_capacity name t.name (declared_names t.capacities)))
