-- ===== src/Analyzer/Utilization.antt =====
-- crates/analyzer/src/timeline/binned/resource.rs: the timelines of the utilisation of resources. A call
-- that fails leaves behind what it has already changed, so it returns the builder beside the error; no
-- error is `Ok`.
pub mod Reports
pub mod Extends
use quent.Base.{
  ◌>>=◌, ℕ, ◌⊎◌, inl, inr, Bool, false, ◌&&◌, Option, none, some, List, [], ◌∷◌, ltb, if◌then◌else◌,
  Eq, nat_eq, pair_eq, option_eq, list_eq, or_else, Outcome, returns,
}
use quent.Base.Assoc.{Assoc}
use quent.Base.Set.{set_insert}
use quent.Base.Text.{Text}
use quent.Time.Span.{SpanNanoSec, duration, intersects}
use quent.Time.Bin.{BinnedSpan}
use quent.Analyzer.Float.{Float}
use quent.Analyzer.Resource.{
  AnalyzerError, CapacityDecl, CapacityValue, ResourceTypeDecl, Usage, try_capacity,
  reinterpret_capacity_value,
}
use quent.Analyzer.Timeline.{KeyedAggregator, new_keyed, push_keyed, finish_keyed}

pub record ResourceTimeline (Key F : Type 0) : Type 0 where
  pub config : BinnedSpan
  pub values : Assoc Key (List F)
  pub long_entities : List ℕ

-- The builder of a timeline by capacity, whose keys are names, and of one by key and capacity.
pub record ResourceTimelineBuilder (Key F : Type 0) : Type 0 where
  pub resource_type : ResourceTypeDecl
  pub aggregator : KeyedAggregator Key F
  pub long_entities : List ℕ
  pub long_entities_threshold : Option ℕ

module _ {Key F : Type 0} where
  -- It never fails.
  unfoldable pub try_new : ResourceTypeDecl → BinnedSpan → Option ℕ → ResourceTimelineBuilder Key F
  unfolding new_keyed
  try_new resource_type config threshold = record {
    resource_type = resource_type;
    aggregator = new_keyed config;
    long_entities = [];
    long_entities_threshold = threshold;
  }

  unfoldable pub build : ResourceTimelineBuilder Key F → ResourceTimeline Key F
  unfolding finish_keyed
  build b = record {
    config = b.aggregator.config;
    values = finish_keyed b.aggregator;
    long_entities = b.long_entities;
  }

abbrev pub exceeds : Option ℕ → ℕ → Bool
exceeds none duration = false
exceeds (some threshold) duration = ltb threshold duration

module _ {F : Type 0} (f : Float F) where
  abbrev pub convert_by :
      SpanNanoSec → CapacityValue → CapacityDecl ⊎ AnalyzerError → F ⊎ AnalyzerError
  convert_by span c (inl decl) =
      inl (reinterpret_capacity_value f decl.kind (or_else c.value 0) span)
  convert_by span c (inr e) = inr e

  unfoldable pub convert_capacity :
      SpanNanoSec → CapacityValue → ResourceTypeDecl → F ⊎ AnalyzerError
  unfolding try_capacity reinterpret_capacity_value
  convert_capacity span c t = convert_by span c (try_capacity t c.name)

-- `?` on what a step leaves behind.
abbrev pub unless_failed {ℓ} :
    {S : Type ℓ}
    → S × Option AnalyzerError
    → (S → Outcome (S × Option AnalyzerError))
    → Outcome (S × Option AnalyzerError)
unless_failed (s, none) next = next s
unless_failed (s, some e) next = returns (s, some e)

module _ {Key F : Type 0} (f : Float F) ⦃keys : Eq Key⦄ where
  -- One capacity of the loop: the aggregator, and the error that ends the loop.
  abbrev pub push_converted :
      KeyedAggregator Key F
      → SpanNanoSec
      → Key
      → F ⊎ AnalyzerError
      → Outcome (KeyedAggregator Key F × Option AnalyzerError)
  push_converted a span key (inl value) = do
    pushed ← push_keyed f a span (key, value)
    returns (pushed, none)
  push_converted a span key (inr e) = returns (a, some e)

  abbrev pub push_valued :
      ResourceTypeDecl
      → KeyedAggregator Key F
      → SpanNanoSec
      → Key
      → CapacityValue
      → Option ℕ
      → Outcome (KeyedAggregator Key F × Option AnalyzerError)
  push_valued t a span key c none = returns (a, none)
  push_valued t a span key c (some value) = push_converted a span key (convert_capacity f span c t)

  unfoldable pub push_capacities :
      ResourceTypeDecl
      → KeyedAggregator Key F
      → (Text → Key)
      → SpanNanoSec
      → List CapacityValue
      → Outcome (KeyedAggregator Key F × Option AnalyzerError)
  unfolding convert_capacity push_keyed
  push_capacities t a key_of span [] = returns (a, none)
  push_capacities t a key_of span (c ∷ cs) = do
    after ← push_valued t a span (key_of c.name) c c.value
    unless_failed after (λ a'. push_capacities t a' key_of span cs)

  -- The end of `try_push`.
  unfoldable pub note_long : ResourceTimelineBuilder Key F → Usage → ResourceTimelineBuilder Key F
  unfolding duration intersects
  note_long b usage =
      if exceeds b.long_entities_threshold (duration usage.span)
        && intersects usage.span b.aggregator.config.span
      then record b { long_entities = set_insert ltb usage.entity_id b.long_entities }
      else b

  abbrev pub pushed_usage :
      ResourceTimelineBuilder Key F
      → Usage
      → KeyedAggregator Key F × Option AnalyzerError
      → ResourceTimelineBuilder Key F × Option AnalyzerError
  pushed_usage b usage (a, none) = (note_long (record b { aggregator = a }) usage, none)
  pushed_usage b usage (a, some e) = (record b { aggregator = a }, some e)

  -- The key of a capacity: its name, or the name beside a key that is given with the usage.
  unfoldable pub try_push :
      ResourceTimelineBuilder Key F
      → (Text → Key)
      → Usage
      → Outcome (ResourceTimelineBuilder Key F × Option AnalyzerError)
  unfolding push_capacities note_long
  try_push b key_of usage = do
    after ← push_capacities b.resource_type b.aggregator key_of usage.span usage.capacities
    returns (pushed_usage b usage after)

  unfoldable pub try_extend :
      ResourceTimelineBuilder Key F
      → List ((Text → Key) × Usage)
      → Outcome (ResourceTimelineBuilder Key F × Option AnalyzerError)
  unfolding try_push
  try_extend b [] = returns (b, none)
  try_extend b ((key_of, usage) ∷ items) = do
    after ← try_push b key_of usage
    unless_failed after (λ b'. try_extend b' items)
