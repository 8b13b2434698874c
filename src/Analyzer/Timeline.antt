-- ===== src/Analyzer/Timeline.antt =====
-- crates/analyzer/src/timeline/binned/{mod,categorical}.rs: values weighted by the overlap of their span
-- with each bin. Both `try_push` only ever succeed or panic, so they return an `Outcome`.
pub mod Shares
pub mod Keys
use quent.Base.{
  ◌>>=◌, or_else, ℕ, zero, suc, ◌&&◌, List, [], ◌∷◌, map, eqb, if◌then◌else◌, Eq, nat_eq, pair_eq,
  option_eq, list_eq, Outcome, returns, panics,
}
use quent.Base.Assoc.{Assoc, lookup, insert}
use quent.Time.Span.{SpanNanoSec, duration}
use quent.Time.Bin.{BinnedSpan, iter_indices_intersect_durations}
use quent.Analyzer.Float.{Float}

pub record UnitAggregator {ℓ} (F : Type ℓ) : Type ℓ where
  pub config : BinnedSpan
  pub bins : List F

-- Identity of one aggregation cell of a categorical timeline.
pub record CategoricalKey (S M St D : Type 0) : Type 0 where
  pub series : S
  pub measure : M
  pub state : St
  pub dimension : D

abbrev pub replicate {ℓ} : {A : Type ℓ} → ℕ → A → List A
replicate zero a = []
replicate (suc n) a = a ∷ replicate n a

module _ {ℓ} {F : Type ℓ} (f : Float F) where
  unfoldable pub new_unit : BinnedSpan → UnitAggregator F
  new_unit config = record { config = config; bins = replicate config.num_bins f.nought }

  -- `self.bins[index] += value`
  unfoldable pub add_at : List F → ℕ → F → Outcome (List F)
  add_at [] i x = panics
  add_at (y ∷ ys) zero x = returns (f.plus y x ∷ ys)
  add_at (y ∷ ys) (suc i) x = do rest ← add_at ys i x; returns (y ∷ rest)

  unfoldable pub push_part : BinnedSpan → List F → F → ℕ × ℕ → Outcome (List F)
  unfolding add_at
  push_part config bins item (index, intersect_duration) =
      let overlap_fraction =
        f.over (f.from_u64 intersect_duration) (f.from_u64 config.bin_duration) in
      if f.at_most f.nought overlap_fraction && f.at_most overlap_fraction f.one
      then add_at bins index (f.times overlap_fraction item)
      else panics

  unfoldable pub push_parts : BinnedSpan → List F → F → List (ℕ × ℕ) → Outcome (List F)
  push_parts config bins item [] = returns bins
  push_parts config bins item (part ∷ parts) = do
    pushed ← push_part config bins item part
    push_parts config pushed item parts

  unfoldable pub push_unit : UnitAggregator F → SpanNanoSec → F → Outcome (UnitAggregator F)
  unfolding push_parts
  push_unit a span item = if eqb (duration span) 0 then returns a else (do
    parts ← iter_indices_intersect_durations a.config span
    bins ← push_parts a.config a.bins item parts
    returns (record a { bins = bins }))

pub record KeyedAggregator {ℓ} (Key F : Type ℓ) : Type ℓ where
  pub config : BinnedSpan
  pub bins : Assoc Key (UnitAggregator F)

unfoldable pub new_keyed {ℓ} : {Key F : Type ℓ} → BinnedSpan → KeyedAggregator Key F
new_keyed config = record { config = config; bins = [] }

module _ {ℓ} {Key F : Type ℓ} (f : Float F) ⦃keys : Eq Key⦄ where
  unfoldable pub push_keyed :
      KeyedAggregator Key F → SpanNanoSec → Key × F → Outcome (KeyedAggregator Key F)
  push_keyed a span (key, item) = do
    unit ← push_unit f (or_else (lookup key a.bins) (new_unit f a.config)) span item
    returns (record a { bins = insert key unit a.bins })

abbrev finish_unit {ℓ} : {Key F : Type ℓ} → Key × UnitAggregator F → Key × List F
finish_unit (key, unit) = (key, unit.bins)

unfoldable pub finish_keyed {ℓ} : {Key F : Type ℓ} → KeyedAggregator Key F → Assoc Key (List F)
finish_keyed a = map finish_unit a.bins

pub record CategoricalTimeline {ℓ} (Key F : Type ℓ) : Type ℓ where
  pub config : BinnedSpan
  pub values : Assoc Key (List F)

-- The builder holds a keyed aggregator and nothing else.
module _ {S M St D F : Type 0} (f : Float F) ⦃keys : Eq (CategoricalKey S M St D)⦄ where
  unfoldable pub push_categorical :
      KeyedAggregator (CategoricalKey S M St D) F
      → CategoricalKey S M St D
      → SpanNanoSec
      → F
      → Outcome (KeyedAggregator (CategoricalKey S M St D) F)
  unfolding push_keyed
  push_categorical aggregator key span weight = push_keyed f aggregator span (key, weight)

  unfoldable pub build_categorical :
      KeyedAggregator (CategoricalKey S M St D) F → CategoricalTimeline (CategoricalKey S M St D) F
  unfolding finish_keyed
  build_categorical aggregator = record {
    config = aggregator.config;
    values = finish_keyed aggregator;
  }
