-- ===== src/Analyzer/Tests.antt =====
-- The examples of the results on crates/analyzer, with values in thousandths.
use quent.Base.{
  ℕ, ◌≡◌, refl, true, false, Option, none, some, List, [], ◌∷◌, arith, nat_eq, pair_eq, option_eq,
  list_eq, get_elem?, returns,
}
use quent.Base.Assoc.{lookup}
use quent.Base.Set.{member}
use quent.Base.Text.{Text, text}
use quent.Time.Span.{SpanNanoSec}
use quent.Time.Bin.{BinnedSpan, IsTiled}
use quent.Analyzer.Float.{thousandths, thousandths-HasFractions}
use quent.Analyzer.Resource.{AnalyzerError, ResourceTypeDecl, Usage, occupancy, capacity}
use quent.Analyzer.Timeline.{UnitAggregator, KeyedAggregator, new_keyed, push_unit}
use quent.Analyzer.Timeline.Shares.{IsSized, pushed, map_option, push_unit-adds}
use quent.Analyzer.Timeline.Keys.{push_samples, push_series, series, push_samples-new_keyed}
use quent.Analyzer.Utilization.{ResourceTimelineBuilder, try_new, try_extend}
use quent.Analyzer.Utilization.Reports.{is_none}
use quent.Analyzer.Utilization.Extends.{has_long, try_extend-try_new}

-- Three bins of ten.
abbrev window : BinnedSpan
window = record { span = record { start = 100; end = 130 }; bin_duration = 10; num_bins = 3 }

window-IsTiled : IsTiled window
window-IsTiled = record {
  some_duration = omega arith;
  some_bins = omega arith;
  filled = refl;
  fits = omega arith;
}

abbrev empty_bins : UnitAggregator ℕ
empty_bins = record { config = window; bins = 0 ∷ 0 ∷ 0 ∷ [] }

abbrev middle : SpanNanoSec
middle = record { start = 105; end = 118 }

push_unit-adds_example :
    (after : UnitAggregator ℕ) × (push_unit thousandths empty_bins middle 2000 ≡ returns after)
    × (after.config ≡ window)
    × IsSized after
    × ((i : ℕ)
        → get_elem? after.bins i
          ≡ map_option (pushed thousandths window middle 2000 i) (get_elem? (0 ∷ 0 ∷ 0 ∷ []) i))
push_unit-adds_example =
    push_unit-adds thousandths thousandths-HasFractions empty_bins middle 2000 window-IsTiled refl

abbrev samples : List (ℕ × (SpanNanoSec × ℕ))
samples = (7, (middle, 2000)) ∷ (8, (middle, 1000)) ∷ (7, (middle, 500)) ∷ []

push_samples-new_keyed_example :
    (after : KeyedAggregator ℕ ℕ) × (push_samples thousandths (new_keyed window) samples
      ≡ returns after)
    × ((key : ℕ)
        → push_series thousandths window none (series thousandths key samples)
          ≡ returns (lookup key after.bins))
push_samples-new_keyed_example =
    push_samples-new_keyed thousandths window samples thousandths-HasFractions window-IsTiled

abbrev memory : ResourceTypeDecl
memory = record {
  name = text "memory";
  capacities = record { name = text "bytes"; kind = occupancy } ∷ [];
  used_by = [];
}

abbrev usage_of : ℕ → Text → Usage
usage_of id name = record {
  entity_id = id;
  resource_id = 1;
  capacities = record { name = name; value = some 4 } ∷ [];
  span = middle;
}

abbrev by_name : Text → Text
by_name name = name

abbrev usages : List ((Text → Text) × Usage)
usages = (by_name, usage_of 5 (text "bytes")) ∷ (by_name, usage_of 6 (text "lanes")) ∷ []

try_extend-try_new_example :
    (after : ResourceTimelineBuilder Text ℕ) × (e : Option AnalyzerError) × (try_extend thousandths
        (try_new memory window (some 10))
        usages
      ≡ returns (after, e))
    × (is_none e ≡ false)
    × (is_none e ≡ true
        → (id : ℕ) → member id after.long_entities ≡ has_long window (some 10) id usages)
unfolding capacity
try_extend-try_new_example =
    try_extend-try_new thousandths memory window (some 10) usages thousandths-HasFractions
      window-IsTiled
