-- ===== src/Nvtx/Stats.antt =====
-- integrations/nvtx/analyzer/src/stats.rs: statistics of the range spans of each group.
pub mod Groups
pub mod Totals
pub mod Average
use quent.Base.{
  or_else, ℕ, ◌+◌, ◌/◌, min, max, Bool, true, false, ◌&&◌, Option, none, some, List, [], ◌∷◌, map,
  eqb, if◌then◌else◌, nat_eq, pair_eq, option_eq, list_eq, keep, u64_max, checked_add,
}
use quent.Base.Assoc.{Assoc, lookup, insert}
use quent.Base.Text.{Text}
use quent.Nvtx.Span.{NvtxSpan, SpanKind, push_pop, start_end, resource, duration}

-- `(name, domain, category)`.
abbrev pub StatsKey : Type 0
StatsKey = Text × (ℕ × Option ℕ)

pub record RangeStats : Type 0 where
  pub count : ℕ
  pub observed_count : ℕ
  pub total_duration : ℕ
  pub avg_duration : ℕ
  pub min_duration : ℕ
  pub max_duration : ℕ
  pub saturated : Bool

abbrev pub no_stats : RangeStats
no_stats = record {
  count = 0;
  observed_count = 0;
  total_duration = 0;
  avg_duration = 0;
  min_duration = 0;
  max_duration = 0;
  saturated = false;
}

abbrev pub bound_durations : RangeStats → ℕ → RangeStats
bound_durations s duration =
    if eqb s.observed_count 0
    then record s { min_duration = duration; max_duration = duration }
    else record s {
      min_duration = min s.min_duration duration;
      max_duration = max s.max_duration duration;
    }

abbrev pub add_duration : RangeStats → Option ℕ → RangeStats
add_duration s none = record s { total_duration = u64_max; saturated = true }
add_duration s (some total) = record s { total_duration = total }

abbrev pub observe_duration : RangeStats → Option ℕ → RangeStats
observe_duration s none = s
observe_duration s (some duration) =
    let bounded = bound_durations s duration in
    let seen = record bounded { observed_count = bounded.observed_count + 1 } in
    add_duration seen (checked_add seen.total_duration duration)

unfoldable pub accumulate : RangeStats → NvtxSpan → RangeStats
unfolding duration
accumulate s span = observe_duration (record s { count = s.count + 1 }) (duration span)

-- `checked_div`.
abbrev checked_div : ℕ → ℕ → Option ℕ
checked_div a b = if eqb b 0 then none else some (a / b)

unfoldable pub finish : RangeStats → RangeStats
finish s = record s { avg_duration = or_else (checked_div s.total_duration s.observed_count) 0 }

unfoldable pub is_range : SpanKind → Bool
is_range (push_pop t p) = true
is_range start_end = true
is_range (resource i) = false

abbrev pub key_of : NvtxSpan → StatsKey
key_of span = (span.name, (span.domain, span.category))

-- One span of the loop: its group's entry, or a new one.
unfoldable pub group : Assoc StatsKey RangeStats → NvtxSpan → Assoc StatsKey RangeStats
unfolding accumulate
group grouped span =
    insert (key_of span) (accumulate (or_else (lookup (key_of span) grouped) no_stats) span) grouped

unfoldable pub group_all :
    (NvtxSpan → Bool) → Assoc StatsKey RangeStats → List NvtxSpan → Assoc StatsKey RangeStats
unfolding group is_range
group_all keep grouped [] = grouped
group_all keep grouped (span ∷ spans) =
    group_all keep (if is_range span.kind && keep span then group grouped span else grouped) spans

abbrev finish_entry : StatsKey × RangeStats → StatsKey × RangeStats
finish_entry (k, s) = (k, finish s)

-- The map in key order is read here through its look-ups.
unfoldable pub range_statistics_where :
    List NvtxSpan → (NvtxSpan → Bool) → Assoc StatsKey RangeStats
unfolding finish group_all
range_statistics_where spans keep = map finish_entry (group_all keep [] spans)

unfoldable pub range_statistics : List NvtxSpan → Assoc StatsKey RangeStats
unfolding range_statistics_where
range_statistics spans = range_statistics_where spans (λ _. true)
