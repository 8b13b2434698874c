-- ===== src/Time/Tests.antt =====
-- The times of crates/time at work: the examples of its results.
use quent.Base.{
  ℕ, ◌≤◌, ◌≡◌, refl, ◌↔◌, true, none, some, List, [], ◌∷◌, arith, nat_eq, pair_eq, option_eq,
  list_eq, u64_max, div_ceil, returns, panics,
}
use quent.Time.Result.{ok}
use quent.Time.Span.{SpanNanoSec, IsSpan, intersects, intersection, contains_timestamp, duration}
use quent.Time.Span.Laws.{empty_span_intersects}
use quent.Time.Bin.{
  BinnedSpan, IsTiled, index_of, bin, iter_indices, iter_indices_intersect_durations,
}
use quent.Time.Bin.Build.{Covers, try_new-Covers}
use quent.Time.Bin.Tiles.{try_new_overflow}
use quent.Time.Bin.Index.{index_of_iff}
use quent.Time.Bin.Ranges.{Meets, InRange, iter_indices_iff, empty_span_indices}
use quent.Time.Bin.Durations.{
  overlaps, duration_of, total, durations_total, durations-eq-overlaps, empty_span_durations,
}
use quent.Time.Collector.{collect}
use quent.Time.Collector.Order.{IsOrdered, at, collect-IsOrdered, collect-stable}
use quent.Time.Clock.{Reading, Epoch, since, timestamp, timestamp_mono}
use quent.Time.Bin

abbrev span_of : ℕ → ℕ → SpanNanoSec
span_of start end = record { start = start; end = end }

-- Three bins of ten, from 100 on.
abbrev three_bins : BinnedSpan
three_bins = record { span = span_of 100 130; bin_duration = 10; num_bins = 3 }

three_bins-IsTiled : IsTiled three_bins
three_bins-IsTiled = record {
  some_duration = omega arith;
  some_bins = omega arith;
  filled = refl;
  fits = omega arith;
}

-- Two bins of five, from 0 on.
abbrev first_bins : BinnedSpan
first_bins = record { span = span_of 0 10; bin_duration = 5; num_bins = 2 }

first_bins-IsTiled : IsTiled first_bins
first_bins-IsTiled = record {
  some_duration = omega arith;
  some_bins = omega arith;
  filled = refl;
  fits = omega arith;
}

abbrev odd : SpanNanoSec
odd = span_of 100 125

odd-IsSpan : IsSpan odd
odd-IsSpan = record { ordered = omega arith; fits = omega arith }

durations_total_example :
    (xs : List (ℕ × ℕ)) × (iter_indices_intersect_durations three_bins (span_of 95 115)
      ≡ returns xs)
    × (total xs ≡ duration_of (intersection (span_of 100 130) (span_of 95 115)))
durations_total_example =
    durations_total three_bins (span_of 95 115) three_bins-IsTiled (omega arith)

durations-eq-overlaps_example :
    iter_indices_intersect_durations three_bins (span_of 105 200)
    ≡ returns (overlaps three_bins (span_of 105 200) 3 0)
unfolding iter_indices
durations-eq-overlaps_example =
    durations-eq-overlaps three_bins (span_of 105 200) three_bins-IsTiled (omega arith)

iter_indices_iff_example :
    InRange 1 (iter_indices three_bins (span_of 105 200)) ↔ Meets three_bins (span_of 105 200) 1
iter_indices_iff_example =
    iter_indices_iff three_bins (span_of 105 200) 1 three_bins-IsTiled (omega arith)

index_of_iff_example : (index_of three_bins 117 ≡ some 1) ↔ (
    (s : SpanNanoSec) × (bin three_bins 1 ≡ returns (some s)) × (contains_timestamp s 117 ≡ true))
index_of_iff_example = index_of_iff three_bins 117 1 three_bins-IsTiled

try_new-Covers_example : (b : BinnedSpan) × (Bin.try_new odd 3 ≡ returns (ok b)) × Covers odd 3 b
unfolding div_ceil duration
try_new-Covers_example = try_new-Covers odd 3 odd-IsSpan (omega arith) (omega arith) (omega arith)

-- All of the range of the clock in two bins, the second of which ends past it.
try_new_overflow_example :
    (b : BinnedSpan) × (Bin.try_new (span_of 0 u64_max) 2 ≡ returns (ok b))
    × (b.num_bins ≡ 2)
    × (bin b 1 ≡ panics)
unfolding div_ceil duration
try_new_overflow_example =
    try_new_overflow (span_of 0 u64_max) 2 (omega arith) (omega arith) (omega arith)

empty_span_indices_example : iter_indices first_bins (span_of 0 0) ≡ record { start = 0; end = 2 }
empty_span_indices_example =
    empty_span_indices first_bins (span_of 0 0) first_bins-IsTiled refl refl refl

empty_span_durations_example : iter_indices_intersect_durations first_bins (span_of 0 0) ≡ panics
empty_span_durations_example =
    empty_span_durations first_bins (span_of 0 0) first_bins-IsTiled refl (omega arith) refl refl

empty_span_intersects_example :
    (intersects (span_of 5 5) (span_of 2 8) ≡ true)
    × (intersection (span_of 5 5) (span_of 2 8) ≡ none)
empty_span_intersects_example =
    empty_span_intersects (span_of 5 5) (span_of 2 8) refl (omega arith) (omega arith)

-- Arrivals out of order, two of them at one time.
abbrev arrivals : List (ℕ × ℕ)
arrivals = (20, 1) ∷ (10, 2) ∷ (20, 3) ∷ (15, 4) ∷ (10, 5) ∷ []

abbrev time_of : ℕ × ℕ → ℕ
time_of item = item.0

collect-IsOrdered_example : IsOrdered time_of (collect time_of arrivals)
collect-IsOrdered_example = collect-IsOrdered time_of arrivals

collect-stable_example : at time_of 10 (collect time_of arrivals) ≡ (10, 2) ∷ (10, 5) ∷ []
collect-stable_example = collect-stable time_of arrivals 10

abbrev early : Reading
early = record { instant = 50; now = 60; system = some 1000 }

-- The system clock fails at the second call, and does no harm.
abbrev late : Reading
late = record { instant = 70; now = 75; system = none }

abbrev fixed_epoch : Epoch
fixed_epoch = record { instant = 50; unix_ns = 1000 }

timestamp_mono_example : 1010 ≤ 1025
unfolding timestamp since
timestamp_mono_example =
    timestamp_mono none (some fixed_epoch) (some fixed_epoch) early late 1010 1025
      (record { now = omega arith; near = omega arith }) refl refl
