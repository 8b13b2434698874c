-- ===== src/Time/Bin.antt =====
-- crates/time/src/bin.rs: a span separated into bins of one size. Arithmetic that the source writes
-- with plain operators panics on overflow, as a build with overflow checks does.
pub mod Build
pub mod Tiles
pub mod Index
pub mod Ranges
pub mod Durations
use quent.Base.{
  ℕ, zero, suc, ◌+◌, ◌-◌, ◌*◌, ◌/◌, ◌≤◌, ◌<◌, min, max, ◌≡◌, ◌||◌, Option, none, some, List, [],
  ◌∷◌, ltb, leb, eqb, if◌then◌else◌, nat_eq, pair_eq, option_eq, list_eq, u64_max, saturating_add,
  saturating_mul, saturating_sub, checked_sub, div_ceil, Outcome, returns, panics, ◌>>=◌,
  add_or_panic, sub_or_panic, mul_or_panic,
}
use quent.Time.Result.{Result, ok, err, invalid_argument, zero_duration_span}
use quent.Time.Span
use quent.Time.Span.{SpanNanoSec, during, duration}

-- `bin_duration` and `num_bins` are `NonZero` in the source.
pub record BinnedSpan : Type 0 where
  pub span : SpanNanoSec
  pub bin_duration : ℕ
  pub num_bins : ℕ

-- `unwrap` of a result of the crate.
abbrev pub unwrap {ℓ} : {A : Type ℓ} → Result A → Outcome A
unwrap (ok a) = returns a
unwrap (err e) = panics

-- The assertion on the adjusted span, behind the `?` of its construction.
checked_span : ℕ → ℕ → Result SpanNanoSec → Outcome (Result BinnedSpan)
unfolding duration
checked_span num_bins bin_size (err e) = returns (err e)
checked_span num_bins bin_size (ok span) =
    if eqb (duration span) (saturating_mul num_bins bin_size)
    then returns (ok (record { span = span; bin_duration = bin_size; num_bins = num_bins }))
    else panics

with_size : SpanNanoSec → ℕ → ℕ → Outcome (Result BinnedSpan)
unfolding checked_span Span.try_new
with_size span num_bins bin_size =
    let total = saturating_mul num_bins bin_size in
    let end = saturating_add span.start total in
    let start = saturating_sub end total in
    if eqb bin_size 0
    then returns (err (invalid_argument (zero_duration_span span.start span.end)))
    else checked_span num_bins bin_size (Span.try_new start end)

unfoldable pub try_new : SpanNanoSec → ℕ → Outcome (Result BinnedSpan)
unfolding with_size
try_new span num_bins = with_size span num_bins (div_ceil (duration span) num_bins)

abbrev bounded_index : ℕ → ℕ → Option ℕ
bounded_index maybe_index num_bins = if leb num_bins maybe_index then none else some maybe_index

abbrev index_from : BinnedSpan → Option ℕ → Option ℕ
index_from b none = none
index_from b (some relative_timestamp) =
    bounded_index (relative_timestamp / b.bin_duration) b.num_bins

unfoldable pub index_of : BinnedSpan → ℕ → Option ℕ
index_of b timestamp = index_from b (checked_sub timestamp b.span.start)

unfoldable pub bin : BinnedSpan → ℕ → Outcome (Option SpanNanoSec)
unfolding Span.try_new
bin b index =
    if ltb index b.num_bins
    then (do
      offset ← mul_or_panic index b.bin_duration
      start ← add_or_panic b.span.start offset
      end ← add_or_panic start b.bin_duration
      span ← unwrap (Span.try_new start end)
      returns (some span))
    else returns none

-- `start..end`
pub record Range : Type 0 where
  pub start : ℕ
  pub end : ℕ

abbrev index_of_last : BinnedSpan → Option ℕ → Option ℕ
index_of_last b none = none
index_of_last b (some t) = index_of b t

abbrev pub index_range : BinnedSpan → SpanNanoSec → Option ℕ → Option ℕ → Range
index_range b span (some start_idx) (some end_idx) = record { start = start_idx; end = end_idx + 1 }
index_range b span (some start_idx) none = record { start = start_idx; end = b.num_bins }
index_range b span none (some end_idx) = record { start = 0; end = end_idx + 1 }
index_range b span none none =
    if during b.span span
    then record { start = 0; end = b.num_bins }
    else record { start = 0; end = 0 }

unfoldable pub iter_indices : BinnedSpan → SpanNanoSec → Range
unfolding index_of during
iter_indices b span =
    index_range b span (index_of b span.start) (index_of_last b (checked_sub span.end 1))

-- The duration in one bin of the range.
unfoldable pub intersect_duration : BinnedSpan → SpanNanoSec → Range → ℕ → Outcome (ℕ × ℕ)
intersect_duration b span indices index =
    if eqb index indices.start || eqb index (indices.end - 1)
    then (do
      before ← mul_or_panic index b.bin_duration
      left ← add_or_panic b.span.start before
      upto ← mul_or_panic (index + 1) b.bin_duration
      right ← add_or_panic b.span.start upto
      part ← sub_or_panic (min span.end right) (max span.start left)
      returns (index, part))
    else returns (index, b.bin_duration)

-- The items of an iterator, in order; the first panic ends it.
abbrev pub collect {ℓ} : {A : Type ℓ} → (ℕ → Outcome A) → ℕ → ℕ → Outcome (List A)
collect f zero from = returns []
collect f (suc n) from = do x ← f from; xs ← collect f n (from + 1); returns (x ∷ xs)

unfoldable pub iter_indices_intersect_durations : BinnedSpan → SpanNanoSec → Outcome (List (ℕ × ℕ))
unfolding intersect_duration
iter_indices_intersect_durations b span =
    let indices = iter_indices b span in
    collect (intersect_duration b span indices) (indices.end - indices.start) indices.start

-- Bins that fill their span, inside the range of `u64`.
pub record IsTiled (b : BinnedSpan) : Type 0 where
  pub some_duration : 0 < b.bin_duration
  pub some_bins : 0 < b.num_bins
  pub filled : b.span.end ≡ b.span.start + b.num_bins * b.bin_duration
  pub fits : b.span.end ≤ u64_max
