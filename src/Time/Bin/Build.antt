-- ===== src/Time/Bin/Build.antt =====
-- `BinnedSpan::try_new`: the adjusted span covers the one that is given and is filled by its bins.
use quent.Base.{
  ℕ, ◌+◌, ◌-◌, ◌*◌, ◌≤◌, ◌<◌, min, ◌≡◌, refl, arith, nat_eq, pair_eq, option_eq, list_eq, u64_max,
  div_ceil, returns,
}
use quent.Time.Result.{ok, err, invalid_argument, zero_duration_span}
use quent.Time.Span.{SpanNanoSec, IsSpan, duration}
use quent.Time.Bin.{BinnedSpan, IsTiled, with_size, try_new}

module _ (d n : ℕ) (some_bins : 0 < n) where
  pub div_ceil-covers : d ≤ n * div_ceil d n
  unfolding div_ceil
  div_ceil-covers = omega arith

  pub div_ceil-least : n * div_ceil d n < d + n
  unfolding div_ceil
  div_ceil-least = omega arith

  pub div_ceil-pos : 0 < d → 0 < div_ceil d n
  div_ceil-pos h = grind (arith, div_ceil-covers)

  pub div_ceil-zero : d ≡ 0 → div_ceil d n ≡ 0
  div_ceil-zero h = grind (arith, div_ceil-least)

-- A span of no duration is refused, whatever the number of bins, if there are any.
pub try_new_zero_duration :
    (s : SpanNanoSec) (n : ℕ)
    → s.start ≡ s.end
    → 0 < n
    → try_new s n ≡ returns (err (invalid_argument (zero_duration_span s.start s.end)))
unfolding try_new duration
try_new_zero_duration s n e h = rw (div_ceil-zero (s.end - s.start) n h (omega arith)) refl

-- What the bins of a span are, and how they lie about the span that was asked for.
pub record Covers (s : SpanNanoSec) (n : ℕ) (b : BinnedSpan) : Type 0 where
  pub tiled : IsTiled b
  pub bins : b.num_bins ≡ n
  pub from : b.span.start ≤ s.start
  pub upto : s.end ≤ b.span.end
  pub least : n * b.bin_duration < duration s + n

abbrev binned : SpanNanoSec → ℕ → ℕ → BinnedSpan
binned s n d =
    let end = min (s.start + n * d) u64_max in
    record { span = record { start = end - n * d; end = end }; bin_duration = d; num_bins = n }

with_size-binned :
    (s : SpanNanoSec) (n d : ℕ)
    → 0 < d
    → n * d ≤ u64_max
    → with_size s n d ≡ returns (ok (binned s n d))
unfolding with_size duration
with_size-binned s n d some_duration fits = ground arith

-- A span of some duration is binned in some bins, if these in their rounded size do not pass the range
-- of `u64`: nothing panics, the bins fill the new span, the new span covers the old one, and no smaller
-- size of bin would.
pub try_new-Covers :
    (s : SpanNanoSec) (n : ℕ)
    → IsSpan s
    → s.start < s.end
    → 0 < n
    → n * div_ceil (duration s) n ≤ u64_max
    → (b : BinnedSpan) × (try_new s n ≡ returns (ok b)) × Covers s n b
unfolding try_new duration
try_new-Covers s n v lt h fits =
    let d = div_ceil (s.end - s.start) n in
    let some_duration = div_ceil-pos (s.end - s.start) n h (omega arith) in
    let covers = div_ceil-covers (s.end - s.start) n h in
    let least = div_ceil-least (s.end - s.start) n h in
    (
      binned s n d,
      with_size-binned s n d some_duration fits,
      record {
        tiled = omega arith;
        bins = refl;
        from = omega arith;
        upto = omega arith;
        least = omega arith;
      },
    )
