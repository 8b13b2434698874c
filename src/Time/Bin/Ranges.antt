-- ===== src/Time/Bin/Ranges.antt =====
-- `BinnedSpan::iter_indices` yields exactly the bins that a span of some duration intersects.
use quent.Base.{
  ℕ, ◌+◌, ◌-◌, ◌*◌, ◌≤◌, ◌<◌, ◌≡◌, refl, ◌↔◌, ◌⊎◌, inl, inr, true, Option, none, some, arith, leb,
  Option-cases, nat_eq, pair_eq, option_eq, list_eq, checked_sub,
}
use quent.Time.Span.{SpanNanoSec, intersects, during, contains_timestamp}
use quent.Time.Bin.{BinnedSpan, IsTiled, Range, index_of, index_range, iter_indices}
use quent.Time.Bin.Tiles.{bin_at}
use quent.Time.Bin.Index.{index_of_sound, index_of_complete, index_of-eq-none}

abbrev pub InRange : ℕ → Range → Type 0
InRange i r = (r.start ≤ i) × (i < r.end)

abbrev pub Meets : BinnedSpan → SpanNanoSec → ℕ → Type 0
Meets b span i = (i < b.num_bins) × (intersects (bin_at b i) span ≡ true)

-- Bins further on start later.
pub bin_start_mono : (i j d : ℕ) → i < j → (i + 1) * d ≤ j * d
bin_start_mono i j d h = grind arith

pub offset_mono : (i j d : ℕ) → i ≤ j → i * d ≤ j * d
offset_mono i j d h = grind arith

-- What an index that was looked up says of the timestamp.
abbrev Locates : BinnedSpan → ℕ → Option ℕ → Type 0
Locates b t none = (t < b.span.start) ⊎ (b.span.end ≤ t)
Locates b t (some j) =
    (j < b.num_bins)
    × (b.span.start + j * b.bin_duration ≤ t)
    × (t < b.span.start + (j + 1) * b.bin_duration)

index_of-Locates : (b : BinnedSpan) (t : ℕ) → IsTiled b → Locates b t (index_of b t)
index_of-Locates b t v = elim (Option-cases (index_of b t)) [
  | inl e ↦
      let out = (index_of-eq-none b t v).0 e in rw e (unfold contains_timestamp in ground arith)
  | inr (j, e) ↦
      let (lt, inside) = index_of_sound b t j v e in
      rw e
        (lt, unfold contains_timestamp in ground arith, unfold contains_timestamp in ground arith)
]

module _ (b : BinnedSpan) (span : SpanNanoSec) (i : ℕ) (v : IsTiled b)
    (h : span.start < span.end) where
  index_range_iff :
      (lo hi : Option ℕ)
      → Locates b span.start lo
      → Locates b (span.end - 1) hi
      → InRange i (index_range b span lo hi) ↔ Meets b span i
  unfolding intersects during
  index_range_iff (some lo) (some hi) p q =
      let f = v.filled in
      let d = v.some_duration in
      (
        λ r. ground (arith, offset_mono i hi b.bin_duration, offset_mono lo i b.bin_duration),
        λ m. ground (arith, bin_start_mono i lo b.bin_duration, bin_start_mono hi i b.bin_duration),
      )
  index_range_iff (some lo) none p q =
      let f = v.filled in
      let d = v.some_duration in
      (
        λ r.
            ground
              (arith, offset_mono lo i b.bin_duration, bin_start_mono i b.num_bins b.bin_duration),
        λ m. ground (
          arith,
          bin_start_mono i lo b.bin_duration,
          bin_start_mono lo b.num_bins b.bin_duration,
        ),
      )
  index_range_iff none (some hi) p q =
      let f = v.filled in
      let d = v.some_duration in
      (
        λ r.
            ground
              (arith, offset_mono i hi b.bin_duration, bin_start_mono hi b.num_bins b.bin_duration),
        λ m. ground (
          arith,
          bin_start_mono hi i b.bin_duration,
          bin_start_mono hi b.num_bins b.bin_duration,
        ),
      )
  index_range_iff none none p q =
      let f = v.filled in
      let d = v.some_duration in
      (
        λ r. ground (arith, bin_start_mono i b.num_bins b.bin_duration),
        λ m. ground (arith, bin_start_mono i b.num_bins b.bin_duration),
      )

  -- Where the bins tile the binned span, for a span of some duration, an index is in the range exactly
  -- when it is that of a bin which the span intersects.
  pub iter_indices_iff : InRange i (iter_indices b span) ↔ Meets b span i
  unfolding iter_indices
  iter_indices_iff =
      let some_end : leb 1 span.end ≡ true = ground arith in
      rw some_end (
        index_range_iff (index_of b span.start) (index_of b (span.end - 1))
          (index_of-Locates b span.start v) (index_of-Locates b (span.end - 1) v))

-- The span of no duration at timestamp 0 gets all the bins, where they tile a binned span that starts at
-- 0 too.
pub empty_span_indices :
    (b : BinnedSpan) (span : SpanNanoSec)
    → IsTiled b
    → b.span.start ≡ 0
    → span.start ≡ 0
    → span.end ≡ 0
    → iter_indices b span ≡ record { start = 0; end = b.num_bins }
unfolding iter_indices
empty_span_indices b span v e s z =
    let none_last : checked_sub span.end 1 ≡ none = ground arith in
    let d = v.some_duration in
    let first =
      index_of_complete b span.start 0 v v.some_bins (unfold contains_timestamp in ground arith) in
    rw (none_last, first) refl
