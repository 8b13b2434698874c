-- ===== src/Time/Bin/Durations.antt =====
-- `BinnedSpan::iter_indices_intersect_durations`: the durations of the intersections, and their sum.
use quent.Base.{
  ℕ, zero, suc, ◌+◌, ◌-◌, ◌*◌, ◌≤◌, ◌<◌, min, max, ◌≡◌, refl, sym, inl, inr, true, false, ◌||◌,
  Option, none, some, List, [], ◌∷◌, arith, ltb, leb, eqb, Bool-cases, nat_eq, pair_eq, option_eq,
  list_eq, Outcome, returns, panics, ◌>>=◌,
}
use quent.Time.Span.{SpanNanoSec, intersects, intersection, duration}
use quent.Time.Bin.{
  BinnedSpan, IsTiled, Range, iter_indices, collect, intersect_duration,
  iter_indices_intersect_durations,
}
use quent.Time.Bin.Tiles.{bin_at, bin_end-le}
use quent.Time.Bin.Ranges.{
  InRange, Meets, bin_start_mono, offset_mono, iter_indices_iff, empty_span_indices,
}

abbrev pub duration_of : Option SpanNanoSec → ℕ
duration_of none = 0
duration_of (some s) = duration s

-- The duration for which a span lies in the bin of an index.
unfoldable pub overlap : BinnedSpan → SpanNanoSec → ℕ → ℕ
overlap b span i = duration_of (intersection (bin_at b i) span)

-- The indices of a range with the duration for each, as the iterator should yield them.
unfoldable pub overlaps : BinnedSpan → SpanNanoSec → ℕ → ℕ → List (ℕ × ℕ)
overlaps b span zero from = []
overlaps b span (suc n) from = (from, overlap b span from) ∷ overlaps b span n (from + 1)

abbrev pub total : List (ℕ × ℕ) → ℕ
total [] = 0
total ((i, x) ∷ xs) = x + total xs

module _ (b : BinnedSpan) (span : SpanNanoSec) (v : IsTiled b) where
  edge_bin :
      (i : ℕ) (r : Range)
      → Meets b span i
      → span.start < span.end
      → (eqb i r.start || eqb i (r.end - 1)) ≡ true
      → intersect_duration b span r i ≡ returns (i, overlap b span i)
  unfolding intersect_duration overlap intersection duration intersects
  edge_bin i r m h e = let last = bin_end-le b i v m.0 in let fits = v.fits in rw e (ground arith)

  middle_bin :
      (i : ℕ) (r : Range)
      → (eqb i r.start || eqb i (r.end - 1)) ≡ false
      → span.start ≤ (bin_at b i).start
      → (bin_at b i).end ≤ span.end
      → intersect_duration b span r i ≡ returns (i, overlap b span i)
  unfolding intersect_duration overlap intersection duration
  middle_bin i r e lo hi = let d = v.some_duration in rw e (ground arith)

  -- The parts of a span that lie in bins further left add up.
  abbrev clip : ℕ → ℕ
  clip x = min (max x span.start) span.end

  overlap-clip :
      (i : ℕ)
      → span.start ≤ span.end
      → overlap b span i + clip (bin_at b i).start ≡ clip (bin_at b i).end
  unfolding overlap intersection duration
  overlap-clip i h = ground arith

  total-overlaps :
      (n from : ℕ)
      → span.start ≤ span.end
      → total (overlaps b span n from) + clip (bin_at b from).start
        ≡ clip (b.span.start + (from + n) * b.bin_duration)
  unfolding overlaps
  total-overlaps zero from h = let e : from + 0 ≡ from = omega arith in rw e (omega arith)
  total-overlaps (suc n) from h =
      let e : from + suc n ≡ from + 1 + n = omega arith in
      rw e (omega (arith, total-overlaps n (from + 1) h, overlap-clip from h))

  no_overlap : (i : ℕ) → intersects (bin_at b i) span ≡ false → overlap b span i ≡ 0
  unfolding overlap intersection duration intersects
  no_overlap i h = ground arith

module _ (b : BinnedSpan) (span : SpanNanoSec) (v : IsTiled b) (h : span.start < span.end) where
  abbrev indices : Range
  indices = iter_indices b span

  -- In a bin of the range the code computes the duration of the intersection, and does not panic.
  intersect_duration-overlap :
      (i : ℕ)
      → InRange i indices
      → intersect_duration b span indices i ≡ returns (i, overlap b span i)
  intersect_duration-overlap i r =
      let iff = iter_indices_iff b span i v h in
      elim (Bool-cases (eqb i indices.start || eqb i (indices.end - 1))) [
        | inl e ↦ edge_bin b span v i indices (iff.0 r) h e
        | inr e ↦
            let inner : (indices.start < i) × (i < indices.end - 1) =
              (ground arith, ground arith) in
            let first = (iter_indices_iff b span indices.start v h).0 (omega arith, omega arith) in
            let last =
              (iter_indices_iff b span (indices.end - 1) v h).0 (omega arith, omega arith) in
            middle_bin b span v i indices e
              (unfold intersects in ground (arith, bin_start_mono indices.start i b.bin_duration))
              (unfold intersects in
                ground (arith, bin_start_mono i (indices.end - 1) b.bin_duration))
      ]

  collect-overlaps :
      (n from : ℕ)
      → indices.start ≤ from
      → from + n ≤ indices.end
      → collect (intersect_duration b span indices) n from ≡ returns (overlaps b span n from)
  unfolding overlaps
  collect-overlaps zero from lo hi = refl
  collect-overlaps (suc n) from lo hi =
      rw
        (
          intersect_duration-overlap from (lo, omega arith),
          collect-overlaps n (from + 1) (omega arith) (omega arith),
        )
        refl

  -- Where the bins tile the binned span, for a span of some duration, nothing panics, and each index of
  -- the range comes in order with the duration for which the span lies in that bin.
  pub durations-eq-overlaps :
      iter_indices_intersect_durations b span
      ≡ returns (overlaps b span (indices.end - indices.start) indices.start)
  unfolding iter_indices_intersect_durations
  durations-eq-overlaps = elim (Bool-cases (leb indices.start indices.end)) [
    | inl some_room ↦
        collect-overlaps (indices.end - indices.start) indices.start (omega arith) (ground arith)
    | inr none_left ↦
        let e : indices.end - indices.start ≡ 0 = ground arith in rw e (unfold overlaps in refl)
  ]

  total-append :
      (m n from : ℕ)
      → total (overlaps b span (m + n) from)
        ≡ total (overlaps b span m from) + total (overlaps b span n (from + m))
  unfolding overlaps
  total-append zero n from =
      let e : 0 + n ≡ n = omega arith in
      let f : from + 0 ≡ from = omega arith in rw (e, f) (omega arith)
  total-append (suc m) n from =
      let e : suc m + n ≡ suc (m + n) = omega arith in
      let f : from + suc m ≡ from + 1 + m = omega arith in
      rw (e, f) (omega (arith, total-append m n (from + 1)))

  total-zero :
      (n from : ℕ)
      → ((i : ℕ) → from ≤ i → i < from + n → overlap b span i ≡ 0)
      → total (overlaps b span n from) ≡ 0
  unfolding overlaps
  total-zero zero from z = refl
  total-zero (suc n) from z = omega (
    arith,
    z from (omega arith) (omega arith),
    total-zero n (from + 1) (λ i lo hi. z i (omega arith) (omega arith)),
  )

  outside : (i : ℕ) → i < b.num_bins → ¬ InRange i indices → overlap b span i ≡ 0
  outside i lt out = elim (Bool-cases (intersects (bin_at b i) span)) [
    | inl e ↦ absurd (out ((iter_indices_iff b span i v h).1 (lt, e)))
    | inr e ↦ no_overlap b span v i e
  ]

  total-range :
      total (overlaps b span (indices.end - indices.start) indices.start)
      ≡ total (overlaps b span b.num_bins 0)
  total-range = elim (Bool-cases (ltb indices.start indices.end)) [
    | inl some_room ↦
        let lo = indices.start in
        let hi = indices.end in
        let last = (iter_indices_iff b span (hi - 1) v h).0 (ground arith, ground arith) in
        let below = total-zero lo 0 (λ i p q. outside i (ground arith) (λ r. omega arith)) in
        let above =
          total-zero (b.num_bins - hi) hi (λ i p q. outside i (ground arith) (λ r. omega arith)) in
        let e : b.num_bins ≡ lo + (hi - lo) + (b.num_bins - hi) = ground arith in
        let f : 0 + lo ≡ lo = omega arith in
        let g : 0 + (lo + (hi - lo)) ≡ hi = ground arith in
        let split = total-append (lo + (hi - lo)) (b.num_bins - hi) 0 in
        let split' = total-append lo (hi - lo) 0 in
        let whole = rw (← e, g) at split in
        let left = rw f at split' in omega (arith, whole, left, below, above)
    | inr none_left ↦
        let e : indices.end - indices.start ≡ 0 = ground arith in
        rw e (
          unfold overlaps in
          sym (total-zero b.num_bins 0 (λ i p q. outside i (omega arith) (λ r. ground arith))))
  ]

  -- Where the bins tile the binned span, for a span of some duration, nothing panics, and the durations
  -- that come back add up to the duration for which the span lies in the binned span.
  pub durations_total :
      (xs : List (ℕ × ℕ)) × (iter_indices_intersect_durations b span ≡ returns xs)
      × (total xs ≡ duration_of (intersection b.span span))
  durations_total =
      let all = total-overlaps b span v b.num_bins 0 (omega arith) in
      let f : 0 + b.num_bins ≡ b.num_bins = omega arith in
      let filled = v.filled in
      (
        overlaps b span (indices.end - indices.start) indices.start,
        durations-eq-overlaps,
        rw total-range (unfold intersection duration in ground arith),
      )

collect_panics {ℓ} :
    {A : Type ℓ} (f : ℕ → Outcome A) (n from i : ℕ)
    → from ≤ i
    → i < from + n
    → f i ≡ panics
    → collect f n from ≡ panics
collect_panics {A} f zero from i lo hi e = absurd (omega arith)
collect_panics {A} f (suc n) from i lo hi e = elim (Bool-cases (eqb from i)) [
  | inl here ↦ let same : from ≡ i = ground arith in rw (same, e) refl
  | inr later ↦
      let rest = collect_panics f n (from + 1) i (ground arith) (omega arith) e in
      first_item (f from) rest
]
  where
    first_item :
        (x : Outcome A)
        → collect f n (from + 1) ≡ panics
        → (x >>= (λ y. collect f n (from + 1) >>= (λ ys. returns (y ∷ ys)))) ≡ panics
    first_item (returns y) rest = rw rest refl
    first_item panics rest = refl

-- For the span of no duration at timestamp 0 the computation of the durations panics, where the bins tile
-- a binned span that starts at 0 too, and there is more than one of them.
pub empty_span_durations :
    (b : BinnedSpan) (span : SpanNanoSec)
    → IsTiled b
    → b.span.start ≡ 0
    → 1 < b.num_bins
    → span.start ≡ 0
    → span.end ≡ 0
    → iter_indices_intersect_durations b span ≡ panics
unfolding iter_indices_intersect_durations
empty_span_durations b span v e more s z =
    let all = empty_span_indices b span v e s z in
    let far = offset_mono 1 (b.num_bins - 1) b.bin_duration (omega arith) in
    let d = v.some_duration in
    let last_panics : intersect_duration b span (record { start = 0; end = b.num_bins })
          (b.num_bins - 1)
        ≡ panics =
      unfold intersect_duration in ground arith in
    rw all (
      collect_panics (intersect_duration b span (record { start = 0; end = b.num_bins }))
        (b.num_bins - 0) 0 (b.num_bins - 1) (omega arith) (omega arith) last_panics)
