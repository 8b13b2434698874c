-- ===== src/Time/Bin/Tiles.antt =====
-- The bins of a binned span lie end to end from its start to its end. And where the rounded size of
-- the bins passes the range of `u64`, the last bin cannot be asked for.
use quent.Base.{
  ℕ, zero, suc, ◌+◌, ◌-◌, ◌*◌, ◌≤◌, ◌<◌, ◌≡◌, refl, inl, inr, none, some, arith, ltb, if◌then◌else◌,
  Bool-cases, nat_eq, pair_eq, option_eq, list_eq, u64_max, div_ceil, returns, panics,
}
use quent.Time.Result.{ok}
use quent.Time.Span.{SpanNanoSec, duration}
use quent.Time.Bin.{BinnedSpan, IsTiled, with_size, try_new, bin}
use quent.Time.Bin.Build.{div_ceil-pos}

-- The bin of an index, by its place.
abbrev pub bin_at : BinnedSpan → ℕ → SpanNanoSec
bin_at b i = record {
  start = b.span.start + i * b.bin_duration;
  end = b.span.start + (i + 1) * b.bin_duration;
}

pub bin_end-le :
    (b : BinnedSpan) (i : ℕ) → IsTiled b → i < b.num_bins → (bin_at b i).end ≤ b.span.end
bin_end-le b i t h =
    let room : (i + 1) * b.bin_duration ≤ b.num_bins * b.bin_duration = grind arith in
    omega (arith, t.filled)

-- Where the bins tile the binned span, asking for a bin never panics: an index below the number of bins
-- has the bin from that many durations after the start of the span to one more, no other has any.
pub bin-eq-bin_at :
    (b : BinnedSpan) (i : ℕ)
    → IsTiled b
    → bin b i ≡ returns (if ltb i b.num_bins then some (bin_at b i) else none)
unfolding bin
bin-eq-bin_at b i t = elim (Bool-cases (ltb i b.num_bins)) [
  | inl h ↦ let e = bin_end-le b i t (ground arith) in let f = t.fits in ground arith
  | inr h ↦ ground arith
]

saturated : SpanNanoSec → ℕ → ℕ → BinnedSpan
saturated s n d = record {
  span = record { start = 0; end = u64_max };
  bin_duration = d;
  num_bins = n;
}

with_size-saturated :
    (s : SpanNanoSec) (n d : ℕ)
    → 0 < d
    → u64_max < n * d
    → with_size s n d ≡ returns (ok (saturated s n d))
unfolding with_size saturated duration
with_size-saturated s n d p q = ground arith

last_bin : (n d : ℕ) → 0 < n → (n - 1) * d + d ≡ n * d
last_bin zero d h = absurd (omega arith)
last_bin (suc n) d h = let e : suc n - 1 ≡ n = omega arith in rw e (omega arith)

saturated-bin :
    (s : SpanNanoSec) (n d : ℕ) → 0 < n → u64_max < n * d → bin (saturated s n d) (n - 1) ≡ panics
unfolding bin saturated
saturated-bin s n d p q = let e : (n - 1) * d + d ≡ n * d = last_bin n d p in ground arith

-- For a span of some duration and some bins which, in their rounded size, pass the range of `u64`,
-- `try_new` still succeeds with that many bins, and asking its result for the last of them panics.
pub try_new_overflow :
    (s : SpanNanoSec) (n : ℕ)
    → s.start < s.end
    → 0 < n
    → u64_max < n * div_ceil (duration s) n
    → (b : BinnedSpan) × (try_new s n ≡ returns (ok b))
      × (b.num_bins ≡ n)
      × (bin b (n - 1) ≡ panics)
unfolding try_new
try_new_overflow s n lt h over =
    let d = div_ceil (duration s) n in
    let some_duration = div_ceil-pos (duration s) n h (unfold duration in omega arith) in
    (
      saturated s n d,
      with_size-saturated s n d some_duration over,
      unfold saturated in refl,
      saturated-bin s n d h over,
    )
