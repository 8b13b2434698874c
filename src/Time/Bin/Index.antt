-- ===== src/Time/Bin/Index.antt =====
-- `BinnedSpan::index_of` is the index of the bin that holds the timestamp.
use quent.Base.{
  ℕ, ◌+◌, ◌-◌, ◌*◌, ◌/◌, ◌≤◌, ◌<◌, ◌≡◌, ◌↔◌, true, false, none, some, arith, nat_eq, pair_eq,
  option_eq, list_eq, returns,
}
use quent.Time.Span.{SpanNanoSec, contains_timestamp}
use quent.Time.Bin.{BinnedSpan, IsTiled, bin, index_of}
use quent.Time.Bin.Tiles.{bin_at, bin-eq-bin_at}

-- The bounds of a quotient, and that they determine it.
pub div_bounds : (x d : ℕ) → 0 < d → (x / d * d ≤ x) × (x < (x / d + 1) * d)
div_bounds x d h = (omega arith, omega arith)

pub div_unique : (x d q : ℕ) → q * d ≤ x → x < (q + 1) * d → x / d ≡ q
div_unique x d q lo hi = grind arith

pub div-lt : (x d n : ℕ) → 0 < d → x < n * d → x / d < n
div-lt x d n h lt = grind arith

pub le-div : (x d n : ℕ) → 0 < d → n * d ≤ x → n ≤ x / d
le-div x d n h le = grind arith

-- The bin with the index that is found holds the timestamp.
pub index_of_sound :
    (b : BinnedSpan) (t i : ℕ)
    → IsTiled b
    → index_of b t ≡ some i
    → (i < b.num_bins) × (contains_timestamp (bin_at b i) t ≡ true)
unfolding index_of contains_timestamp
index_of_sound b t i v h =
    let r = div_bounds (t - b.span.start) b.bin_duration v.some_duration in
    let q : (t - b.span.start) / b.bin_duration ≡ i = ground arith in
    let bounds = rw q at r in (ground arith, ground arith)

pub index_of_complete :
    (b : BinnedSpan) (t i : ℕ)
    → IsTiled b
    → i < b.num_bins
    → contains_timestamp (bin_at b i) t ≡ true
    → index_of b t ≡ some i
unfolding index_of contains_timestamp
index_of_complete b t i v lt h =
    let q = div_unique (t - b.span.start) b.bin_duration i (ground arith) (ground arith) in
    ground arith

-- Where the bins tile the binned span, an index is that of a timestamp exactly when there is a bin of this
-- index and it holds the timestamp.
pub index_of_iff :
    (b : BinnedSpan) (t i : ℕ)
    → IsTiled b
    → (index_of b t ≡ some i)
      ↔ ((s : SpanNanoSec) × (bin b i ≡ returns (some s)) × (contains_timestamp s t ≡ true))
index_of_iff b t i v = (
  λ h.
      let (lt, inside) = index_of_sound b t i v h in
      let at = bin-eq-bin_at b i v in (bin_at b i, ground arith, inside),
  λ (s, e, inside).
      let at = bin-eq-bin_at b i v in
      let lt : i < b.num_bins = ground arith in
      let here : bin_at b i ≡ s = ground arith in index_of_complete b t i v lt (rw here inside),
)

-- Where the bins tile the binned span, a timestamp has no index exactly when it lies outside the span.
pub index_of-eq-none :
    (b : BinnedSpan) (t : ℕ)
    → IsTiled b
    → (index_of b t ≡ none) ↔ (contains_timestamp b.span t ≡ false)
unfolding index_of contains_timestamp
index_of-eq-none b t v =
    let filled = v.filled in
    let below = div-lt (t - b.span.start) b.bin_duration b.num_bins v.some_duration in
    let above = le-div (t - b.span.start) b.bin_duration b.num_bins v.some_duration in
    (λ h. ground (arith, below), λ h. ground (arith, above))
