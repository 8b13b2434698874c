-- ===== src/Time/Span.antt =====
-- crates/time/src/span.rs: half-open spans of nanoseconds. `f64` seconds are a parameter.
pub mod Laws
use quent.Base.{
  ℕ, ◌-◌, ◌≤◌, min, max, Bool, ◌&&◌, Option, none, some, ltb, leb, u64_max, saturating_sub,
  if◌then◌else◌,
}
use quent.Time.Result.{Result, ok, err, invalid_argument, end_precedes_start, epoch_later_than}

pub record SpanNanoSec : Type 0 where
  pub start : ℕ
  pub end : ℕ

-- What `try_new` establishes, with the range of `u64`.
pub record IsSpan (s : SpanNanoSec) : Type 0 where
  pub ordered : s.start ≤ s.end
  pub fits : s.end ≤ u64_max

unfoldable pub try_new : ℕ → ℕ → Result SpanNanoSec
try_new start end =
    if ltb end start
    then err (invalid_argument (end_precedes_start end start))
    else ok (record { start = start; end = end })

unfoldable pub new_max : SpanNanoSec
new_max = record { start = 0; end = u64_max }

unfoldable pub intersects : SpanNanoSec → SpanNanoSec → Bool
intersects s other = ltb s.start other.end && ltb other.start s.end

unfoldable pub intersection : SpanNanoSec → SpanNanoSec → Option SpanNanoSec
intersection s other =
    let start = max s.start other.start in
    let end = min s.end other.end in
    if leb end start then none else some (record { start = start; end = end })

unfoldable pub during : SpanNanoSec → SpanNanoSec → Bool
during s other = leb other.start s.start && leb s.end other.end

unfoldable pub contains : SpanNanoSec → SpanNanoSec → Bool
contains s other = leb s.start other.start && leb other.end s.end

unfoldable pub duration : SpanNanoSec → ℕ
duration s = saturating_sub s.end s.start

unfoldable pub contains_timestamp : SpanNanoSec → ℕ → Bool
contains_timestamp s timestamp = leb s.start timestamp && ltb timestamp s.end

unfoldable pub extend : SpanNanoSec → SpanNanoSec → SpanNanoSec
extend s other = record { start = min s.start other.start; end = max s.end other.end }

pub record SpanSec {ℓ} (Secs : Type ℓ) : Type ℓ where
  pub start : Secs
  pub end : Secs

module _ {ℓ} {Secs : Type ℓ} (to_secs : ℕ → Secs) where
  unfoldable pub secs_relative : ℕ → ℕ → Result Secs
  secs_relative timestamp epoch =
      if leb epoch timestamp
      then ok (to_secs (timestamp - epoch))
      else err (invalid_argument (epoch_later_than epoch timestamp))

  abbrev pair_up : Result Secs → Result Secs → Result (SpanSec Secs)
  pair_up (ok a) (ok b) = ok (record { start = a; end = b })
  pair_up (ok a) (err e) = err e
  pair_up (err e) r = err e

  unfoldable pub try_to_secs_relative : SpanNanoSec → ℕ → Result (SpanSec Secs)
  unfolding secs_relative
  try_to_secs_relative s epoch = pair_up (secs_relative s.start epoch) (secs_relative s.end epoch)
