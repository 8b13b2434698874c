-- ===== src/Time/Clock.antt =====
-- crates/time/src/lib.rs: `timestamp`, without the override that only tests compile in, and the
-- conversions to seconds. The clocks are what each call reads; `f64` is a parameter.
use quent.Base.{
  ℕ, ◌-◌, ◌%◌, ◌≤◌, ◌<◌, ◌≡◌, inl, inr, Option, none, some, arith, leb, if◌then◌else◌, Option-cases,
  nat_eq, pair_eq, option_eq, list_eq, saturating_add, Outcome, returns, panics, ◌>>=◌,
}

-- What a call reads: the monotonic clock when it initialises the epoch and when it asks for the
-- elapsed time, in nanoseconds, and the system clock, `none` if it stands before the Unix epoch.
pub record Reading : Type 0 where
  pub instant : ℕ
  pub now : ℕ
  pub system : Option ℕ

-- The contents of the static cell `EPOCH`.
pub record Epoch : Type 0 where
  pub instant : ℕ
  pub unix_ns : ℕ

-- `as u64` of a `u128`.
abbrev as_u64 : ℕ → ℕ
as_u64 n = n % 18446744073709551616

abbrev init_epoch : Reading → Option ℕ → Outcome Epoch
init_epoch r none = panics
init_epoch r (some system) = returns (record { instant = r.instant; unix_ns = as_u64 system })

abbrev get_or_init : Option Epoch → Reading → Outcome Epoch
get_or_init none r = init_epoch r r.system
get_or_init (some e) r = returns e

unfoldable pub since : Epoch → ℕ → ℕ
since e now = saturating_add e.unix_ns (as_u64 (now - e.instant))

unfoldable pub timestamp : Option Epoch → Reading → Outcome (ℕ × Option Epoch)
unfolding since
timestamp cell r = do e ← get_or_init cell r; returns (since e r.now, some e)

since_mono : (e : Epoch) (a b : ℕ) → a ≤ b → b < 18446744073709551616 → since e a ≤ since e b
unfolding since
since_mono e a b le lt = ground arith

timestamp-eq :
    (cell after : Option Epoch) (r : Reading) (t : ℕ)
    → timestamp cell r ≡ returns (t, after)
    → (e : Epoch) × (after ≡ some e) × (t ≡ since e r.now)
unfolding timestamp
timestamp-eq (some e) after r t h = (e, unfold since in ground arith, unfold since in ground arith)
timestamp-eq none after r t h = elim (Option-cases r.system) [
  | inl no_system ↦ absurd (let k = rw no_system at h in cc)
  | inr (system, e) ↦
      let k = rw e at h in
      (
        record { instant = r.instant; unix_ns = as_u64 system },
        unfold since in ground arith,
        unfold since in ground arith,
      )
]

-- Two calls in a row, the first of which may be the one that fixes the epoch.
pub record IsLater (cell : Option Epoch) (r s : Reading) : Type 0 where
  pub now : r.now ≤ s.now
  pub near : s.now < 18446744073709551616

-- Of two calls in a row that return, the second returns no less than the first, whatever the system clock
-- reads at the second, if the monotonic clock does not run back and stays within the range of `u64`.
pub timestamp_mono :
    (cell after_first after_second : Option Epoch) (r s : Reading) (first second : ℕ)
    → IsLater cell r s
    → timestamp cell r ≡ returns (first, after_first)
    → timestamp after_first s ≡ returns (second, after_second)
    → first ≤ second
unfolding timestamp
timestamp_mono cell after_first after_second r s first second l h k =
    let (e, fixed, at_first) = timestamp-eq cell after_first r first h in
    let k' = rw fixed at k in
    let at_second : second ≡ since e s.now = ground arith in
    let mono = since_mono e r.now s.now l.now l.near in rw (at_first, at_second) mono

module _ {ℓ} {Secs : Type ℓ} (scale : ℕ → Secs) (negate : Secs → Secs) where
  -- `to_secs` is the multiplication by `1e-9`, which is a parameter.
  unfoldable pub to_secs_relative : ℕ → ℕ → Secs
  to_secs_relative timestamp epoch =
      if leb epoch timestamp then scale (timestamp - epoch) else negate (scale (epoch - timestamp))
