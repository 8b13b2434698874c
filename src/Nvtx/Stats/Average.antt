-- ===== src/Nvtx/Stats/Average.antt =====
-- The average of a group lies between its shortest and its longest duration.
use quent.Base.{
  ℕ, ◌+◌, ◌*◌, ◌/◌, ◌≤◌, ◌<◌, min, max, ◌≡◌, sym, ap, ◌∙◌, inl, inr, Bool, false, Option, none,
  some, List, [], ◌∷◌, arith, leb, eqb, eqb_iff, Bool-cases, nat_eq, pair_eq, option_eq, list_eq,
  u64_max, checked_add,
}
use quent.Base.Assoc.{lookup}
use quent.Nvtx.Span.{NvtxSpan, duration}
use quent.Nvtx.Stats.{
  add_duration, RangeStats, no_stats, accumulate, observe_duration, finish, StatsKey,
  range_statistics_where,
}
use quent.Nvtx.Stats.Groups.{
  accumulate_all, members, group_stats, finished, lookup-range_statistics_where,
}

-- The total lies between so many times the shortest and the longest duration; from when it is
-- saturated on, it is the largest number.
record Within (s : RangeStats) : Type 0 where
  above : s.saturated ≡ false → s.min_duration * s.observed_count ≤ s.total_duration
  below : s.total_duration ≤ s.max_duration * s.observed_count

mul_mono : (a b k : ℕ) → a ≤ b → a * k ≤ b * k
mul_mono a b k h = grind arith

min_mul : (a d k t : ℕ) → a * k ≤ t → min a d * (k + 1) ≤ t + d
min_mul a d k t h = omega (arith, mul_mono (min a d) a k (omega arith))

max_mul : (a d k t : ℕ) → t ≤ a * k → t + d ≤ max a d * (k + 1)
max_mul a d k t h = omega (arith, mul_mono a (max a d) k (omega arith))

add_duration-Within :
    (s : RangeStats) (d : ℕ)
    → (s.saturated ≡ false → s.min_duration * s.observed_count ≤ s.total_duration + d)
    → s.total_duration + d ≤ s.max_duration * s.observed_count
    → Within (add_duration s (checked_add s.total_duration d))
add_duration-Within s d lo hi = elim (Bool-cases (leb (s.total_duration + d) u64_max)) [
  | inl t ↦ rw t (record { above = lo; below = hi })
  | inr f ↦ rw f (record { above = λ h. absurd (ground (arith, h)); below = ground (arith, f) })
]

observe_duration-Within : (s : RangeStats) (o : Option ℕ) → Within s → Within (observe_duration s o)
observe_duration-Within s none w = w
observe_duration-Within s (some d) w = elim (Bool-cases (eqb s.observed_count 0)) [
  | inl t ↦
      let first : s.observed_count ≡ 0 = (eqb_iff s.observed_count 0).0 t in
      let none_yet : s.total_duration ≡ 0 =
        omega (arith, w.below, ap (λ n. s.max_duration * n) first) in
      rw t (
        add_duration-Within
          (record s { min_duration = d; max_duration = d; observed_count = s.observed_count + 1 }) d
          (λ _. omega (arith, none_yet, ap (λ n. d * n) first))
          (omega (arith, none_yet, ap (λ n. d * n) first)))
  | inr f ↦ rw f (
      add_duration-Within
        (record s {
          min_duration = min s.min_duration d;
          max_duration = max s.max_duration d;
          observed_count = s.observed_count + 1;
        })
        d (λ h. min_mul s.min_duration d s.observed_count s.total_duration (w.above h))
        (max_mul s.max_duration d s.observed_count s.total_duration w.below))
]

accumulate_all-Within :
    (s : RangeStats) (spans : List NvtxSpan) → Within s → Within (accumulate_all s spans)
unfolding accumulate
accumulate_all-Within s [] w = w
accumulate_all-Within s (span ∷ spans) w = accumulate_all-Within (accumulate s span) spans (
    observe_duration-Within (record s { count = s.count + 1 }) (duration span)
      (record { above = w.above; below = w.below }))

quotient_within : (lo hi t k : ℕ) → 0 < k → lo * k ≤ t → t ≤ hi * k → (lo ≤ t / k) × (t / k ≤ hi)
quotient_within lo hi t k pos above below = (grind arith, grind arith)

average-Within :
    (all s : RangeStats)
    → finish all ≡ s
    → Within all
    → 0 < s.observed_count
    → s.saturated ≡ false
    → (s.min_duration ≤ s.avg_duration) × (s.avg_duration ≤ s.max_duration)
unfolding finish
average-Within all s same w = rw (← same) (λ some_closed exact.
    let not_zero : eqb all.observed_count 0 ≡ false = ground (arith, some_closed) in
    rw not_zero (
      quotient_within all.min_duration all.max_duration all.total_duration all.observed_count
        some_closed (w.above exact) w.below))

finished_average :
    (group : List NvtxSpan) (s : RangeStats)
    → finished (group_stats none group) ≡ some s
    → 0 < s.observed_count
    → s.saturated ≡ false
    → (s.min_duration ≤ s.avg_duration) × (s.avg_duration ≤ s.max_duration)
unfolding finish
finished_average [] s found some_closed exact = cc
finished_average (span ∷ spans) s found some_closed exact =
    let all = accumulate_all no_stats (span ∷ spans) in
    let w =
      accumulate_all-Within no_stats (span ∷ spans)
        (record { above = λ _. omega arith; below = omega arith }) in
    let same : finish all ≡ s = ground (arith, found) in
    average-Within all s same w some_closed exact

-- In an entry that `range_statistics_where` returns, where some span of the group is closed and the total
-- is not saturated, the average lies between the shortest and the longest duration.
pub avg_duration_between :
    (spans : List NvtxSpan) (kept : NvtxSpan → Bool) (key : StatsKey) (s : RangeStats)
    → lookup key (range_statistics_where spans kept) ≡ some s
    → 0 < s.observed_count
    → s.saturated ≡ false
    → (s.min_duration ≤ s.avg_duration) × (s.avg_duration ≤ s.max_duration)
avg_duration_between spans kept key s found =
    finished_average (members key kept spans) s
      (sym (lookup-range_statistics_where spans kept key) ∙ found)
