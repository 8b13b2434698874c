-- ===== src/Nvtx/Stats/Totals.antt =====
-- What the numbers of a group are, overflow included.
use quent.Base.{
  ℕ, ◌+◌, min, max, ◌≡◌, refl, sym, ap, ◌∙◌, Bool, Option, none, some, List, [], ◌∷◌, arith, ltb,
  nat_eq, pair_eq, option_eq, list_eq, length, u64_max,
}
use quent.Nvtx.Span.{NvtxSpan, duration}
use quent.Nvtx.Stats.{RangeStats, no_stats, accumulate, observe_duration, finish}
use quent.Nvtx.Stats.{StatsKey, range_statistics_where}
use quent.Base.Assoc.{lookup}
use quent.Nvtx.Stats.Groups.{
  accumulate_all, members, group_stats, finished, lookup-range_statistics_where,
}

abbrev with_duration : Option ℕ → List ℕ → List ℕ
with_duration none ds = ds
with_duration (some d) ds = d ∷ ds

-- The durations of the spans that are closed.
abbrev durations : List NvtxSpan → List ℕ
durations [] = []
durations (span ∷ spans) = with_duration (duration span) (durations spans)

abbrev sum : List ℕ → ℕ
sum [] = 0
sum (n ∷ ns) = n + sum ns

abbrev least : ℕ → List ℕ → ℕ
least n [] = n
least n (m ∷ ms) = least (min n m) ms

abbrev most : ℕ → List ℕ → ℕ
most n [] = n
most n (m ∷ ms) = most (max n m) ms

-- What the statistics are after some spans of that many durations and that sum.
record Holds (s : RangeStats) (n k total : ℕ) : Type 0 where
  counted : s.count ≡ n
  observed : s.observed_count ≡ k
  totalled : s.total_duration ≡ min u64_max total
  overflowed : s.saturated ≡ ltb u64_max total

length-with_duration :
    (o : Option ℕ) (ds : List ℕ)
    → length (with_duration o ds) ≡ length (with_duration o []) + length ds
length-with_duration none ds = omega arith
length-with_duration (some d) ds = omega arith

sum-with_duration :
    (o : Option ℕ) (ds : List ℕ) → sum (with_duration o ds) ≡ sum (with_duration o []) + sum ds
sum-with_duration none ds = omega arith
sum-with_duration (some d) ds = omega arith

observe_duration-Holds :
    (s : RangeStats) (o : Option ℕ) (n k total : ℕ)
    → Holds s n k total
    → Holds
        (observe_duration s o)
        n
        (k + length (with_duration o []))
        (total + sum (with_duration o []))
observe_duration-Holds s none n k total h = record {
  counted = h.counted;
  observed = h.observed ∙ omega arith;
  totalled = h.totalled ∙ ap (min u64_max) (omega arith);
  overflowed = h.overflowed ∙ ap (ltb u64_max) (omega arith);
}
observe_duration-Holds s (some d) n k total h = record {
  counted = ground (arith, h.counted);
  observed = ground (arith, h.observed);
  totalled = ground (arith, h.totalled);
  overflowed = ground (arith, h.totalled, h.overflowed);
}

accumulate-Holds :
    (s : RangeStats) (span : NvtxSpan) (n k total : ℕ)
    → Holds s n k total
    → Holds
        (accumulate s span)
        (n + 1)
        (k + length (durations (span ∷ [])))
        (total + sum (durations (span ∷ [])))
unfolding accumulate
accumulate-Holds s span n k total h =
    observe_duration-Holds (record s { count = s.count + 1 }) (duration span) (n + 1) k total
      (record {
        counted = ap (λ c. c + 1) h.counted;
        observed = h.observed;
        totalled = h.totalled;
        overflowed = h.overflowed;
      })

accumulate_all-Holds :
    (s : RangeStats) (spans : List NvtxSpan) (n k total : ℕ)
    → Holds s n k total
    → Holds
        (accumulate_all s spans)
        (n + length spans)
        (k + length (durations spans))
        (total + sum (durations spans))
accumulate_all-Holds s [] n k total h = record {
  counted = h.counted ∙ omega arith;
  observed = h.observed ∙ omega arith;
  totalled = h.totalled ∙ ap (min u64_max) (omega arith);
  overflowed = h.overflowed ∙ ap (ltb u64_max) (omega arith);
}
accumulate_all-Holds s (span ∷ spans) n k total h =
    let rest =
      accumulate_all-Holds (accumulate s span) spans (n + 1) (k + length (durations (span ∷ [])))
        (total + sum (durations (span ∷ []))) (accumulate-Holds s span n k total h) in
    let more : length (durations (span ∷ spans))
        ≡ length (durations (span ∷ [])) + length (durations spans) =
      length-with_duration (duration span) (durations spans) in
    let larger : sum (durations (span ∷ spans))
        ≡ sum (durations (span ∷ [])) + sum (durations spans) =
      sum-with_duration (duration span) (durations spans) in
    record {
      counted = omega (arith, rest.counted);
      observed = omega (arith, rest.observed, more);
      totalled = rest.totalled ∙ ap (min u64_max) (omega (arith, larger));
      overflowed = rest.overflowed ∙ ap (ltb u64_max) (omega (arith, larger));
    }

finished_totals :
    (group : List NvtxSpan) (s : RangeStats)
    → finished (group_stats none group) ≡ some s
    → (s.count ≡ length group)
      × (s.observed_count ≡ length (durations group))
      × (s.total_duration ≡ min u64_max (sum (durations group)))
      × (s.saturated ≡ ltb u64_max (sum (durations group)))
unfolding finish
finished_totals [] s found = cc
finished_totals (span ∷ spans) s found =
    let h =
      accumulate_all-Holds no_stats (span ∷ spans) 0 0 0
        (record { counted = refl; observed = refl; totalled = refl; overflowed = refl }) in
    let same : finish (accumulate_all no_stats (span ∷ spans)) ≡ s = ground (arith, found) in
    rw (← same) (
      h.counted ∙ omega arith,
      h.observed ∙ omega arith,
      h.totalled ∙ ap (min u64_max) (omega arith),
      h.overflowed ∙ ap (ltb u64_max) (omega arith),
    )

-- The entry of a group that `range_statistics_where` returns counts the kept range spans of the group, and
-- those that are closed; its total is the sum of their durations, held at the largest number, and it is
-- marked as saturated just where the sum is larger than that.
pub range_statistics_totals :
    (spans : List NvtxSpan) (kept : NvtxSpan → Bool) (key : StatsKey) (s : RangeStats)
    → lookup key (range_statistics_where spans kept) ≡ some s
    → let group = members key kept spans in
      (s.count ≡ length group)
      × (s.observed_count ≡ length (durations group))
      × (s.total_duration ≡ min u64_max (sum (durations group)))
      × (s.saturated ≡ ltb u64_max (sum (durations group)))
range_statistics_totals spans kept key s found =
    finished_totals (members key kept spans) s
      (sym (lookup-range_statistics_where spans kept key) ∙ found)
