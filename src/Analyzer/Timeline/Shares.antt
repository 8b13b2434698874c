-- ===== src/Analyzer/Timeline/Shares.antt =====
-- What a push adds to each bin.
use quent.Base.{
  ℕ, zero, suc, ◌+◌, ◌-◌, ◌≤◌, ◌<◌, ◌≡◌, refl, ap, ◌∙◌, inl, inr, Bool, true, false, ◌&&◌, Option,
  none, some, List, [], ◌∷◌, arith, ltb, leb, eqb, eqb_iff, if◌then◌else◌, Bool-cases, Option-cases,
  nat_eq, pair_eq, option_eq, list_eq, length, get_elem?, lt-length_of_get_elem?, returns,
}
use quent.Time.Span.{SpanNanoSec, duration, intersects, intersection}
use quent.Time.Bin.{BinnedSpan, IsTiled, iter_indices}
use quent.Time.Bin.Tiles.{bin_at}
use quent.Time.Bin.Ranges.{InRange, iter_indices_iff}
use quent.Time.Bin.Durations.{overlap, overlaps, durations-eq-overlaps}
use quent.Analyzer.Float.{Float, HasFractions}
use quent.Analyzer.Timeline.{UnitAggregator, add_at, push_part, push_parts, push_unit}

overlap-le :
    (b : BinnedSpan) (span : SpanNanoSec) (i : ℕ) → IsTiled b → overlap b span i ≤ b.bin_duration
unfolding overlap intersection duration
overlap-le b span i v = ground arith

-- One bin for each of the configuration.
abbrev pub IsSized {ℓ} : {F : Type ℓ} → UnitAggregator F → Type 0
IsSized a = length a.bins ≡ a.config.num_bins

abbrev pub map_option {ℓ} : {A : Type ℓ} → (A → A) → Option A → Option A
map_option g none = none
map_option g (some x) = some (g x)

module _ {ℓ} {A : Type ℓ} where
  if-same : (b : Bool) (o : Option A) → (if b then o else o) ≡ o
  if-same true o = refl
  if-same false o = refl

  if-some : (b : Bool) (x y : A) → (if b then some x else some y) ≡ some (if b then x else y)
  if-some true x y = refl
  if-some false x y = refl

if-map_option {ℓ} :
    {A : Type ℓ} (c d : Bool) (g : A → A) (ys : List A) (i : ℕ)
    → (i < length ys → c ≡ d)
    → (if c then map_option g (get_elem? ys i) else get_elem? ys i)
      ≡ map_option (λ x. if d then g x else x) (get_elem? ys i)
if-map_option {A} c d g ys i same = elim (Option-cases (get_elem? ys i)) [
  | inl out ↦ rw out (if-same c none)
  | inr (x, inside) ↦ rw (inside, same (lt-length_of_get_elem? ys i x inside)) (if-some d (g x) x)
]

in_range :
    (b : BinnedSpan) (span : SpanNanoSec) (i : ℕ)
    → IsTiled b
    → span.start < span.end
    → i < b.num_bins
    → (leb (iter_indices b span).start i
        && ltb i (
            (iter_indices b span).start
            + ((iter_indices b span).end - (iter_indices b span).start)))
      ≡ (ltb span.start span.end && intersects (bin_at b i) span)
in_range b span i v lt inside =
    let iff = iter_indices_iff b span i v lt in
    elim (Bool-cases (intersects (bin_at b i) span)) [
      | inl meets ↦ rw meets (ground (arith, iff.1 (inside, meets)))
      | inr misses ↦
          let out : ¬ InRange i (iter_indices b span) =
            λ r. let meets = (iff.0 r).1 in absurd (ground (arith, meets, misses)) in
          rw misses (ground (arith, out))
    ]

module _ {ℓ} {F : Type ℓ} (f : Float F) where
  -- The value of an item in a bin: its part by the overlap.
  abbrev pub share : BinnedSpan → SpanNanoSec → F → ℕ → F
  share b span item i =
      f.times (f.over (f.from_u64 (overlap b span i)) (f.from_u64 b.bin_duration)) item

  -- A bin after a push.
  abbrev pub pushed : BinnedSpan → SpanNanoSec → F → ℕ → F → F
  pushed b span item i x =
      if ltb span.start span.end && intersects (bin_at b i) span
      then f.plus x (share b span item i)
      else x

  abbrev bump : List F → ℕ → F → List F
  bump [] i x = []
  bump (y ∷ ys) zero x = f.plus y x ∷ ys
  bump (y ∷ ys) (suc i) x = y ∷ bump ys i x

  add_at-bump :
      (ys : List F) (i : ℕ) (x : F) → i < length ys → add_at f ys i x ≡ returns (bump ys i x)
  unfolding add_at
  add_at-bump [] i x h = absurd (omega arith)
  add_at-bump (y ∷ ys) zero x h = refl
  add_at-bump (y ∷ ys) (suc i) x h = rw (add_at-bump ys i x (omega arith)) refl

  length-bump : (ys : List F) (i : ℕ) (x : F) → length (bump ys i x) ≡ length ys
  length-bump [] i x = refl
  length-bump (y ∷ ys) zero x = refl
  length-bump (y ∷ ys) (suc i) x = ap suc (length-bump ys i x)

  get_elem?-bump :
      (ys : List F) (i j : ℕ) (x : F)
      → get_elem? (bump ys i x) j
        ≡ (if eqb i j then map_option (λ y. f.plus y x) (get_elem? ys j) else get_elem? ys j)
  get_elem?-bump [] i j x = ground arith
  get_elem?-bump (y ∷ ys) zero zero x = refl
  get_elem?-bump (y ∷ ys) zero (suc j) x = ground arith
  get_elem?-bump (y ∷ ys) (suc i) zero x = ground arith
  get_elem?-bump (y ∷ ys) (suc i) (suc j) x = ground (arith, get_elem?-bump ys i j x)

  module _ (b : BinnedSpan) (span : SpanNanoSec) (item : F) where
    abbrev raised : List F → ℕ → ℕ → List F
    raised ys zero from = ys
    raised ys (suc n) from = raised (bump ys from (share b span item from)) n (from + 1)

    length-raised : (ys : List F) (n from : ℕ) → length (raised ys n from) ≡ length ys
    length-raised ys zero from = refl
    length-raised ys (suc n) from =
        length-raised (bump ys from (share b span item from)) n (from + 1)
        ∙ length-bump ys from (share b span item from)

    get_elem?-raised :
        (ys : List F) (n from i : ℕ)
        → get_elem? (raised ys n from) i ≡ (
            if leb from i && ltb i (from + n)
            then map_option (λ y. f.plus y (share b span item i)) (get_elem? ys i)
            else get_elem? ys i)
    get_elem?-raised ys zero from i = ground arith
    get_elem?-raised ys (suc n) from i =
        let rest = get_elem?-raised (bump ys from (share b span item from)) n (from + 1) i in
        let first = get_elem?-bump ys from i (share b span item from) in
        elim (Bool-cases (eqb from i)) [
          | inl t ↦
              let here : from ≡ i = (eqb_iff from i).0 t in
              let past : (leb (i + 1) i && ltb i (i + 1 + n)) ≡ false = ground arith in
              let inside : (leb i i && ltb i (i + suc n)) ≡ true = ground arith in
              let itself : eqb i i ≡ true = ground arith in
              rw (here, inside) (rw (here, past) at rest ∙ rw (here, itself) at first)
          | inr e ↦
              let same_range : (leb (from + 1) i && ltb i (from + 1 + n))
                  ≡ (leb from i && ltb i (from + suc n)) =
                ground (arith, e) in
              rw (← same_range) (rw (rw e at first) at rest)
        ]

    push_parts-raised :
        HasFractions f
        → IsTiled b
        → (ys : List F) (n from : ℕ) → (0 < n → from + n ≤ length ys)
        → push_parts f b ys item (overlaps b span n from) ≡ returns (raised ys n from)
    unfolding push_parts push_part overlaps
    push_parts-raised laws v ys zero from h = refl
    push_parts-raised laws v ys (suc n) from h =
        let le = overlap-le b span from v in
        let lower = laws.from_nought (overlap b span from) b.bin_duration le v.some_duration in
        let upper = laws.to_one (overlap b span from) b.bin_duration le v.some_duration in
        let value = share b span item from in
        rw (lower, upper, add_at-bump ys from value (omega (arith, h (omega arith))))
          (push_parts-raised laws v (bump ys from value) n (from + 1)
            (λ _. omega (arith, h (omega arith), length-bump ys from value)))

  -- Where the bins tile the configuration, there is one for each of it and fractions are rounded into
  -- their bounds, a push never panics: it keeps the configuration and the number of bins, and adds to a
  -- bin the item times the part of the bin that lies in the span, if the span has a duration and
  -- intersects the bin, and else nothing.
  pub push_unit-adds :
      HasFractions f
      → (a : UnitAggregator F) (span : SpanNanoSec) (item : F) → IsTiled a.config
      → IsSized a
      → (after : UnitAggregator F) × (push_unit f a span item ≡ returns after)
        × (after.config ≡ a.config)
        × IsSized after
        × ((i : ℕ)
            → get_elem? after.bins i
              ≡ map_option (pushed a.config span item i) (get_elem? a.bins i))
  unfolding push_unit duration
  push_unit-adds laws a span item v sized = elim (Bool-cases (ltb span.start span.end)) [
    | inl some_duration ↦
        let b = a.config in
        let r = iter_indices b span in
        let n = r.end - r.start in
        let lt : span.start < span.end = ground arith in
        let room : 0 < n → r.start + n ≤ length a.bins = λ some_room.
          let last = (iter_indices_iff b span (r.end - 1) v lt).0 (omega arith, omega arith) in
          omega (arith, last.0, sized) in
        let parts = durations-eq-overlaps b span v lt in
        let after = record a { bins = raised b span item a.bins n r.start } in
        let not_empty : eqb (span.end - span.start) 0 ≡ false = ground arith in
        (
          after,
          rw (not_empty, parts, push_parts-raised b span item laws v a.bins n r.start room) refl,
          refl,
          length-raised b span item a.bins n r.start ∙ sized,
          λ i.
              get_elem?-raised b span item a.bins n r.start i
              ∙ if-map_option (leb r.start i && ltb i (r.start + n))
                  (ltb span.start span.end && intersects (bin_at b i) span)
                  (λ x. f.plus x (share b span item i)) a.bins i
                  (λ inside. in_range b span i v lt (omega (arith, sized))),
        )
    | inr empty ↦
        let no_duration : eqb (span.end - span.start) 0 ≡ true = ground arith in
        (
          a,
          rw no_duration refl,
          refl,
          sized,
          λ i.
              if-map_option false (ltb span.start span.end && intersects (bin_at a.config i) span)
                (λ x. f.plus x (share a.config span item i)) a.bins i (λ _. rw empty refl),
        )
  ]
