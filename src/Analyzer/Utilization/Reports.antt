-- ===== src/Analyzer/Utilization/Reports.antt =====
-- What pushing usages reports: the error for a capacity that is not declared, and the long entities.
use quent.Base.{
  ℕ, ◌≡◌, refl, ◌∙◌, ◌⊎◌, inl, inr, Bool, true, false, not, ◌&&◌, ◌||◌, Option, none, some, List,
  [], ◌∷◌, Eq, nat_eq, pair_eq, option_eq, list_eq, or_else, returns,
}
use quent.Base.Assoc.{Assoc, AllEntries}
use quent.Base.Text.{Text}
use quent.Time.Span.{SpanNanoSec}
use quent.Time.Bin.{BinnedSpan, IsTiled}
use quent.Analyzer.Float.{Float, HasFractions}
use quent.Analyzer.Resource.{
  reinterpret_capacity_value, AnalyzerError, CapacityDecl, CapacityValue, ResourceTypeDecl,
  capacity, try_capacity, ok_or,
}
use quent.Analyzer.Timeline.{UnitAggregator, KeyedAggregator}
use quent.Analyzer.Timeline.Keys.{Fits, push_keyed-Fits}
use quent.Analyzer.Utilization.{
  convert_by, convert_capacity, push_converted, push_valued, push_capacities,
}

abbrev pub is_none {ℓ} : {A : Type ℓ} → Option A → Bool
is_none none = true
is_none (some a) = false

-- Whether each capacity that has a value is one of the resource type.
abbrev pub all_declared : ResourceTypeDecl → List CapacityValue → Bool
all_declared t [] = true
all_declared t (c ∷ cs) =
    (is_none c.value || not (is_none (capacity t c.name))) && all_declared t cs

abbrev is_ok : CapacityDecl ⊎ AnalyzerError → Bool
is_ok (inl d) = true
is_ok (inr e) = false

is_ok-ok_or : (o : Option CapacityDecl) (e : AnalyzerError) → is_ok (ok_or o e) ≡ not (is_none o)
is_ok-ok_or none e = refl
is_ok-ok_or (some d) e = refl

module _ {Key F : Type 0} (f : Float F) ⦃keys : Eq Key⦄ (laws : HasFractions f)
    (config : BinnedSpan) (v : IsTiled config) where
  abbrev pub with_bins : Assoc Key (UnitAggregator F) → KeyedAggregator Key F
  with_bins m = record { config = config; bins = m }

  abbrev pub Good : Assoc Key (UnitAggregator F) → Type 0
  Good m = AllEntries (Fits f config) m

  push_converted-reports :
      (m : Assoc Key (UnitAggregator F)) (span : SpanNanoSec) (key : Key) (c : CapacityValue)
      (x : CapacityDecl ⊎ AnalyzerError)
      → Good m
      → (after : Assoc Key (UnitAggregator F)) × (e : Option AnalyzerError) × (push_converted f
            (with_bins m)
            span
            key
            (convert_by f span c x)
          ≡ returns (with_bins after, e))
        × Good after
        × (is_none e ≡ is_ok x)
  push_converted-reports m span key c (inr e) h = (m, some e, refl, h, refl)
  push_converted-reports m span key c (inl d) h =
      let value = reinterpret_capacity_value f d.kind (or_else c.value 0) span in
      let (after, done, good) = push_keyed-Fits f laws config v m span key value h in
      (after, none, rw done refl, good, refl)

  push_valued-reports :
      (t : ResourceTypeDecl) (m : Assoc Key (UnitAggregator F)) (span : SpanNanoSec) (key : Key)
      (c : CapacityValue) (o : Option ℕ)
      → Good m
      → (after : Assoc Key (UnitAggregator F)) × (e : Option AnalyzerError) × (push_valued f t
            (with_bins m)
            span
            key
            c
            o
          ≡ returns (with_bins after, e))
        × Good after
        × (is_none e ≡ (is_none o || not (is_none (capacity t c.name))))
  unfolding convert_capacity try_capacity
  push_valued-reports t m span key c none h = (m, none, refl, h, refl)
  push_valued-reports t m span key c (some n) h =
      let (after, e, done, good, told) =
        push_converted-reports m span key c (try_capacity t c.name) h in
      (after, e, done, good, told ∙ is_ok-ok_or (capacity t c.name) _)

  -- What a list of capacities does to the aggregator, and whether it fails.
  abbrev pub CapacitiesReport :
      ResourceTypeDecl
      → (Text → Key)
      → SpanNanoSec
      → Assoc Key (UnitAggregator F)
      → List CapacityValue
      → Type 0
  CapacitiesReport t key_of span m cs =
      (after : Assoc Key (UnitAggregator F)) × (e : Option AnalyzerError) × (push_capacities f t
          (with_bins m) key_of span cs
        ≡ returns (with_bins after, e))
      × Good after
      × (is_none e ≡ all_declared t cs)

  push_capacities-next :
      (t : ResourceTypeDecl) (key_of : Text → Key) (span : SpanNanoSec)
      (m first : Assoc Key (UnitAggregator F)) (c : CapacityValue) (cs : List CapacityValue)
      (e : Option AnalyzerError)
      → push_valued f t (with_bins m) span (key_of c.name) c c.value ≡ returns (with_bins first, e)
      → Good first
      → is_none e ≡ (is_none c.value || not (is_none (capacity t c.name)))
      → CapacitiesReport t key_of span first cs
      → CapacitiesReport t key_of span m (c ∷ cs)
  unfolding push_capacities
  push_capacities-next t key_of span m first c cs (some e) done good told rest =
      (first, some e, rw done refl, good, rw (← told) refl)
  push_capacities-next t key_of span m first c cs none done good told (after, e, rest, kept, said) =
      (after, e, rw done rest, kept, rw (← told) said)

  pub push_capacities-reports :
      (t : ResourceTypeDecl) (key_of : Text → Key) (span : SpanNanoSec)
      (m : Assoc Key (UnitAggregator F)) (cs : List CapacityValue)
      → Good m
      → CapacitiesReport t key_of span m cs
  unfolding push_capacities
  push_capacities-reports t key_of span m [] h = (m, none, refl, h, refl)
  push_capacities-reports t key_of span m (c ∷ cs) h =
      let (first, e, done, good, told) = push_valued-reports t m span (key_of c.name) c c.value h in
      push_capacities-next t key_of span m first c cs e done good told
        (push_capacities-reports t key_of span first cs good)
