-- ===== src/Analyzer/Utilization/Extends.antt =====
-- Pushing usages one after the other.
use quent.Base.{
  ℕ, ◌≡◌, refl, ◌∙◌, inl, inr, Bool, true, false, ◌&&◌, ◌||◌, Option, none, some, List, [], ◌∷◌,
  arith, ltb, eqb, if◌then◌else◌, Bool-cases, Eq, nat_eq, pair_eq, option_eq, list_eq, returns,
}
use quent.Base.Assoc.{Assoc}
use quent.Base.Set.{member, set_insert, member-set_insert}
use quent.Base.Text.{Text}
use quent.Time.Span.{duration, intersects}
use quent.Time.Bin.{BinnedSpan, IsTiled}
use quent.Analyzer.Float.{Float, HasFractions}
use quent.Analyzer.Resource.{AnalyzerError, ResourceTypeDecl, Usage}
use quent.Analyzer.Timeline.{UnitAggregator}
use quent.Analyzer.Utilization.{
  ResourceTimelineBuilder, exceeds, push_capacities, note_long, try_push, try_extend, try_new,
}
use quent.Analyzer.Utilization.Reports.{
  is_none, all_declared, with_bins, Good, push_capacities-reports,
}

-- Whether a usage makes its entity a long one.
abbrev pub is_long : BinnedSpan → Option ℕ → Usage → Bool
is_long config threshold usage =
    exceeds threshold (duration usage.span) && intersects usage.span config.span

module _ {Key : Type 0} where
  abbrev pub usages_declared : ResourceTypeDecl → List ((Text → Key) × Usage) → Bool
  usages_declared t [] = true
  usages_declared t ((key_of, usage) ∷ items) =
      all_declared t usage.capacities && usages_declared t items

  abbrev pub has_long : BinnedSpan → Option ℕ → ℕ → List ((Text → Key) × Usage) → Bool
  has_long config threshold id [] = false
  has_long config threshold id ((key_of, usage) ∷ items) =
      (is_long config threshold usage && eqb usage.entity_id id)
      || has_long config threshold id items

module _ (config : BinnedSpan) (threshold : Option ℕ) where
  abbrev noted : Usage → List ℕ → List ℕ
  noted usage l = if is_long config threshold usage then set_insert ltb usage.entity_id l else l

  member-noted :
      (usage : Usage) (l : List ℕ) (id : ℕ)
      → member id (noted usage l)
        ≡ ((is_long config threshold usage && eqb usage.entity_id id) || member id l)
  member-noted usage l id = elim (Bool-cases (is_long config threshold usage)) [
    | inl t ↦ rw t (member-set_insert ltb id usage.entity_id l)
    | inr n ↦ rw n refl
  ]

or_false : (b : Bool) → (b || false) ≡ b
or_false true = refl
or_false false = refl

module _ {Key F : Type 0} (f : Float F) ⦃keys : Eq Key⦄ (laws : HasFractions f)
    (config : BinnedSpan) (v : IsTiled config) (t : ResourceTypeDecl) (threshold : Option ℕ) where
  abbrev builder : Assoc Key (UnitAggregator F) → List ℕ → ResourceTimelineBuilder Key F
  builder m l = record {
    resource_type = t;
    aggregator = with_bins f laws config v m;
    long_entities = l;
    long_entities_threshold = threshold;
  }

  note_long-noted :
      (m : Assoc Key (UnitAggregator F)) (l : List ℕ) (usage : Usage)
      → note_long f (builder m l) usage ≡ builder m (noted config threshold usage l)
  unfolding note_long
  note_long-noted m l usage = elim (Bool-cases (is_long config threshold usage)) [
    | inl y ↦ rw y refl
    | inr n ↦ rw n refl
  ]

  abbrev ExtendReport : Assoc Key (UnitAggregator F) → List ℕ → List ((Text → Key) × Usage) → Type 0
  ExtendReport m l items =
      (after : ResourceTimelineBuilder Key F) × (e : Option AnalyzerError) × (try_extend f
          (builder m l) items
        ≡ returns (after, e))
      × (is_none e ≡ usages_declared t items)
      × (is_none e ≡ true
          → (id : ℕ)
          → member id after.long_entities ≡ (has_long config threshold id items || member id l))

  try_extend-next :
      (m : Assoc Key (UnitAggregator F)) (l : List ℕ) (key_of : Text → Key) (usage : Usage)
      (items : List ((Text → Key) × Usage)) (first : Assoc Key (UnitAggregator F))
      (e : Option AnalyzerError)
      → push_capacities f t (with_bins f laws config v m) key_of usage.span usage.capacities
        ≡ returns (with_bins f laws config v first, e)
      → is_none e ≡ all_declared t usage.capacities
      → ExtendReport first (noted config threshold usage l) items
      → ExtendReport m l ((key_of, usage) ∷ items)
  unfolding try_extend try_push
  try_extend-next m l key_of usage items first (some e) done told rest =
      (builder first l, some e, rw done refl, rw (← told) refl, λ ok. absurd (ground (arith, ok)))
  try_extend-next m l key_of usage items first none done told (after, e, pushed, said, longs) = (
    after,
    e,
    rw (done, note_long-noted first l usage) pushed,
    rw (← told) said,
    λ ok id. longs ok id ∙ ground (arith, member-noted config threshold usage l id),
  )

  try_extend-reports :
      (m : Assoc Key (UnitAggregator F)) (l : List ℕ) (items : List ((Text → Key) × Usage))
      → Good f laws config v m
      → ExtendReport m l items
  unfolding try_extend
  try_extend-reports m l [] h = (builder m l, none, refl, refl, λ ok id. refl)
  try_extend-reports m l ((key_of, usage) ∷ items) h =
      let (first, e, done, good, told) =
        push_capacities-reports f laws config v t key_of usage.span m usage.capacities h in
      try_extend-next m l key_of usage items first e done told
        (try_extend-reports first (noted config threshold usage l) items good)

-- Where the bins tile the configuration and fractions are rounded into their bounds, pushing usages to a
-- new builder never panics. It succeeds just where each capacity that a usage has a value for is
-- declared; then an entity is listed as long just where one of its usages is longer than the threshold
-- and intersects the configuration.
pub try_extend-try_new :
    {Key F : Type 0} (f : Float F) ⦃keys : Eq Key⦄ (t : ResourceTypeDecl) (config : BinnedSpan)
    (threshold : Option ℕ) (items : List ((Text → Key) × Usage))
    → HasFractions f
    → IsTiled config
    → (after : ResourceTimelineBuilder Key F) × (e : Option AnalyzerError) × (try_extend f
          (try_new t config threshold)
          items
        ≡ returns (after, e))
      × (is_none e ≡ usages_declared t items)
      × (is_none e ≡ true
          → (id : ℕ) → member id after.long_entities ≡ has_long config threshold id items)
unfolding try_new member
try_extend-try_new f t config threshold items laws v =
    let (after, e, done, told, longs) =
      try_extend-reports f laws config v t threshold [] [] items tt in
    (after, e, done, told, λ ok id. longs ok id ∙ or_false (has_long config threshold id items))
