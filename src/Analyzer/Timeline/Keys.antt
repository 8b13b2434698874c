-- ===== src/Analyzer/Timeline/Keys.antt =====
-- A keyed aggregator is a unit aggregator for each key.
use quent.Base.{
  ℕ, zero, suc, ◌≡◌, refl, ap, ◌∙◌, inl, inr, Option, none, some, List, [], ◌∷◌, if◌then◌else◌,
  Bool-cases, Option-cases, Eq, ◌==◌, nat_eq, pair_eq, option_eq, list_eq, length, or_else, Outcome,
  returns, ◌>>=◌,
}
use quent.Base.Assoc.{
  Assoc, lookup, insert, lookup-insert, AllEntries, AllEntries-insert, lookup-AllEntries,
}
use quent.Time.Span.{SpanNanoSec}
use quent.Time.Bin.{BinnedSpan, IsTiled}
use quent.Analyzer.Float.{Float, HasFractions}
use quent.Analyzer.Timeline.{
  UnitAggregator, new_unit, push_unit, KeyedAggregator, new_keyed, push_keyed, replicate,
}
use quent.Analyzer.Timeline.Shares.{IsSized, push_unit-adds}

length-replicate {ℓ} : {A : Type ℓ} (n : ℕ) (a : A) → length (replicate n a) ≡ n
length-replicate zero a = refl
length-replicate (suc n) a = ap suc (length-replicate n a)

module _ {ℓ} {F : Type ℓ} (f : Float F) where
  -- Samples that are pushed to one unit aggregator, which the first of them makes.
  abbrev pub push_series :
      BinnedSpan
      → Option (UnitAggregator F)
      → List (SpanNanoSec × F)
      → Outcome (Option (UnitAggregator F))
  push_series config unit [] = returns unit
  push_series config unit ((span, item) ∷ samples) = do
    after ← push_unit f (or_else unit (new_unit f config)) span item
    push_series config (some after) samples

module _ {ℓ} {Key F : Type ℓ} (f : Float F) ⦃keys : Eq Key⦄ where
  -- Samples that are pushed one after the other.
  abbrev pub push_samples :
      KeyedAggregator Key F → List (Key × (SpanNanoSec × F)) → Outcome (KeyedAggregator Key F)
  push_samples a [] = returns a
  push_samples a ((key, (span, item)) ∷ samples) = do
    after ← push_keyed f a span (key, item)
    push_samples after samples

  -- The samples of a key.
  abbrev pub series : Key → List (Key × (SpanNanoSec × F)) → List (SpanNanoSec × F)
  series key [] = []
  series key ((k, sample) ∷ samples) =
      let rest = series key samples in if k == key then sample ∷ rest else rest

  abbrev pub Fits : BinnedSpan → Key → UnitAggregator F → Type 0
  Fits config key unit = (unit.config ≡ config) × IsSized unit

  entry-Fits :
      (config : BinnedSpan) (m : Assoc Key (UnitAggregator F)) (key : Key)
      → AllEntries (Fits config) m
      → Fits config key (or_else (lookup key m) (new_unit f config))
  unfolding new_unit
  entry-Fits config m key h = elim (Option-cases (lookup key m)) [
    | inl out ↦ rw out (refl, length-replicate config.num_bins f.nought)
    | inr (u, found) ↦ rw found (lookup-AllEntries (Fits config) key m h found)
  ]

  push_series-push :
      (config : BinnedSpan) (m : Assoc Key (UnitAggregator F)) (k key : Key) (span : SpanNanoSec)
      (item : F) (unit : UnitAggregator F) (samples : List (Key × (SpanNanoSec × F)))
      (end : Option (UnitAggregator F))
      → push_unit f (or_else (lookup k m) (new_unit f config)) span item ≡ returns unit
      → push_series f config (lookup key (insert k unit m)) (series key samples) ≡ returns end
      → push_series f config (lookup key m) (series key ((k, (span, item)) ∷ samples)) ≡ returns end
  push_series-push config m k key span item unit samples end done rest =
      elim (Bool-cases (k == key)) [
        | inl same ↦
            let here : k ≡ key = (keys.same_iff k key).0 same in
            let found : lookup key (insert k unit m) ≡ some unit =
              lookup-insert key k unit m ∙ rw same refl in
            let mine : push_unit f (or_else (lookup key m) (new_unit f config)) span item
                ≡ returns unit =
              rw (← here) done in
            rw (same, mine) (rw found at rest)
        | inr other ↦
            let left : lookup key (insert k unit m) ≡ lookup key m =
              lookup-insert key k unit m ∙ rw other refl in
            rw other (rw left at rest)
      ]

  module _ (laws : HasFractions f) (config : BinnedSpan) (v : IsTiled config) where
    pub push_keyed-Fits :
        (m : Assoc Key (UnitAggregator F)) (span : SpanNanoSec) (key : Key) (item : F)
        → AllEntries (Fits config) m
        → (after : Assoc Key (UnitAggregator F)) × (push_keyed f
              (record { config = config; bins = m })
              span
              (key, item)
            ≡ returns (record { config = config; bins = after }))
          × AllEntries (Fits config) after
    unfolding push_keyed
    push_keyed-Fits m span key item h =
        let entry = or_else (lookup key m) (new_unit f config) in
        let (same_config, sized) = entry-Fits config m key h in
        let (unit, done, kept, kept_size, adds) =
          push_unit-adds f laws entry span item (rw same_config v) sized in
        (
          insert key unit m,
          rw done refl,
          AllEntries-insert (Fits config) key unit m (kept ∙ same_config, kept_size) h,
        )

    push_samples-series :
        (m : Assoc Key (UnitAggregator F)) (samples : List (Key × (SpanNanoSec × F)))
        → AllEntries (Fits config) m
        → (after : KeyedAggregator Key F) × (push_samples
              (record { config = config; bins = m })
              samples
            ≡ returns after)
          × ((key : Key)
              → push_series f config (lookup key m) (series key samples)
                ≡ returns (lookup key after.bins))
    unfolding push_keyed
    push_samples-series m [] h = (record { config = config; bins = m }, refl, λ key. refl)
    push_samples-series m ((k, (span, item)) ∷ samples) h =
        let entry = or_else (lookup k m) (new_unit f config) in
        let (same_config, sized) = entry-Fits config m k h in
        let (unit, done, kept, kept_size, adds) =
          push_unit-adds f laws entry span item (rw same_config v) sized in
        let fits : Fits config k unit = (kept ∙ same_config, kept_size) in
        let (after, pushed, rest) =
          push_samples-series (insert k unit m) samples
            (AllEntries-insert (Fits config) k unit m fits h) in
        (
          after,
          rw done pushed,
          λ key.
              push_series-push config m k key span item unit samples (lookup key after.bins) done
                (rest key),
        )

-- Where the bins tile the configuration and fractions are rounded into their bounds, pushing any samples
-- to a new keyed aggregator never panics, and what it holds at the end for a key is what one unit
-- aggregator holds to which the samples of this key alone are pushed in their order, nothing where there
-- are none.
pub push_samples-new_keyed {ℓ} :
    {Key F : Type ℓ} (f : Float F) ⦃keys : Eq Key⦄ (config : BinnedSpan)
    (samples : List (Key × (SpanNanoSec × F)))
    → HasFractions f
    → IsTiled config
    → (after : KeyedAggregator Key F) × (push_samples f (new_keyed config) samples ≡ returns after)
      × ((key : Key)
          → push_series f config none (series f key samples) ≡ returns (lookup key after.bins))
unfolding new_keyed lookup
push_samples-new_keyed f config samples laws v = push_samples-series f laws config v [] samples tt
