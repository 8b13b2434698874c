-- ===== src/Nvtx/Stats/Groups.antt =====
-- Which spans the statistics of a group are of.
use quent.Base.{
  or_else, ◌≡◌, refl, ap, ◌∙◌, inl, inr, Bool, ◌&&◌, Option, none, some, List, [], ◌∷◌, map,
  if◌then◌else◌, Bool-cases, ◌==◌, nat_eq, pair_eq, option_eq, list_eq, keep,
}
use quent.Base.Assoc.{Assoc, lookup, lookup-insert_changed}
use quent.Nvtx.Span.{NvtxSpan}
use quent.Nvtx.Stats.{
  StatsKey, RangeStats, no_stats, accumulate, finish, is_range, key_of, group, group_all,
  finish_entry, range_statistics_where,
}

-- The range spans of a group that are kept, in the order of the model.
abbrev pub members : StatsKey → (NvtxSpan → Bool) → List NvtxSpan → List NvtxSpan
members key kept spans =
    keep (λ span. (is_range span.kind && kept span) && (key_of span == key)) spans

abbrev pub accumulate_all : RangeStats → List NvtxSpan → RangeStats
accumulate_all s [] = s
accumulate_all s (span ∷ spans) = accumulate_all (accumulate s span) spans

abbrev pub group_stats : Option RangeStats → List NvtxSpan → Option RangeStats
group_stats old [] = old
group_stats old (span ∷ spans) = some (accumulate_all (or_else old no_stats) (span ∷ spans))

abbrev pub finished : Option RangeStats → Option RangeStats
finished none = none
finished (some s) = some (finish s)

group_stats-step :
    (old : Option RangeStats) (span : NvtxSpan) (spans : List NvtxSpan)
    → group_stats (some (accumulate (or_else old no_stats) span)) spans
      ≡ group_stats old (span ∷ spans)
group_stats-step old span [] = refl
group_stats-step old span (s ∷ spans) = refl

lookup-finish_entry :
    (key : StatsKey) (m : Assoc StatsKey RangeStats)
    → lookup key (map finish_entry m) ≡ finished (lookup key m)
unfolding lookup
lookup-finish_entry key [] = refl
lookup-finish_entry key ((k, s) ∷ m) = elim (Bool-cases (k == key)) [
  | inl t ↦ rw t refl
  | inr f ↦ rw f (lookup-finish_entry key m)
]

lookup-group :
    (key : StatsKey) (m : Assoc StatsKey RangeStats) (span : NvtxSpan)
    → lookup key (group m span) ≡ (
        if key_of span == key
        then some (accumulate (or_else (lookup key m) no_stats) span)
        else lookup key m)
unfolding group
lookup-group key m span =
    lookup-insert_changed (λ old. accumulate (or_else old no_stats) span) key (key_of span) m

lookup-group_all :
    (key : StatsKey) (kept : NvtxSpan → Bool) (m : Assoc StatsKey RangeStats)
    (spans : List NvtxSpan)
    → lookup key (group_all kept m spans) ≡ group_stats (lookup key m) (members key kept spans)
unfolding group_all
lookup-group_all key kept m [] = refl
lookup-group_all key kept m (span ∷ spans) = elim (Bool-cases (is_range span.kind && kept span)) [
  | inr f ↦ rw f (lookup-group_all key kept m spans)
  | inl t ↦
      let rest = lookup-group_all key kept (group m span) spans in
      elim (Bool-cases (key_of span == key)) [
        | inl same ↦
            let entry : lookup key (group m span)
                ≡ some (accumulate (or_else (lookup key m) no_stats) span) =
              lookup-group key m span ∙ rw same refl in
            rw (t, same)
              (rest
                ∙ ap (λ o. group_stats o (members key kept spans)) entry
                ∙ group_stats-step (lookup key m) span (members key kept spans))
        | inr other ↦
            let entry : lookup key (group m span) ≡ lookup key m =
              lookup-group key m span ∙ rw other refl in
            rw (t, other) (rest ∙ ap (λ o. group_stats o (members key kept spans)) entry)
      ]
]

-- The statistics hold an entry for a key just where a kept range span has that key; the entry is
-- accumulated over exactly these spans, in the order of the model.
pub lookup-range_statistics_where :
    (spans : List NvtxSpan) (kept : NvtxSpan → Bool) (key : StatsKey)
    → lookup key (range_statistics_where spans kept)
      ≡ finished (group_stats none (members key kept spans))
unfolding range_statistics_where lookup
lookup-range_statistics_where spans kept key =
    lookup-finish_entry key (group_all kept [] spans)
    ∙ ap finished (lookup-group_all key kept [] spans)
