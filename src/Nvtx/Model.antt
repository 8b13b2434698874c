-- ===== src/Nvtx/Model.antt =====
-- integrations/nvtx/analyzer/src/model.rs: the model, and its reconstruction in two passes.
pub mod Spans
pub mod Trace
pub mod Parents
use quent.Base.{
  ℕ, ◌+◌, Bool, true, false, Option, none, some, List, [], ◌∷◌, ◌++◌, map, nat_eq, pair_eq,
  option_eq, list_eq, get_elem?, keep,
}
use quent.Events.{Event}
use quent.Time.Collector
use quent.Nvtx.Event.{NvtxEvent}
use quent.Nvtx.Span.{
  SpanId, SpanKind, NvtxSpan, NvtxMark, NvtxDomain, NvtxThread, NvtxCategory, push_pop, start_end,
  resource,
}
use quent.Nvtx.Anomalies.{ReconstructionAnomalies}
use quent.Nvtx.Ranges
use quent.Nvtx.Resource
use quent.Nvtx.Tables
use quent.Nvtx.Tables.{ResolutionTables}
use quent.Nvtx.Stats
use quent.Nvtx.Stats.{RangeStats, StatsKey}
use quent.Base.Assoc.{Assoc}
use quent.Base.Text.{Text}
use quent.Nvtx.Replay.{Replay, no_replay, fill, replay}

pub record NvtxModel : Type 0 where
  pub spans : List NvtxSpan
  pub marks : List NvtxMark
  pub domains : List NvtxDomain
  pub threads : List NvtxThread
  pub categories : List NvtxCategory
  pub tables : ResolutionTables
  pub anomalies : ReconstructionAnomalies
  pub trace_start : ℕ
  pub trace_end : ℕ

unfoldable pub span : NvtxModel → SpanId → Option NvtxSpan
span m id = get_elem? m.spans id

abbrev is_resource : SpanKind → Bool
is_resource (resource i) = true
is_resource (push_pop t p) = false
is_resource start_end = false

unfoldable pub resources : NvtxModel → List NvtxSpan
resources m = keep (λ s. is_resource s.kind) m.spans

unfoldable pub range_statistics : NvtxModel → Assoc StatsKey RangeStats
range_statistics m = Stats.range_statistics m.spans

unfoldable pub range_statistics_where : NvtxModel → (NvtxSpan → Bool) → Assoc StatsKey RangeStats
range_statistics_where m keep = Stats.range_statistics_where m.spans keep

unfoldable pub category_name : NvtxModel → ℕ → ℕ → Option Text
category_name m domain category = Tables.resolve_category m.tables domain category

unfoldable pub thread_name : NvtxModel → ℕ → Text
thread_name m thread_id = Tables.resolve_thread m.tables thread_id

unfoldable pub fill_all : List (Option NvtxSpan) → List (SpanId × NvtxSpan) → List (Option NvtxSpan)
fill_all slots [] = slots
fill_all slots ((id, span) ∷ closed) = fill_all (fill slots id span) closed

-- The slots when what is still open is drained.
unfoldable pub drain : Replay → List (Option NvtxSpan)
drain r =
    let with_ranges = r.slots ++ map some (Ranges.drain_unclosed r.ranges).1 in
    let with_resources = with_ranges ++ map some (Resource.drain_unclosed r.resources).1 in
    fill_all with_resources (Ranges.drain_unpopped r.pushes).1

unfoldable pub flatten : List (Option NvtxSpan) → List NvtxSpan
flatten [] = []
flatten (none ∷ slots) = flatten slots
flatten (some span ∷ slots) = span ∷ flatten slots

-- The state at the end of the second pass over an ordered stream.
unfoldable pub replayed : List (Event NvtxEvent) → Replay
replayed ordered = replay (Tables.build ordered) no_replay ordered

abbrev pub or_zero : Option ℕ → ℕ
or_zero none = 0
or_zero (some n) = n

-- The model of an ordered stream.
unfoldable pub model_of : List (Event NvtxEvent) → NvtxModel
model_of ordered =
    let tables = Tables.build ordered in
    let r = replayed ordered in
    record {
      spans = flatten (drain r);
      marks = r.marks;
      domains = Tables.domain_records tables;
      threads = Tables.thread_records tables;
      categories = Tables.category_records tables;
      tables = tables;
      anomalies = r.anomalies;
      trace_start = or_zero r.trace_start;
      trace_end = r.trace_end;
    }

abbrev pub stamp : Event NvtxEvent → ℕ
stamp event = event.timestamp

unfoldable pub build : List (Event NvtxEvent) → NvtxModel
build events = model_of (Collector.collect stamp events)
