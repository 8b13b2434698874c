-- ===== src/Nvtx/Replay.antt =====
-- integrations/nvtx/analyzer/src/model.rs: the second pass, an event at a time.
pub mod Counts
pub mod Slots
pub mod Times
pub mod Nesting
use quent.Base.{
  ℕ, ◌+◌, min, max, Option, none, some, List, [], ◌∷◌, ◌++◌, nat_eq, pair_eq, option_eq, list_eq,
  length, set,
}
use quent.Events.{Event}
use quent.Time.Collector
use quent.Base.Text.{Text}
use quent.Nvtx.Event.{
  ℤ, NvtxMessage, NvtxEventAttributes, NvtxEvent, range_push, range_pop, range_start, range_end,
  mark, domain_create, domain_destroy, register_string, name_category, name_thread, resource_create,
  resource_destroy,
}
use quent.Nvtx.Span.{
  SpanId, SpanKind, NvtxSpan, NvtxMark, NvtxDomain, NvtxThread, NvtxCategory, push_pop, start_end,
  resource, category_id,
}
use quent.Nvtx.Anomalies.{ReconstructionAnomalies, no_anomalies}
use quent.Nvtx.Ranges
use quent.Nvtx.Ranges.{StartEndRanges, PushPopRanges}
use quent.Nvtx.Resource
use quent.Nvtx.Resource.{Resources}
use quent.Nvtx.Tables
use quent.Nvtx.Tables.{ResolutionTables}

-- The local variables of the second pass.
pub record Replay : Type 0 where
  pub ranges : StartEndRanges
  pub pushes : PushPopRanges
  pub resources : Resources
  pub marks : List NvtxMark
  pub anomalies : ReconstructionAnomalies
  pub trace_start : Option ℕ
  pub trace_end : ℕ
  pub slots : List (Option NvtxSpan)

abbrev pub no_replay : Replay
no_replay = record {
  ranges = [];
  pushes = [];
  resources = [];
  marks = [];
  anomalies = no_anomalies;
  trace_start = none;
  trace_end = 0;
  slots = [];
}

-- A write past the end is dropped.
unfoldable pub fill : List (Option NvtxSpan) → SpanId → NvtxSpan → List (Option NvtxSpan)
fill slots id span = set slots id (some span)

-- `slots.push(Some(span))` for a span that came back.
abbrev pub reserve : Option NvtxSpan → List (Option NvtxSpan) → List (Option NvtxSpan)
reserve none slots = slots
reserve (some span) slots = slots ++ some span ∷ []

abbrev pub fill_closed :
    Option (SpanId × NvtxSpan) → List (Option NvtxSpan) → List (Option NvtxSpan)
fill_closed none slots = slots
fill_closed (some (id, span)) slots = fill slots id span

-- 1 for what came back, and 1 for what did not.
abbrev pub one_if_some {ℓ} : {A : Type ℓ} → Option A → ℕ
one_if_some none = 0
one_if_some (some a) = 1

abbrev pub one_if_none {ℓ} : {A : Type ℓ} → Option A → ℕ
one_if_none none = 1
one_if_none (some a) = 0

abbrev earliest : Option ℕ → ℕ → ℕ
earliest none timestamp = timestamp
earliest (some at) timestamp = min at timestamp

unfoldable pub advance : Replay → ℕ → Replay
advance r timestamp = record r {
  trace_start = some (earliest r.trace_start timestamp);
  trace_end = max r.trace_end timestamp;
}

unfoldable pub on_range_start : ResolutionTables → Replay → ℕ → ℕ → ℕ → NvtxEventAttributes → Replay
unfolding Ranges.start
on_range_start tables r timestamp domain range_id attributes =
    let name = Tables.resolve_message tables domain attributes.message in
    let (ranges, displaced) = Ranges.start r.ranges range_id domain name attributes timestamp in
    record r {
      ranges = ranges;
      anomalies = record r.anomalies {
        reused_range_ids = r.anomalies.reused_range_ids + one_if_some displaced;
      };
      slots = reserve displaced r.slots;
    }

unfoldable pub on_range_end : Replay → ℕ → ℕ → Replay
unfolding Ranges.end
on_range_end r timestamp range_id =
    let (ranges, closed) = Ranges.end r.ranges range_id timestamp in
    record r {
      ranges = ranges;
      anomalies = record r.anomalies {
        orphan_range_ends = r.anomalies.orphan_range_ends + one_if_none closed;
      };
      slots = reserve closed r.slots;
    }

unfoldable pub on_range_push : ResolutionTables → Replay → ℕ → ℕ → ℕ → NvtxEventAttributes → Replay
unfolding Ranges.push
on_range_push tables r timestamp domain thread_id attributes =
    let name = Tables.resolve_message tables domain attributes.message in
    record r {
      pushes = Ranges.push r.pushes (length r.slots) thread_id domain name attributes timestamp;
      slots = r.slots ++ none ∷ [];
    }

unfoldable pub on_range_pop : Replay → ℕ → ℕ → ℕ → Replay
unfolding Ranges.pop
on_range_pop r timestamp domain thread_id =
    let (pushes, closed) = Ranges.pop r.pushes thread_id domain timestamp in
    record r {
      pushes = pushes;
      anomalies = record r.anomalies {
        orphan_range_pops = r.anomalies.orphan_range_pops + one_if_none closed;
      };
      slots = fill_closed closed r.slots;
    }

unfoldable pub on_mark : ResolutionTables → Replay → ℕ → ℕ → NvtxEventAttributes → Replay
on_mark tables r timestamp domain attributes = record r {
  marks =
      r.marks
      ++ record {
        domain = domain;
        name = Tables.resolve_message tables domain attributes.message;
        category = category_id attributes.category;
        color = attributes.color;
        payload = attributes.payload;
        timestamp = timestamp;
      }
        ∷ [];
}

unfoldable pub on_resource_create :
    ResolutionTables → Replay → ℕ → ℕ → ℕ → ℤ → Option NvtxMessage → Replay
unfolding Resource.create
on_resource_create tables r timestamp domain handle identifier_type message =
    let name = Tables.resolve_message tables domain message in
    let (resources, displaced) =
      Resource.create r.resources handle domain name identifier_type timestamp in
    record r {
      resources = resources;
      anomalies = record r.anomalies {
        reused_resource_handles = r.anomalies.reused_resource_handles + one_if_some displaced;
      };
      slots = reserve displaced r.slots;
    }

unfoldable pub on_resource_destroy : Replay → ℕ → ℕ → Replay
unfolding Resource.destroy
on_resource_destroy r timestamp handle =
    let (resources, closed) = Resource.destroy r.resources handle timestamp in
    record r {
      resources = resources;
      anomalies = record r.anomalies {
        orphan_resource_destroys = r.anomalies.orphan_resource_destroys + one_if_none closed;
      };
      slots = reserve closed r.slots;
    }

-- The `match` of the loop.
unfoldable pub dispatch : ResolutionTables → Replay → ℕ → NvtxEvent → Replay
dispatch tables r timestamp (range_start domain range_id attributes) =
    on_range_start tables r timestamp domain range_id attributes
dispatch tables r timestamp (range_end domain range_id) = on_range_end r timestamp range_id
dispatch tables r timestamp (range_push domain thread_id attributes) =
    on_range_push tables r timestamp domain thread_id attributes
dispatch tables r timestamp (range_pop domain thread_id) = on_range_pop r timestamp domain thread_id
dispatch tables r timestamp (mark domain attributes) = on_mark tables r timestamp domain attributes
dispatch tables r timestamp (resource_create domain handle identifier_type identifier message) =
    on_resource_create tables r timestamp domain handle identifier_type message
dispatch tables r timestamp (resource_destroy handle) = on_resource_destroy r timestamp handle
dispatch tables r timestamp (domain_create domain name) = r
dispatch tables r timestamp (domain_destroy domain) = r
dispatch tables r timestamp (register_string domain handle value) = r
dispatch tables r timestamp (name_category domain category name) = r
dispatch tables r timestamp (name_thread thread_id name) = r

unfoldable pub replay : ResolutionTables → Replay → List (Event NvtxEvent) → Replay
replay tables r [] = r
replay tables r (event ∷ events) =
    replay tables (dispatch tables (advance r event.timestamp) event.timestamp event.payload) events
