-- ===== src/Nvtx/Tests.antt =====
-- The examples of the results on crates of integrations/nvtx.
use quent.Base.{
  ℕ, ◌≤◌, ◌<◌, ◌≡◌, refl, Bool, true, false, Option, none, some, List, [], ◌∷◌, map, arith, nat_eq,
  pair_eq, option_eq, list_eq, length, All,
}
use quent.Base.Assoc.{lookup, insert, remove}
use quent.Base.Set.{set_insert}
use quent.Base.Sort.{sort_by}
use quent.Events.{Event}
use quent.Base.Text.{Text, text}
use quent.Nvtx.Event.{
  pos, NvtxMessage, string, registered_handle, NvtxEventAttributes, NvtxEvent, range_push,
  range_pop, range_start, range_end, domain_create, register_string, name_category, name_thread,
  resource_create,
}
use quent.Nvtx.Span.{NvtxSpan, push_pop, parent}
use quent.Nvtx.Anomalies.{ReconstructionAnomalies, no_anomalies}
use quent.Nvtx.Stats.{StatsKey, RangeStats, range_statistics_where}
use quent.Nvtx.Model.{build, span, drain, replayed, stamp}
use quent.Nvtx.Model.Spans.{length-spans, spans-eq-slots}
use quent.Nvtx.Model.Trace.{build-IsTimed, trace_bounds}
use quent.Nvtx.Model.Parents.{parent_resolves}
use quent.Nvtx.Replay.Times.{IsTimed}
use quent.Nvtx.Replay.{
  fill, advance, dispatch, on_range_start, on_range_end, on_range_push, on_range_pop, on_mark,
  on_resource_create, on_resource_destroy, replay,
}
use quent.Nvtx.Model.{model_of, flatten, fill_all}
use quent.Nvtx.Span.{category_id}
use quent.Nvtx.Ranges
use quent.Nvtx.Resource
use quent.Nvtx.Tables
use quent.Nvtx.Tables.Names.{resolve_message-registered, resolve_thread-last}
use quent.Nvtx.Tables.Lifespans.{seen_at, first_seen-eq-earliest}
use quent.Nvtx.Span.{duration}
use quent.Nvtx.Stats.{accumulate, finish, is_range, group, group_all}
use quent.Nvtx.Stats.Groups.{members, group_stats, finished, lookup-range_statistics_where}
use quent.Nvtx.Stats.Totals.{range_statistics_totals}
use quent.Nvtx.Stats.Average.{avg_duration_between}
use quent.Time.Collector

abbrev attributes_of : Option NvtxMessage → NvtxEventAttributes
attributes_of message = record { category = 4; color = none; message = message; payload = none }

abbrev event_at : ℕ → NvtxEvent → Event NvtxEvent
event_at timestamp payload = record { id = 1; timestamp = timestamp; payload = payload }

abbrev load_name : Text
load_name = text "load"

abbrev scan_name : Text
scan_name = text "scan"

abbrev main_name : Text
main_name = text "main"

-- A stream out of order: two nested ranges of a thread, the outer one left open and named later by a
-- registered string; an id of two ranges, the first without an end; a pop too many; a leaked resource.
abbrev stream : List (Event NvtxEvent)
stream =
    event_at 20 (range_push 7 1 (attributes_of (some (string scan_name))))
    ∷ event_at 10 (range_push 7 1 (attributes_of (some (registered_handle 255))))
    ∷ event_at 30 (range_pop 7 1)
    ∷ event_at 31 (range_pop 7 2)
    ∷ event_at 35 (range_start 7 9 (attributes_of (some (string scan_name))))
    ∷ event_at 36 (range_start 7 9 (attributes_of none))
    ∷ event_at 50 (range_end 7 9)
    ∷ event_at 40 (resource_create 7 3 (pos 0) 8 none)
    ∷ event_at 60 (register_string 7 255 load_name)
    ∷ event_at 61 (name_category 7 4 scan_name)
    ∷ event_at 62 (name_thread 1 main_name)
    ∷ event_at 63 (domain_create 7 main_name)
    ∷ []

length-spans_example : length (build stream).spans ≡ 5
length-spans_example = length-spans stream

spans-eq-slots_example :
    map some (build stream).spans ≡ drain (replayed (Collector.collect stamp stream))
spans-eq-slots_example = spans-eq-slots stream

build-IsTimed_example : All IsTimed (build stream).spans
build-IsTimed_example = build-IsTimed stream

trace_bounds_example : ((build stream).trace_start ≡ 10) × ((build stream).trace_end ≡ 63)
trace_bounds_example = trace_bounds stream

-- The span of the range that was pushed second.
abbrev inner : NvtxSpan
inner = record {
  domain = 7;
  name = scan_name;
  category = some 4;
  color = none;
  payload = none;
  start = 20;
  end = some 30;
  kind = push_pop 1 (some 0);
}

inner-found : span (build stream) 1 ≡ some inner
unfolding span build model_of flatten drain fill_all fill replayed replay advance dispatch
    on_range_start on_range_end on_range_push on_range_pop on_mark on_resource_create
    on_resource_destroy Ranges.new Ranges.close Ranges.start Ranges.end Ranges.close_push
    Ranges.push Ranges.pop Ranges.close_stack Ranges.close_stacks Ranges.drain_unclosed
    Ranges.drain_unpopped Resource.close Resource.create Resource.destroy Resource.drain_unclosed
    Collector.push Collector.extend Collector.collect lookup insert remove sort_by Tables.lifespan
    Tables.see_domain Tables.see_attributes Tables.observe Tables.observe_all Tables.build
    Tables.resolve_message category_id set_insert
inner-found = refl

parent_resolves_example : (0 < 1) × ((q : NvtxSpan) × (span (build stream) 0 ≡ some q))
unfolding parent
parent_resolves_example = parent_resolves stream 1 0 inner inner-found refl

abbrev one_orphan : ReconstructionAnomalies
one_orphan = record no_anomalies { orphan_range_ends = 1 }

resolve_message-registered_example :
    Tables.resolve_message (Tables.build stream) 7 (some (registered_handle 255)) ≡ load_name
resolve_message-registered_example = resolve_message-registered stream 7 255

resolve_thread-last_example : Tables.resolve_thread (Tables.build stream) 1 ≡ main_name
resolve_thread-last_example = resolve_thread-last stream 1

first_seen-eq-earliest_example : seen_at (Tables.build stream) 7 ≡ some 10
first_seen-eq-earliest_example = first_seen-eq-earliest stream 7

-- Three ranges of a group, the last of them open, and one of another group.
abbrev range_of : Text → ℕ → Option ℕ → NvtxSpan
range_of name start end = record inner { name = name; start = start; end = end }

abbrev ranges : List NvtxSpan
ranges =
    range_of scan_name 20 (some 30)
    ∷ range_of load_name 20 (some 90)
    ∷ range_of scan_name 20 (some 40)
    ∷ range_of scan_name 50 none
    ∷ []

abbrev scan_key : StatsKey
scan_key = (scan_name, (7, some 4))

abbrev scan_stats : RangeStats
scan_stats = record {
  count = 3;
  observed_count = 2;
  total_duration = 30;
  avg_duration = 15;
  min_duration = 10;
  max_duration = 20;
  saturated = false;
}

abbrev all_spans : NvtxSpan → Bool
all_spans s = true

scan_stats-found : lookup scan_key (range_statistics_where ranges all_spans) ≡ some scan_stats
unfolding lookup insert range_statistics_where group_all group accumulate duration finish is_range
scan_stats-found = refl

lookup-range_statistics_where_example :
    lookup scan_key (range_statistics_where ranges all_spans)
    ≡ finished (group_stats none (members scan_key all_spans ranges))
lookup-range_statistics_where_example = lookup-range_statistics_where ranges all_spans scan_key

range_statistics_totals_example :
    (scan_stats.count ≡ 3)
    × (scan_stats.observed_count ≡ 2)
    × (scan_stats.total_duration ≡ 30)
    × (scan_stats.saturated ≡ false)
unfolding is_range duration
range_statistics_totals_example =
    range_statistics_totals ranges all_spans scan_key scan_stats scan_stats-found

avg_duration_between_example : (10 ≤ 15) × (15 ≤ 20)
avg_duration_between_example =
    avg_duration_between ranges all_spans scan_key scan_stats scan_stats-found (omega arith) refl
