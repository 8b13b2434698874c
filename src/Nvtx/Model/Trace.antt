-- ===== src/Nvtx/Model/Trace.antt =====
-- Times of a model: the ends of its spans, and the bounds of the trace.
use quent.Base.{
  ℕ, min, max, ◌≡◌, refl, ap, ◌∙◌, Option, none, some, List, [], ◌∷◌, map, arith, nat_eq, pair_eq,
  option_eq, list_eq, All, All-append, All-set,
}
use mathlib.Core.List.{foldr}
use quent.Base.Sort.{sort_by}
use quent.Events.{Event}
use quent.Time.Collector
use quent.Time.Collector.Order.{From, foldr-collect, collect-IsOrdered}
use quent.Nvtx.Event.{
  NvtxEvent, range_push, range_pop, range_start, range_end, mark, resource_create, resource_destroy,
}
use quent.Nvtx.Span.{NvtxSpan, SpanId, start_end}
use quent.Nvtx.Ranges
use quent.Nvtx.Ranges.{PushPopRanges, Stack, close_stack, close_stacks, later_stack}
use quent.Nvtx.Resource
use quent.Nvtx.Tables
use quent.Nvtx.Replay.{
  Replay, no_replay, fill, replay, advance, dispatch, on_range_start, on_range_end, on_range_push,
  on_range_pop, on_mark, on_resource_create, on_resource_destroy,
}
use quent.Nvtx.Replay.Times.{IsTimed, SlotIsTimed, IsTimely, replay-IsTimely}
use quent.Nvtx.Model.{fill_all, drain, flatten, replayed, model_of, stamp, build, or_zero}

leaked_ranges-IsTimed :
    (m : Ranges.StartEndRanges)
    → All SlotIsTimed
        (map some (map (λ (e : ℕ × Ranges.OpenRange). Ranges.close e.1 none start_end) m))
unfolding Ranges.close
leaked_ranges-IsTimed [] = tt
leaked_ranges-IsTimed (e ∷ m) = (tt, leaked_ranges-IsTimed m)

leaked_resources-IsTimed :
    (m : Resource.Resources)
    → All SlotIsTimed
        (map some (map (λ (e : ℕ × Resource.OpenResource). Resource.close e.1 none) m))
unfolding Resource.close
leaked_resources-IsTimed [] = tt
leaked_resources-IsTimed (e ∷ m) = (tt, leaked_resources-IsTimed m)

abbrev AllTimed : List (SpanId × NvtxSpan) → Type 0
AllTimed closed = All (λ c. IsTimed c.1) closed

close_stack-AllTimed : (thread : ℕ) (s : Stack) → AllTimed (close_stack thread s)
unfolding close_stack Ranges.close_push Ranges.close
close_stack-AllTimed thread [] = tt
close_stack-AllTimed thread (p ∷ s) = (tt, close_stack-AllTimed thread s)

close_stacks-AllTimed : (m : PushPopRanges) → AllTimed (close_stacks m)
unfolding close_stacks
close_stacks-AllTimed [] = tt
close_stacks-AllTimed (((thread, domain), s) ∷ m) =
    All-append (λ c. IsTimed c.1) (close_stack thread s) (close_stacks m)
      (close_stack-AllTimed thread s) (close_stacks-AllTimed m)

fill_all-IsTimed :
    (slots : List (Option NvtxSpan)) (closed : List (SpanId × NvtxSpan))
    → All SlotIsTimed slots
    → AllTimed closed
    → All SlotIsTimed (fill_all slots closed)
unfolding fill_all fill
fill_all-IsTimed slots [] h c = h
fill_all-IsTimed slots ((id, s) ∷ closed) h c =
    fill_all-IsTimed (fill slots id s) closed (All-set SlotIsTimed slots id (some s) c.0 h) c.1

drain-IsTimed : (r : Replay) → All SlotIsTimed r.slots → All SlotIsTimed (drain r)
unfolding drain Ranges.drain_unclosed Resource.drain_unclosed Ranges.drain_unpopped
drain-IsTimed r h =
    fill_all-IsTimed _ _
      (All-append SlotIsTimed _ _
        (All-append SlotIsTimed r.slots _ h
          (leaked_ranges-IsTimed (sort_by Ranges.later_range r.ranges)))
        (leaked_resources-IsTimed (sort_by Resource.later_resource r.resources)))
      (close_stacks-AllTimed (sort_by later_stack r.pushes))

flatten-IsTimed :
    (slots : List (Option NvtxSpan)) → All SlotIsTimed slots → All IsTimed (flatten slots)
unfolding flatten
flatten-IsTimed [] h = tt
flatten-IsTimed (none ∷ slots) h = flatten-IsTimed slots h.1
flatten-IsTimed (some s ∷ slots) h = (h.0, flatten-IsTimed slots h.1)

From-zero : (events : List (Event NvtxEvent)) → From stamp 0 events
From-zero [] = tt
From-zero (e ∷ events) = (omega arith, From-zero events)

-- No span of a model ends before it starts, in whatever order the events of the stream arrived.
pub build-IsTimed : (events : List (Event NvtxEvent)) → All IsTimed (build events).spans
unfolding build model_of
build-IsTimed events =
    let ordered = Collector.collect stamp events in
    let empty : IsTimely 0 no_replay = record {
      ranges = tt;
      pushes = tt;
      resources = tt;
      slots = tt;
    } in
    let (u, timely) =
      replay-IsTimely (Tables.build ordered) 0 no_replay ordered (From-zero ordered)
        (collect-IsOrdered stamp events) empty in
    flatten-IsTimed (drain (replayed ordered))
      (drain-IsTimed (replayed ordered) (unfold replayed in timely.slots))

-- The latest timestamp of a stream, and the earliest one.
abbrev pub latest : List (Event NvtxEvent) → ℕ
latest events = foldr (λ event t. max event.timestamp t) 0 events

abbrev pub first_of : ℕ → Option ℕ → Option ℕ
first_of t none = some t
first_of t (some u) = some (min t u)

abbrev pub earliest : List (Event NvtxEvent) → Option ℕ
earliest events = foldr (λ event t. first_of event.timestamp t) none events

record SameBounds (r s : Replay) : Type 0 where
  start : s.trace_start ≡ r.trace_start
  end : s.trace_end ≡ r.trace_end

dispatch-SameBounds :
    (tables : Tables.ResolutionTables) (r : Replay) (ts : ℕ) (e : NvtxEvent)
    → SameBounds r (dispatch tables r ts e)
unfolding dispatch
dispatch-SameBounds tables r ts (range_start d i a) =
    unfold on_range_start in record { start = refl; end = refl }
dispatch-SameBounds tables r ts (range_end d i) =
    unfold on_range_end in record { start = refl; end = refl }
dispatch-SameBounds tables r ts (range_push d i a) =
    unfold on_range_push in record { start = refl; end = refl }
dispatch-SameBounds tables r ts (range_pop d i) =
    unfold on_range_pop in record { start = refl; end = refl }
dispatch-SameBounds tables r ts (resource_create d k i b m) =
    unfold on_resource_create in record { start = refl; end = refl }
dispatch-SameBounds tables r ts (resource_destroy k) =
    unfold on_resource_destroy in record { start = refl; end = refl }
dispatch-SameBounds tables r ts (mark d a) = unfold on_mark in record { start = refl; end = refl }
dispatch-SameBounds tables r ts _ = record { start = refl; end = refl }

abbrev first_known : Option ℕ → Option ℕ → Option ℕ
first_known none o = o
first_known (some t) o = first_of t o

first_of_comm : (t u : ℕ) (o : Option ℕ) → first_of t (first_of u o) ≡ first_of u (first_of t o)
first_of_comm t u none = ap some (omega arith)
first_of_comm t u (some v) = ap some (omega arith)

first-advance :
    (r : Replay) (ts : ℕ) (o : Option ℕ)
    → first_known (advance r ts).trace_start o ≡ first_known r.trace_start (first_of ts o)
unfolding advance
first-advance r ts o = ground arith

replay-bounds :
    (tables : Tables.ResolutionTables) (r : Replay) (events : List (Event NvtxEvent))
    → ((replay tables r events).trace_end ≡ max r.trace_end (latest events))
      × ((replay tables r events).trace_start ≡ first_known r.trace_start (earliest events))
unfolding replay
replay-bounds tables r [] = (omega arith, ground arith)
replay-bounds tables r (event ∷ events) =
    let ts = event.timestamp in
    let s = advance r ts in
    let same = dispatch-SameBounds tables s ts event.payload in
    let at_end : s.trace_end ≡ max r.trace_end ts = unfold advance in refl in
    let rest = replay-bounds tables (dispatch tables s ts event.payload) events in
    (
      omega (arith, rest.0, same.end),
      rest.1
          ∙ ap (λ t. first_known t (earliest events)) same.start
          ∙ first-advance r ts (earliest events),
    )

-- The trace of a model starts with the earliest timestamp of the stream and ends with the latest one, in
-- whatever order the events arrived; both are 0 for an empty stream.
pub trace_bounds :
    (events : List (Event NvtxEvent))
    → ((build events).trace_start ≡ or_zero (earliest events))
      × ((build events).trace_end ≡ latest events)
unfolding build model_of replayed
trace_bounds events =
    let ordered = Collector.collect stamp events in
    let bounds = replay-bounds (Tables.build ordered) no_replay ordered in
    let same_end : latest ordered ≡ latest events =
      foldr-collect stamp (λ event t. max event.timestamp t) 0 (λ x y b. omega arith) events in
    let same_start : earliest ordered ≡ earliest events =
      foldr-collect stamp (λ event t. first_of event.timestamp t) none
        (λ x y b. first_of_comm x.timestamp y.timestamp b) events in
    (ap or_zero (bounds.1 ∙ same_start), omega (arith, bounds.0, same_end))
