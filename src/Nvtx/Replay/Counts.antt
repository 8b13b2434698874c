-- ===== src/Nvtx/Replay/Counts.antt =====
-- Every open of the stream is held once: as a slot, or as what still waits for its close.
use quent.Base.{
  ℕ, ◌+◌, ◌≡◌, refl, Option, none, some, List, [], ◌∷◌, arith, nat_eq, pair_eq, option_eq, list_eq,
  length, length-append, length-set,
}
use mathlib.Core.List.{foldr}
use quent.Base.Assoc.{present, length-insert, length-remove}
use quent.Events.{Event}
use quent.Nvtx.Event.{
  NvtxEvent, range_push, range_pop, range_start, range_end, mark, domain_create, domain_destroy,
  register_string, name_category, name_thread, resource_create, resource_destroy,
}
use quent.Nvtx.Span.{NvtxSpan, SpanId, SpanKind}
use quent.Nvtx.Resource
use quent.Nvtx.Ranges
use quent.Nvtx.Tables.{ResolutionTables}
use quent.Nvtx.Replay.{
  Replay, fill, reserve, fill_closed, advance, on_range_start, on_range_end, on_range_push,
  on_range_pop, on_mark, on_resource_create, on_resource_destroy, dispatch, replay,
}

-- 1 for an event that opens a range or a lifespan.
abbrev pub opens : NvtxEvent → ℕ
opens (range_push domain thread_id attributes) = 1
opens (range_start domain range_id attributes) = 1
opens (resource_create domain handle identifier_type identifier message) = 1
opens (range_pop domain thread_id) = 0
opens (range_end domain range_id) = 0
opens (mark domain attributes) = 0
opens (domain_create domain name) = 0
opens (domain_destroy domain) = 0
opens (register_string domain handle value) = 0
opens (name_category domain category name) = 0
opens (name_thread thread_id name) = 0
opens (resource_destroy handle) = 0

abbrev pub opened : List (Event NvtxEvent) → ℕ
opened events = foldr (λ event n. opens event.payload + n) 0 events

unfoldable pub held : Replay → ℕ
held r = length r.slots + length r.ranges + length r.resources

length-reserve_range :
    (o : Option Ranges.OpenRange) (end : Option ℕ) (kind : SpanKind)
    (slots : List (Option NvtxSpan))
    → length (reserve (Ranges.closed_as o end kind) slots) ≡ length slots + present o
length-reserve_range none end kind slots = omega arith
length-reserve_range (some o) end kind slots =
    omega (arith, length-append slots (some (Ranges.close o end kind) ∷ []))

length-reserve_resource :
    (o : Option Resource.OpenResource) (end : Option ℕ) (slots : List (Option NvtxSpan))
    → length (reserve (Resource.closed o end) slots) ≡ length slots + present o
length-reserve_resource none end slots = omega arith
length-reserve_resource (some o) end slots =
    omega (arith, length-append slots (some (Resource.close o end) ∷ []))

pub length-fill_closed :
    (o : Option (SpanId × NvtxSpan)) (slots : List (Option NvtxSpan))
    → length (fill_closed o slots) ≡ length slots
unfolding fill
length-fill_closed none slots = refl
length-fill_closed (some (id, span)) slots = length-set slots id (some span)

held-dispatch :
    (tables : ResolutionTables) (r : Replay) (ts : ℕ) (e : NvtxEvent)
    → held (dispatch tables r ts e) ≡ held r + opens e
unfolding held dispatch
held-dispatch tables r ts (range_start d i a) =
    unfold on_range_start in grind (arith, length-reserve_range, length-insert)
held-dispatch tables r ts (range_end d i) =
    unfold on_range_end in grind (arith, length-reserve_range, length-remove)
held-dispatch tables r ts (range_push d t a) =
    unfold on_range_push in omega (arith, length-append r.slots (none ∷ []))
held-dispatch tables r ts (range_pop d t) =
    unfold on_range_pop in omega (arith, length-fill_closed (Ranges.pop r.pushes t d ts).1 r.slots)
held-dispatch tables r ts (resource_create d h i b m) =
    unfold on_resource_create in grind (arith, length-reserve_resource, length-insert)
held-dispatch tables r ts (resource_destroy h) =
    unfold on_resource_destroy in grind (arith, length-reserve_resource, length-remove)
held-dispatch tables r ts (mark d a) = unfold on_mark in omega arith
held-dispatch tables r ts _ = omega arith

-- What is held at the end is what was held at the start, and one for each open of the stream.
pub held-replay :
    (tables : ResolutionTables) (r : Replay) (events : List (Event NvtxEvent))
    → held (replay tables r events) ≡ held r + opened events
unfolding replay
held-replay tables r [] = omega arith
held-replay tables r (event ∷ events) =
    let s = advance r event.timestamp in
    let kept : held s ≡ held r = unfold held advance in refl in
    omega (
      arith,
      held-dispatch tables s event.timestamp event.payload,
      held-replay tables (dispatch tables s event.timestamp event.payload) events,
    )
