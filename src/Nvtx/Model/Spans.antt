-- ===== src/Nvtx/Model/Spans.antt =====
-- The spans of a model: every slot is filled, each open of the stream has one span, and a span's place
-- in the list is its id.
use quent.Base.{
  ℕ, zero, suc, ◌+◌, ◌≡◌, refl, ap, ◌∙◌, inl, inr, Option, none, some, List, [], ◌∷◌, ◌++◌, map,
  arith, nat_eq, pair_eq, option_eq, list_eq, length, length-append, length-set, length-map, Any,
  Any-append_left, Any-append_right,
}
use mathlib.Core.Logic.{⊎_elim}
use quent.Base.Sort.{sort_by, length-sort_by, Any-sort_by}
use quent.Events.{Event}
use quent.Time.Collector
use quent.Time.Collector.Order.{foldr-collect}
use quent.Nvtx.Event.{NvtxEvent}
use quent.Nvtx.Span.{NvtxSpan, SpanId}
use quent.Nvtx.Ranges
use quent.Nvtx.Ranges.{PushPopRanges, Stack, close_stack, close_stacks, later_stack}
use quent.Nvtx.Resource
use quent.Nvtx.Tables
use quent.Nvtx.Replay.{Replay, no_replay, fill}
use quent.Nvtx.Replay.Counts.{opens, opened, held, held-replay}
use quent.Nvtx.Replay.Slots.{IsHole, InStack, InStacks, Covered, Covered-replay, IsHole-fill}
use quent.Nvtx.Model.{fill_all, drain, flatten, replayed, model_of, stamp, build}

-- One of the spans to write has the id.
abbrev HasId : SpanId → List (SpanId × NvtxSpan) → Type 0
HasId i closed = Any (λ c. c.0 ≡ i) closed

close_stack-HasId :
    (i : SpanId) (thread : ℕ) (s : Stack) → InStack i s → HasId i (close_stack thread s)
unfolding close_stack Ranges.close_push
close_stack-HasId i thread [] h = h
close_stack-HasId i thread (p ∷ s) (inl h) = inl h
close_stack-HasId i thread (p ∷ s) (inr h) = inr (close_stack-HasId i thread s h)

close_stacks-HasId : (i : SpanId) (m : PushPopRanges) → InStacks i m → HasId i (close_stacks m)
unfolding close_stacks
close_stacks-HasId i [] h = h
close_stacks-HasId i (((thread, domain), s) ∷ m) (inl h) =
    Any-append_left (λ c. c.0 ≡ i) (close_stack thread s) (close_stacks m)
      (close_stack-HasId i thread s h)
close_stacks-HasId i (((thread, domain), s) ∷ m) (inr h) =
    Any-append_right (λ c. c.0 ≡ i) (close_stack thread s) (close_stacks m)
      (close_stacks-HasId i m h)

drain_unpopped-HasId :
    (i : SpanId) (m : PushPopRanges) → InStacks i m → HasId i (Ranges.drain_unpopped m).1
unfolding Ranges.drain_unpopped
drain_unpopped-HasId i m h =
    close_stacks-HasId i (sort_by later_stack m) (Any-sort_by later_stack (λ e. InStack i e.1) m h)

fill_all-filled :
    (slots : List (Option NvtxSpan)) (closed : List (SpanId × NvtxSpan))
    → ((i : ℕ) → IsHole slots i → HasId i closed)
    → (i : ℕ) → ¬ IsHole (fill_all slots closed) i
unfolding fill_all
fill_all-filled slots [] c i h = c i h
fill_all-filled slots ((id, s) ∷ closed) c i h =
    fill_all-filled (fill slots id s) closed
      (λ j hole.
        let (old, ne) = IsHole-fill slots id s j hole in
        ⊎_elim (λ e. absurd (ne e)) (λ rest. rest) (c j old))
      i h

IsHole-append :
    (slots : List (Option NvtxSpan)) (spans : List NvtxSpan) (i : ℕ)
    → IsHole (slots ++ map some spans) i
    → IsHole slots i
IsHole-append [] [] i h = h
IsHole-append [] (s ∷ spans) zero h = cc
IsHole-append [] (s ∷ spans) (suc i) h = cc (IsHole-append [] spans i h)
IsHole-append (x ∷ xs) spans zero h = h
IsHole-append (x ∷ xs) spans (suc i) h = IsHole-append xs spans i h

drain-filled : (r : Replay) → Covered r → (i : ℕ) → ¬ IsHole (drain r) i
unfolding drain
drain-filled r c =
    let ranges = (Ranges.drain_unclosed r.ranges).1 in
    let resources = (Resource.drain_unclosed r.resources).1 in
    fill_all-filled ((r.slots ++ map some ranges) ++ map some resources)
      (Ranges.drain_unpopped r.pushes).1
      (λ i h. drain_unpopped-HasId i r.pushes (
        c i (
          IsHole-append r.slots ranges i
            (IsHole-append (r.slots ++ map some ranges) resources i h))))

length-fill_all :
    (slots : List (Option NvtxSpan)) (closed : List (SpanId × NvtxSpan))
    → length (fill_all slots closed) ≡ length slots
unfolding fill_all fill
length-fill_all slots [] = refl
length-fill_all slots ((id, s) ∷ closed) =
    length-fill_all (fill slots id s) closed ∙ length-set slots id (some s)

length-drained_ranges : (m : Ranges.StartEndRanges) → length (Ranges.drain_unclosed m).1 ≡ length m
unfolding Ranges.drain_unclosed
length-drained_ranges m =
    length-map _ (sort_by Ranges.later_range m) ∙ length-sort_by Ranges.later_range m

length-drained_resources :
    (m : Resource.Resources) → length (Resource.drain_unclosed m).1 ≡ length m
unfolding Resource.drain_unclosed
length-drained_resources m =
    length-map _ (sort_by Resource.later_resource m) ∙ length-sort_by Resource.later_resource m

length-drain : (r : Replay) → length (drain r) ≡ held r
unfolding drain held
length-drain r =
    let ranges = (Ranges.drain_unclosed r.ranges).1 in
    let resources = (Resource.drain_unclosed r.resources).1 in
    let slots = r.slots ++ map some ranges in
    omega (
      arith,
      length-fill_all (slots ++ map some resources) (Ranges.drain_unpopped r.pushes).1,
      length-append slots (map some resources),
      length-append r.slots (map some ranges),
      length-map {B = Option NvtxSpan} some ranges,
      length-map {B = Option NvtxSpan} some resources,
      length-drained_ranges r.ranges,
      length-drained_resources r.resources,
    )

map-flatten :
    (slots : List (Option NvtxSpan))
    → ((i : ℕ) → ¬ IsHole slots i)
    → map some (flatten slots) ≡ slots
unfolding flatten
map-flatten [] full = refl
map-flatten (none ∷ slots) full = absurd (full 0 refl)
map-flatten (some s ∷ slots) full = ap (◌∷◌ (some s)) (map-flatten slots (λ j. full (suc j)))

Covered-replayed : (ordered : List (Event NvtxEvent)) → Covered (replayed ordered)
unfolding replayed
Covered-replayed ordered =
    Covered-replay (Tables.build ordered) no_replay ordered
      (λ i h. absurd (let none_there : ⊥ = cc h in none_there))

-- Whatever the stream, no slot is left without a span, so flattening the slots keeps the index of each:
-- a span stands in the list at the id that it was given.
pub spans-eq-slots :
    (events : List (Event NvtxEvent))
    → map some (build events).spans ≡ drain (replayed (Collector.collect stamp events))
unfolding build model_of
spans-eq-slots events =
    let ordered = Collector.collect stamp events in
    map-flatten (drain (replayed ordered))
      (drain-filled (replayed ordered) (Covered-replayed ordered))

opened-collect :
    (events : List (Event NvtxEvent)) → opened (Collector.collect stamp events) ≡ opened events
opened-collect events =
    foldr-collect stamp (λ event n. opens event.payload + n) 0 (λ x y b. omega arith) events

-- A model has one span for each event that opens a range or a resource lifespan, whether its close was
-- captured or not, whatever the order of arrival: none is lost, and no close makes up a span.
pub length-spans : (events : List (Event NvtxEvent)) → length (build events).spans ≡ opened events
length-spans events =
    let ordered = Collector.collect stamp events in
    let slots = ap length (spans-eq-slots events) in
    let all : held (replayed ordered) ≡ 0 + opened ordered =
      unfold replayed held in held-replay (Tables.build ordered) no_replay ordered in
    omega (
      arith,
      slots,
      length-map {B = Option NvtxSpan} some (build events).spans,
      length-drain (replayed ordered),
      all,
      opened-collect events,
    )
