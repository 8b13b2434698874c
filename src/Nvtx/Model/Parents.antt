-- ===== src/Nvtx/Model/Parents.antt =====
-- The parents that the spans of a model name.
use quent.Base.{
  ℕ, zero, suc, ◌+◌, ◌<◌, ◌≡◌, refl, Option, none, some, List, [], ◌∷◌, ◌++◌, map, arith, nat_eq,
  pair_eq, option_eq, list_eq, length, get_elem?, All, All-append, lt-length_of_get_elem?,
}
use quent.Base.Assoc.{AllEntries}
use quent.Base.Sort.{sort_by, All-sort_by}
use quent.Events.{Event}
use quent.Time.Collector
use quent.Nvtx.Event.{NvtxEvent}
use quent.Nvtx.Span.{NvtxSpan, SpanId, start_end, parent}
use quent.Nvtx.Ranges
use quent.Nvtx.Ranges.{
  PushPopRanges, Stack, StackKey, close_stack, close_stacks, later_stack, enclosing,
}
use quent.Nvtx.Resource
use quent.Nvtx.Tables
use quent.Nvtx.Replay.{Replay, no_replay, fill}
use quent.Nvtx.Replay.Nesting.{
  Below, NestedFrom, NestedFrom-fill, Falls, Below-enclosing, IsNested, replay-IsNested,
}
use quent.Nvtx.Model.{fill_all, drain, replayed, stamp, build, span}
use quent.Nvtx.Model.Spans.{spans-eq-slots}

abbrev Nested : SpanId × NvtxSpan → Type 0
Nested c = Below c.0 (parent c.1.kind)

close_stack-Nested : (n thread : ℕ) (s : Stack) → Falls n s → All Nested (close_stack thread s)
unfolding close_stack Ranges.close_push Ranges.close parent
close_stack-Nested n thread [] h = tt
close_stack-Nested n thread (p ∷ s) h =
    (Below-enclosing p.id s h.1, close_stack-Nested p.id thread s h.1)

close_stacks-Nested :
    (n : ℕ) (m : List (StackKey × Stack)) → All (λ e. Falls n e.1) m → All Nested (close_stacks m)
unfolding close_stacks
close_stacks-Nested n [] h = tt
close_stacks-Nested n (((thread, domain), s) ∷ m) h =
    All-append Nested (close_stack thread s) (close_stacks m) (close_stack-Nested n thread s h.0)
      (close_stacks-Nested n m h.1)

entries-Falls :
    (n : ℕ) (m : PushPopRanges) → AllEntries (λ k s. Falls n s) m → All (λ e. Falls n e.1) m
entries-Falls n [] h = tt
entries-Falls n ((k, s) ∷ m) h = (h.0, entries-Falls n m h.1)

fill_all-Nested :
    (slots : List (Option NvtxSpan)) (closed : List (SpanId × NvtxSpan))
    → All Nested closed
    → NestedFrom 0 slots
    → NestedFrom 0 (fill_all slots closed)
unfolding fill_all
fill_all-Nested slots [] c h = h
fill_all-Nested slots ((id, s) ∷ closed) c h =
    fill_all-Nested (fill slots id s) closed c.1 (NestedFrom-fill slots id s c.0 h)

append-nested :
    (i : ℕ) (slots : List (Option NvtxSpan)) (spans : List NvtxSpan)
    → All (λ s. parent s.kind ≡ none) spans
    → NestedFrom i slots
    → NestedFrom i (slots ++ map some spans)
append-nested i [] [] r h = tt
append-nested i [] (s ∷ spans) r h = (rw r.0 tt, append-nested (i + 1) [] spans r.1 tt)
append-nested i (x ∷ xs) spans r h = (h.0, append-nested (i + 1) xs spans r h.1)

leaked_ranges-root :
    (m : Ranges.StartEndRanges)
    → All
        (λ (s : NvtxSpan). parent s.kind ≡ none)
        (map (λ (e : ℕ × Ranges.OpenRange). Ranges.close e.1 none start_end) m)
unfolding Ranges.close parent
leaked_ranges-root [] = tt
leaked_ranges-root (e ∷ m) = (refl, leaked_ranges-root m)

leaked_resources-root :
    (m : Resource.Resources)
    → All
        (λ (s : NvtxSpan). parent s.kind ≡ none)
        (map (λ (e : ℕ × Resource.OpenResource). Resource.close e.1 none) m)
unfolding Resource.close parent
leaked_resources-root [] = tt
leaked_resources-root (e ∷ m) = (refl, leaked_resources-root m)

drain-nested : (r : Replay) → IsNested r → NestedFrom 0 (drain r)
unfolding drain Ranges.drain_unclosed Resource.drain_unclosed Ranges.drain_unpopped
drain-nested r h =
    fill_all-Nested _ _
      (close_stacks-Nested (length r.slots) (sort_by later_stack r.pushes) (
        All-sort_by later_stack (λ e. Falls (length r.slots) e.1) r.pushes
          (entries-Falls (length r.slots) r.pushes h.pushes)))
      (append-nested 0 _ _ (leaked_resources-root (sort_by Resource.later_resource r.resources)) (
        append-nested 0 r.slots _ (leaked_ranges-root (sort_by Ranges.later_range r.ranges))
          h.slots))

span-nested :
    (i j : ℕ) (spans : List NvtxSpan) (s : NvtxSpan)
    → NestedFrom i (map some spans)
    → get_elem? spans j ≡ some s
    → Below (i + j) (parent s.kind)
span-nested i j [] s h e = cc
span-nested i zero (x ∷ xs) s h e =
    let same : x ≡ s = ground arith in let z : i + 0 ≡ i = omega arith in rw (z, ← same) h.0
span-nested i (suc j) (x ∷ xs) s h e =
    let z : i + suc j ≡ i + 1 + j = omega arith in rw z (span-nested (i + 1) j xs s h.1 e)

get_elem?-some :
    (spans : List NvtxSpan) (i : ℕ)
    → i < length spans
    → (s : NvtxSpan) × (get_elem? spans i ≡ some s)
get_elem?-some [] i h = absurd (omega arith)
get_elem?-some (x ∷ xs) zero h = (x, refl)
get_elem?-some (x ∷ xs) (suc i) h = get_elem?-some xs i (omega arith)

-- The parent that a span of a model names has a smaller id than the span, and is a span of the model: a
-- parent was opened before its child, and no chain of parents comes back to its start.
pub parent_resolves :
    (events : List (Event NvtxEvent)) (i p : SpanId) (s : NvtxSpan)
    → span (build events) i ≡ some s
    → parent s.kind ≡ some p
    → (p < i) × ((q : NvtxSpan) × (span (build events) p ≡ some q))
unfolding span
parent_resolves events i p s found named =
    let ordered = Collector.collect stamp events in
    let spans = (build events).spans in
    let start : IsNested no_replay = record { pushes = tt; slots = tt } in
    let nested : NestedFrom 0 (map some spans) = rw (spans-eq-slots events) (
      drain-nested (replayed ordered)
        (unfold replayed in replay-IsNested (Tables.build ordered) no_replay ordered start)) in
    let below = span-nested 0 i spans s nested found in
    let lt : p < 0 + i = rw named at below in
    let room = lt-length_of_get_elem? spans i s found in
    (omega arith, get_elem?-some spans p (omega arith))
