-- ===== src/Nvtx/Replay/Times.antt =====
-- Over a stream in timestamp order, what closes a range or a lifespan is never earlier than its open.
use quent.Base.{
  ℕ, ◌≤◌, inl, inr, Option, none, some, List, [], ◌∷◌, arith, Option-cases, Eq, nat_eq, pair_eq,
  option_eq, list_eq, All, All-append, All-set, All-map,
}
use quent.Base.Assoc.{
  Assoc, lookup, AllEntries, AllEntries-insert, AllEntries-remove, lookup-AllEntries,
}
use quent.Events.{Event}
use quent.Time.Collector.Order.{From, IsOrdered}
use quent.Nvtx.Event.{
  NvtxEvent, range_push, range_pop, range_start, range_end, mark, resource_create, resource_destroy,
}
use quent.Nvtx.Span.{NvtxSpan, start_end}
use quent.Nvtx.Ranges
use quent.Nvtx.Ranges.{
  OpenRange, PushPopRanges, Stack, StackKey, OpenPushSpan, stack_of, pop_stack, store,
}
use quent.Nvtx.Resource
use quent.Nvtx.Resource.{OpenResource}
use quent.Nvtx.Tables.{ResolutionTables}
use quent.Nvtx.Replay.{
  Replay, fill, reserve, fill_closed, advance, on_range_start, on_range_end, on_range_push,
  on_range_pop, on_mark, on_resource_create, on_resource_destroy, dispatch, replay,
}

-- The end is not before the start, where it was captured.
abbrev pub EndsAfter : ℕ → Option ℕ → Type 0
EndsAfter start none = Unit
EndsAfter start (some end) = start ≤ end

abbrev pub IsTimed : NvtxSpan → Type 0
IsTimed s = EndsAfter s.start s.end

abbrev pub SlotIsTimed : Option NvtxSpan → Type 0
SlotIsTimed none = Unit
SlotIsTimed (some s) = IsTimed s

abbrev pub StackBefore : ℕ → Stack → Type 0
StackBefore t s = All (λ p. p.range.start ≤ t) s

-- What is open was opened by the time `t`, and what is closed is timed.
pub record IsTimely (t : ℕ) (r : Replay) : Type 0 where
  pub ranges : AllEntries (λ k (o : OpenRange). o.start ≤ t) r.ranges
  pub pushes : AllEntries (λ k s. StackBefore t s) r.pushes
  pub resources : AllEntries (λ k (o : OpenResource). o.start ≤ t) r.resources
  pub slots : All SlotIsTimed r.slots

AllEntries-map {ℓ κ} :
    {K : Type ℓ} {V : Type κ} ⦃e : Eq K⦄ (P Q : K → V → Type 0)
    → ((k : K) (v : V) → P k v → Q k v)
    → (m : Assoc K V) → AllEntries P m
    → AllEntries Q m
AllEntries-map P Q f [] h = tt
AllEntries-map P Q f ((k, v) ∷ m) h = (f k v h.0, AllEntries-map P Q f m h.1)

IsTimely-later : (t u : ℕ) (r : Replay) → t ≤ u → IsTimely t r → IsTimely u r
IsTimely-later t u r le h = record {
  ranges =
      AllEntries-map (λ k (o : OpenRange). o.start ≤ t) (λ k (o : OpenRange). o.start ≤ u)
        (λ k o p. omega arith) r.ranges h.ranges;
  pushes =
      AllEntries-map (λ k s. StackBefore t s) (λ k s. StackBefore u s)
        (λ k s p. All-map (λ x q. omega arith) s p) r.pushes h.pushes;
  resources =
      AllEntries-map (λ k (o : OpenResource). o.start ≤ t) (λ k (o : OpenResource). o.start ≤ u)
        (λ k o p. omega arith) r.resources h.resources;
  slots = h.slots;
}

All-reserve :
    (o : Option NvtxSpan) (slots : List (Option NvtxSpan))
    → SlotIsTimed o
    → All SlotIsTimed slots
    → All SlotIsTimed (reserve o slots)
All-reserve none slots p h = h
All-reserve (some s) slots p h = All-append SlotIsTimed slots (some s ∷ []) h (p, tt)

module _ (t : ℕ) where
  closed_as-IsTimed :
      (k : ℕ) (m : Ranges.StartEndRanges) (end : Option ℕ)
      → ((start : ℕ) → start ≤ t → EndsAfter start end)
      → AllEntries (λ k (o : OpenRange). o.start ≤ t) m
      → SlotIsTimed (Ranges.closed_as (lookup k m) end start_end)
  closed_as-IsTimed k m end f h = elim (Option-cases (lookup k m)) [
    | inl e ↦ rw e tt
    | inr (o, e) ↦ rw e (
        unfold Ranges.close in
        f o.start (lookup-AllEntries (λ k (o : OpenRange). o.start ≤ t) k m h e))
  ]

  closed-IsTimed :
      (k : ℕ) (m : Resource.Resources) (end : Option ℕ)
      → ((start : ℕ) → start ≤ t → EndsAfter start end)
      → AllEntries (λ k (o : OpenResource). o.start ≤ t) m
      → SlotIsTimed (Resource.closed (lookup k m) end)
  closed-IsTimed k m end f h = elim (Option-cases (lookup k m)) [
    | inl e ↦ rw e tt
    | inr (o, e) ↦ rw e (
        unfold Resource.close in
        f o.start (lookup-AllEntries (λ k (o : OpenResource). o.start ≤ t) k m h e))
  ]

  stack_of-Before :
      (k : StackKey) (m : PushPopRanges)
      → AllEntries (λ k s. StackBefore t s) m
      → StackBefore t (stack_of (lookup k m))
  stack_of-Before k m h = elim (Option-cases (lookup k m)) [
    | inl e ↦ rw e tt
    | inr (s, e) ↦ rw e (lookup-AllEntries (λ k s. StackBefore t s) k m h e)
  ]

  store-Before :
      (k : StackKey) (s : Stack) (m : PushPopRanges)
      → StackBefore t s
      → AllEntries (λ k s. StackBefore t s) m
      → AllEntries (λ k s. StackBefore t s) (store k s m)
  store-Before k [] m p h = AllEntries-remove (λ k s. StackBefore t s) k m h
  store-Before k (q ∷ s) m p h = AllEntries-insert (λ k s. StackBefore t s) k (q ∷ s) m p h

  pop_stack-timely :
      (k : StackKey) (s : Stack) (m : PushPopRanges) (slots : List (Option NvtxSpan))
      → StackBefore t s
      → AllEntries (λ k s. StackBefore t s) m
      → All SlotIsTimed slots
      → AllEntries (λ k s. StackBefore t s) (pop_stack k t s m).0
        × All SlotIsTimed (fill_closed (pop_stack k t s m).1 slots)
  unfolding fill Ranges.close_push Ranges.close
  pop_stack-timely k [] m slots p h g = (h, g)
  pop_stack-timely k (q ∷ s) m slots p h g =
      let closed = Ranges.close_push q (some t) k.0 (Ranges.enclosing s) in
      (store-Before k s m p.1 h, All-set SlotIsTimed slots closed.0 (some closed.1) p.0 g)

  -- An event at the time `t` keeps the replay timely.
  dispatch-IsTimely :
      (tables : ResolutionTables) (r : Replay) (e : NvtxEvent)
      → IsTimely t r
      → IsTimely t (dispatch tables r t e)
  unfolding dispatch
  dispatch-IsTimely tables r (range_start d i a) h =
      unfold on_range_start Ranges.new in
      record {
        ranges =
            AllEntries-insert (λ k (o : OpenRange). o.start ≤ t) i _ r.ranges (omega arith)
              h.ranges;
        pushes = h.pushes;
        resources = h.resources;
        slots =
            All-reserve _ r.slots (closed_as-IsTimed i r.ranges none (λ s le. tt) h.ranges) h.slots;
      }
  dispatch-IsTimely tables r (range_end d i) h =
      unfold on_range_end in
      record {
        ranges = AllEntries-remove (λ k (o : OpenRange). o.start ≤ t) i r.ranges h.ranges;
        pushes = h.pushes;
        resources = h.resources;
        slots =
            All-reserve _ r.slots (closed_as-IsTimed i r.ranges (some t) (λ s le. le) h.ranges)
              h.slots;
      }
  dispatch-IsTimely tables r (range_push d i a) h =
      unfold on_range_push Ranges.push Ranges.new in
      record {
        ranges = h.ranges;
        pushes =
            AllEntries-insert (λ k s. StackBefore t s) (i, d) _ r.pushes
              (omega arith, stack_of-Before (i, d) r.pushes h.pushes) h.pushes;
        resources = h.resources;
        slots = All-append SlotIsTimed r.slots (none ∷ []) h.slots (tt, tt);
      }
  dispatch-IsTimely tables r (range_pop d i) h =
      let both =
        pop_stack-timely (i, d) (stack_of (lookup (i, d) r.pushes)) r.pushes r.slots
          (stack_of-Before (i, d) r.pushes h.pushes) h.pushes h.slots in
      unfold on_range_pop in
      record { ranges = h.ranges; pushes = both.0; resources = h.resources; slots = both.1 }
  dispatch-IsTimely tables r (resource_create d k i b m) h =
      unfold on_resource_create in
      record {
        ranges = h.ranges;
        pushes = h.pushes;
        resources =
            AllEntries-insert (λ k (o : OpenResource). o.start ≤ t) k _ r.resources (omega arith)
              h.resources;
        slots =
            All-reserve _ r.slots (closed-IsTimed k r.resources none (λ s le. tt) h.resources)
              h.slots;
      }
  dispatch-IsTimely tables r (resource_destroy k) h =
      unfold on_resource_destroy in
      record {
        ranges = h.ranges;
        pushes = h.pushes;
        resources =
            AllEntries-remove (λ k (o : OpenResource). o.start ≤ t) k r.resources h.resources;
        slots =
            All-reserve _ r.slots (closed-IsTimed k r.resources (some t) (λ s le. le) h.resources)
              h.slots;
      }
  dispatch-IsTimely tables r (mark d a) h =
      unfold on_mark in
      record { ranges = h.ranges; pushes = h.pushes; resources = h.resources; slots = h.slots }
  dispatch-IsTimely tables r _ h = h

abbrev stamped : Event NvtxEvent → ℕ
stamped event = event.timestamp

-- Over an ordered stream the replay stays timely, up to the time of its last event.
pub replay-IsTimely :
    (tables : ResolutionTables) (t : ℕ) (r : Replay) (events : List (Event NvtxEvent))
    → From stamped t events
    → IsOrdered stamped events
    → IsTimely t r
    → (u : ℕ) × IsTimely u (replay tables r events)
unfolding replay
replay-IsTimely tables t r [] f o h = (t, h)
replay-IsTimely tables t r (event ∷ events) f o h =
    let ts = event.timestamp in
    let advanced : IsTimely ts (advance r ts) =
      let later = IsTimely-later t ts r f.0 h in
      unfold advance in
      record {
        ranges = later.ranges;
        pushes = later.pushes;
        resources = later.resources;
        slots = later.slots;
      } in
    replay-IsTimely tables ts (dispatch tables (advance r ts) ts event.payload) events o.0 o.1
      (dispatch-IsTimely ts tables (advance r ts) event.payload advanced)
