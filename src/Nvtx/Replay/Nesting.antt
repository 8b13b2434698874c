-- ===== src/Nvtx/Replay/Nesting.antt =====
-- The parent of a push is a push that was opened before it: ids fall along each stack.
use quent.Base.{
  ℕ, zero, suc, ◌+◌, ◌≤◌, ◌<◌, ◌≡◌, refl, inl, inr, Option, none, some, List, [], ◌∷◌, ◌++◌, arith,
  Option-cases, nat_eq, pair_eq, option_eq, list_eq, length, set, length-append,
}
use quent.Base.Assoc.{lookup, AllEntries, AllEntries-insert, AllEntries-remove, lookup-AllEntries}
use quent.Events.{Event}
use quent.Nvtx.Event.{
  NvtxEvent, range_push, range_pop, range_start, range_end, mark, resource_create, resource_destroy,
}
use quent.Nvtx.Span.{NvtxSpan, SpanId, start_end, parent}
use quent.Nvtx.Ranges
use quent.Nvtx.Ranges.{
  OpenRange, PushPopRanges, Stack, StackKey, OpenPushSpan, stack_of, pop_stack, store, enclosing,
}
use quent.Nvtx.Resource
use quent.Nvtx.Replay.Counts.{length-fill_closed}
use quent.Nvtx.Tables.{ResolutionTables}
use quent.Nvtx.Replay.{
  Replay, fill, reserve, fill_closed, advance, on_range_start, on_range_end, on_range_push,
  on_range_pop, on_mark, on_resource_create, on_resource_destroy, dispatch, replay,
}

abbrev pub Below : ℕ → Option SpanId → Type 0
Below i none = Unit
Below i (some p) = p < i

-- The slot of an id holds no span yet, or one whose parent has a smaller id.
abbrev pub SlotNested : ℕ → Option NvtxSpan → Type 0
SlotNested i none = Unit
SlotNested i (some s) = Below i (parent s.kind)

abbrev pub NestedFrom : ℕ → List (Option NvtxSpan) → Type 0
NestedFrom i [] = Unit
NestedFrom i (x ∷ xs) = SlotNested i x × NestedFrom (i + 1) xs

-- The ids of a stack are below the bound and fall from its top.
abbrev pub Falls : ℕ → Stack → Type 0
Falls n [] = Unit
Falls n (p ∷ s) = (p.id < n) × Falls p.id s

pub record IsNested (r : Replay) : Type 0 where
  pub pushes : AllEntries (λ k s. Falls (length r.slots) s) r.pushes
  pub slots : NestedFrom 0 r.slots

Falls-more : (n m : ℕ) (s : Stack) → n ≤ m → Falls n s → Falls m s
Falls-more n m [] le h = tt
Falls-more n m (p ∷ s) le h = (omega arith, h.1)

pub Below-enclosing : (n : ℕ) (s : Stack) → Falls n s → Below n (enclosing s)
Below-enclosing n [] h = tt
Below-enclosing n (p ∷ s) h = h.0

AllFalls-more :
    (n k : ℕ) (m : PushPopRanges)
    → n ≤ k
    → AllEntries (λ key s. Falls n s) m
    → AllEntries (λ key s. Falls k s) m
AllFalls-more n k [] le h = tt
AllFalls-more n k ((key, s) ∷ m) le h = (Falls-more n k s le h.0, AllFalls-more n k m le h.1)

NestedFrom-append :
    (i : ℕ) (xs : List (Option NvtxSpan)) (y : Option NvtxSpan)
    → SlotNested (i + length xs) y
    → NestedFrom i xs
    → NestedFrom i (xs ++ y ∷ [])
NestedFrom-append i [] y p h = let e : i + 0 ≡ i = omega arith in (rw e at p, tt)
NestedFrom-append i (x ∷ xs) y p h =
    let e : i + suc (length xs) ≡ i + 1 + length xs = omega arith in
    (h.0, NestedFrom-append (i + 1) xs y (rw e at p) h.1)

pub NestedFrom-set :
    (i j : ℕ) (xs : List (Option NvtxSpan)) (y : Option NvtxSpan)
    → SlotNested (i + j) y
    → NestedFrom i xs
    → NestedFrom i (set xs j y)
NestedFrom-set i j [] y p h = tt
NestedFrom-set i zero (x ∷ xs) y p h = let e : i + 0 ≡ i = omega arith in (rw e at p, h.1)
NestedFrom-set i (suc j) (x ∷ xs) y p h =
    let e : i + suc j ≡ i + 1 + j = omega arith in
    (h.0, NestedFrom-set (i + 1) j xs y (rw e at p) h.1)

pub NestedFrom-fill :
    (slots : List (Option NvtxSpan)) (id : ℕ) (s : NvtxSpan)
    → Below id (parent s.kind)
    → NestedFrom 0 slots
    → NestedFrom 0 (fill slots id s)
unfolding fill
NestedFrom-fill slots id s p h =
    let e : 0 + id ≡ id = omega arith in NestedFrom-set 0 id slots (some s) (rw e p) h

-- A span of another kind has no parent.
IsRoot : Option NvtxSpan → Type 0
IsRoot none = Unit
IsRoot (some s) = parent s.kind ≡ none

reserve-nested :
    (o : Option NvtxSpan) (slots : List (Option NvtxSpan)) (m : PushPopRanges)
    → IsRoot o
    → AllEntries (λ k s. Falls (length slots) s) m
    → NestedFrom 0 slots
    → AllEntries (λ k s. Falls (length (reserve o slots)) s) m × NestedFrom 0 (reserve o slots)
unfolding IsRoot
reserve-nested none slots m root h g = (h, g)
reserve-nested (some s) slots m root h g =
    let e = length-append slots (some s ∷ []) in
    (
      rw e (AllFalls-more (length slots) (length slots + 1) m (omega arith) h),
      NestedFrom-append 0 slots (some s) (rw root tt) g,
    )

closed_as-IsRoot :
    (o : Option OpenRange) (end : Option ℕ) → IsRoot (Ranges.closed_as o end start_end)
unfolding IsRoot Ranges.close parent
closed_as-IsRoot none end = tt
closed_as-IsRoot (some o) end = refl

closed-IsRoot : (o : Option Resource.OpenResource) (end : Option ℕ) → IsRoot (Resource.closed o end)
unfolding IsRoot Resource.close parent
closed-IsRoot none end = tt
closed-IsRoot (some o) end = refl

store-Falls :
    (n : ℕ) (k : StackKey) (s : Stack) (m : PushPopRanges)
    → Falls n s
    → AllEntries (λ k s. Falls n s) m
    → AllEntries (λ k s. Falls n s) (store k s m)
store-Falls n k [] m p h = AllEntries-remove (λ k s. Falls n s) k m h
store-Falls n k (q ∷ s) m p h = AllEntries-insert (λ k s. Falls n s) k (q ∷ s) m p h

pop_stack-nested :
    (n ts : ℕ) (k : StackKey) (s : Stack) (m : PushPopRanges) (slots : List (Option NvtxSpan))
    → Falls n s
    → AllEntries (λ k s. Falls n s) m
    → NestedFrom 0 slots
    → AllEntries (λ k s. Falls n s) (pop_stack k ts s m).0
      × NestedFrom 0 (fill_closed (pop_stack k ts s m).1 slots)
pop_stack-nested n ts k [] m slots f h g = (h, g)
pop_stack-nested n ts k (p ∷ s) m slots f h g =
    let closed = Ranges.close_push p (some ts) k.0 (enclosing s) in
    let below : Below closed.0 (parent closed.1.kind) =
      unfold Ranges.close_push Ranges.close parent in Below-enclosing p.id s f.1 in
    (
      store-Falls n k s m (Falls-more p.id n s (omega arith) f.1) h,
      NestedFrom-fill slots closed.0 closed.1 below g,
    )

stack_of-Falls :
    (n : ℕ) (k : StackKey) (m : PushPopRanges)
    → AllEntries (λ k s. Falls n s) m
    → Falls n (stack_of (lookup k m))
stack_of-Falls n k m h = elim (Option-cases (lookup k m)) [
  | inl e ↦ rw e tt
  | inr (s, e) ↦ rw e (lookup-AllEntries (λ k s. Falls n s) k m h e)
]

dispatch-IsNested :
    (tables : ResolutionTables) (r : Replay) (ts : ℕ) (e : NvtxEvent)
    → IsNested r
    → IsNested (dispatch tables r ts e)
unfolding dispatch
dispatch-IsNested tables r ts (range_start d i a) h =
    let both =
      reserve-nested (Ranges.closed_as (lookup i r.ranges) none start_end) r.slots r.pushes
        (closed_as-IsRoot (lookup i r.ranges) none) h.pushes h.slots in
    unfold on_range_start in record { pushes = both.0; slots = both.1 }
dispatch-IsNested tables r ts (range_end d i) h =
    let both =
      reserve-nested (Ranges.closed_as (lookup i r.ranges) (some ts) start_end) r.slots r.pushes
        (closed_as-IsRoot (lookup i r.ranges) (some ts)) h.pushes h.slots in
    unfold on_range_end in record { pushes = both.0; slots = both.1 }
dispatch-IsNested tables r ts (range_push d i a) h =
    let n = length r.slots in
    let e = length-append r.slots (none ∷ []) in
    unfold on_range_push Ranges.push in
    record {
      pushes = rw e (
          AllEntries-insert (λ k s. Falls (n + 1) s) (i, d) _ r.pushes
            (omega arith, stack_of-Falls n (i, d) r.pushes h.pushes)
            (AllFalls-more n (n + 1) r.pushes (omega arith) h.pushes));
      slots = NestedFrom-append 0 r.slots none tt h.slots;
    }
dispatch-IsNested tables r ts (range_pop d i) h =
    let n = length r.slots in
    let s = stack_of (lookup (i, d) r.pushes) in
    let both =
      pop_stack-nested n ts (i, d) s r.pushes r.slots (stack_of-Falls n (i, d) r.pushes h.pushes)
        h.pushes h.slots in
    let e = length-fill_closed (pop_stack (i, d) ts s r.pushes).1 r.slots in
    unfold on_range_pop in record { pushes = rw e both.0; slots = both.1 }
dispatch-IsNested tables r ts (resource_create d k i b m) h =
    let both =
      reserve-nested (Resource.closed (lookup k r.resources) none) r.slots r.pushes
        (closed-IsRoot (lookup k r.resources) none) h.pushes h.slots in
    unfold on_resource_create in record { pushes = both.0; slots = both.1 }
dispatch-IsNested tables r ts (resource_destroy k) h =
    let both =
      reserve-nested (Resource.closed (lookup k r.resources) (some ts)) r.slots r.pushes
        (closed-IsRoot (lookup k r.resources) (some ts)) h.pushes h.slots in
    unfold on_resource_destroy in record { pushes = both.0; slots = both.1 }
dispatch-IsNested tables r ts (mark d a) h =
    unfold on_mark in record { pushes = h.pushes; slots = h.slots }
dispatch-IsNested tables r ts _ h = h

pub replay-IsNested :
    (tables : ResolutionTables) (r : Replay) (events : List (Event NvtxEvent))
    → IsNested r
    → IsNested (replay tables r events)
unfolding replay
replay-IsNested tables r [] h = h
replay-IsNested tables r (event ∷ events) h =
    let s = advance r event.timestamp in
    let advanced : IsNested s = unfold advance in record { pushes = h.pushes; slots = h.slots } in
    replay-IsNested tables (dispatch tables s event.timestamp event.payload) events
      (dispatch-IsNested tables s event.timestamp event.payload advanced)
