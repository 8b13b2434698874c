-- ===== src/Nvtx/Replay/Slots.antt =====
-- A slot without a span is reserved for a push that is still open, at every moment of the replay.
use quent.Base.{
  ℕ, zero, suc, ◌≡◌, refl, ap, ◌≢◌, ◌⊎◌, inl, inr, Option, none, some, List, [], ◌∷◌, ◌++◌, arith,
  eqb, Bool-cases, ◌==◌, nat_eq, pair_eq, option_eq, list_eq, length, get_elem?, set, length-set,
  get_elem?-set_self, get_elem?-set_ne, lt-length_of_get_elem?, Any,
}
use mathlib.Core.Logic.{⊎_elim}
use quent.Base.Assoc.{lookup, insert, remove}
use quent.Events.{Event}
use quent.Nvtx.Event.{
  NvtxEvent, range_push, range_pop, range_start, range_end, mark, resource_create, resource_destroy,
}
use quent.Nvtx.Span.{NvtxSpan, SpanId}
use quent.Nvtx.Ranges
use quent.Nvtx.Ranges.{PushPopRanges, Stack, StackKey, OpenPushSpan, stack_of, pop_stack, store}
use quent.Nvtx.Tables.{ResolutionTables}
use quent.Nvtx.Replay.{
  Replay, fill, reserve, fill_closed, advance, on_range_start, on_range_end, on_range_push,
  on_range_pop, on_mark, on_resource_create, on_resource_destroy, dispatch, replay,
}

abbrev pub IsHole : List (Option NvtxSpan) → ℕ → Type 0
IsHole slots i = get_elem? slots i ≡ some none

abbrev pub InStack : SpanId → Stack → Type 0
InStack i s = Any (λ p. p.id ≡ i) s

-- The id is that of an open push.
abbrev pub InStacks : SpanId → PushPopRanges → Type 0
InStacks i m = Any (λ entry. InStack i entry.1) m

module _ (i : SpanId) (key : StackKey) where
  InStacks-insert_new : (s : Stack) (m : PushPopRanges) → InStack i s → InStacks i (insert key s m)
  unfolding insert
  InStacks-insert_new s [] h = inl h
  InStacks-insert_new s ((j, w) ∷ m) h = elim (Bool-cases (j == key)) [
    | inl e ↦ rw e (inl h)
    | inr e ↦ rw e (inr (InStacks-insert_new s m h))
  ]

  -- A stack is replaced by one that holds the id if the old one did.
  InStacks-insert :
      (s : Stack) (m : PushPopRanges)
      → (InStack i (stack_of (lookup key m)) → InStack i s)
      → InStacks i m
      → InStacks i (insert key s m)
  unfolding insert lookup
  InStacks-insert s [] kept h = absurd h
  InStacks-insert s ((j, w) ∷ m) kept h = elim (Bool-cases (j == key)) [
    | inl e ↦ let kept' = rw e at kept in rw e (⊎_elim (λ here. inl (kept' here)) inr h)
    | inr e ↦
        let kept' = rw e at kept in
        rw e (⊎_elim inl (λ rest. inr (InStacks-insert s m kept' rest)) h)
  ]

  InStacks-remove :
      (m : PushPopRanges)
      → ¬ InStack i (stack_of (lookup key m))
      → InStacks i m
      → InStacks i (remove key m)
  unfolding remove lookup
  InStacks-remove [] gone h = h
  InStacks-remove ((j, w) ∷ m) gone h = elim (Bool-cases (j == key)) [
    | inl e ↦
        let gone' = rw e at gone in rw e (⊎_elim (λ here. absurd (gone' here)) (λ rest. rest) h)
    | inr e ↦
        let gone' = rw e at gone in rw e (⊎_elim inl (λ rest. inr (InStacks-remove m gone' rest)) h)
  ]

  -- Of the ids of a stack, a pop takes only that of its top.
  InStacks-pop :
      (p : OpenPushSpan) (s : Stack) (m : PushPopRanges)
      → stack_of (lookup key m) ≡ p ∷ s
      → p.id ≢ i
      → InStacks i m
      → InStacks i (store key s m)
  InStacks-pop p [] m e ne h =
      InStacks-remove m (λ old. ⊎_elim ne (λ none_left. none_left) (rw e at old)) h
  InStacks-pop p (q ∷ s) m e ne h =
      InStacks-insert (q ∷ s) m
        (λ old. ⊎_elim (λ top. absurd (ne top)) (λ rest. rest) (rw e at old)) h

abbrev pub Covered : Replay → Type 0
Covered r = (i : ℕ) → IsHole r.slots i → InStacks i r.pushes

IsHole-append_some :
    (slots : List (Option NvtxSpan)) (s : NvtxSpan) (i : ℕ)
    → IsHole (slots ++ some s ∷ []) i
    → IsHole slots i
IsHole-append_some [] s zero h = cc
IsHole-append_some [] s (suc i) h = h
IsHole-append_some (x ∷ xs) s zero h = h
IsHole-append_some (x ∷ xs) s (suc i) h = IsHole-append_some xs s i h

IsHole-append_none :
    (slots : List (Option NvtxSpan)) (i : ℕ)
    → IsHole (slots ++ none ∷ []) i
    → IsHole slots i ⊎ (length slots ≡ i)
IsHole-append_none [] zero h = inr refl
IsHole-append_none [] (suc i) h = inl h
IsHole-append_none (x ∷ xs) zero h = inl h
IsHole-append_none (x ∷ xs) (suc i) h = ⊎_elim inl (λ e. inr (ap suc e)) (IsHole-append_none xs i h)

IsHole-reserve :
    (o : Option NvtxSpan) (slots : List (Option NvtxSpan)) (i : ℕ)
    → IsHole (reserve o slots) i
    → IsHole slots i
IsHole-reserve none slots i h = h
IsHole-reserve (some s) slots i h = IsHole-append_some slots s i h

-- A slot that is filled is no hole, and the others are as they were.
pub IsHole-fill :
    (slots : List (Option NvtxSpan)) (id : SpanId) (s : NvtxSpan) (i : ℕ)
    → IsHole (fill slots id s) i
    → IsHole slots i × (id ≢ i)
unfolding fill
IsHole-fill slots id s i h = elim (Bool-cases (eqb id i)) [
  | inl here ↦
      let same : id ≡ i = ground arith in
      let room = lt-length_of_get_elem? (set slots id (some s)) i none h in
      let filled =
        get_elem?-set_self slots id (some s) (omega (arith, length-set slots id (some s))) in
      absurd (let filled' = rw same at filled in let h' = rw same at h in cc)
  | inr apart ↦
      let ne : id ≢ i = ground arith in ((rw (get_elem?-set_ne slots id i (some s) ne) at h), ne)
]

pop_stack-Covered :
    (key : StackKey) (ts : ℕ) (s : Stack) (m : PushPopRanges) (slots : List (Option NvtxSpan))
    → stack_of (lookup key m) ≡ s
    → ((i : ℕ) → IsHole slots i → InStacks i m)
    → (i : ℕ) → IsHole (fill_closed (pop_stack key ts s m).1 slots) i
    → InStacks i (pop_stack key ts s m).0
pop_stack-Covered key ts [] m slots e c i h = c i h
pop_stack-Covered key ts (p ∷ s) m slots e c i h =
    let closed = Ranges.close_push p (some ts) key.0 (Ranges.enclosing s) in
    let (old, ne) = IsHole-fill slots closed.0 closed.1 i h in
    InStacks-pop i key p s m e (unfold Ranges.close_push in ne) (c i old)

Covered-pop : (r : Replay) (ts d t : ℕ) → Covered r → Covered (on_range_pop r ts d t)
unfolding on_range_pop
Covered-pop r ts d t c i h =
    pop_stack-Covered (t, d) ts (stack_of (lookup (t, d) r.pushes)) r.pushes r.slots refl c i h

Covered-push :
    (tables : ResolutionTables) (r : Replay) (ts d t : ℕ) (a : _)
    → Covered r
    → Covered (on_range_push tables r ts d t a)
unfolding on_range_push Ranges.push
Covered-push tables r ts d t a c i h =
    ⊎_elim (λ old. InStacks-insert i (t, d) _ r.pushes inr (c i old))
      (λ new. InStacks-insert_new i (t, d) _ r.pushes (inl new)) (IsHole-append_none r.slots i h)

Covered-dispatch :
    (tables : ResolutionTables) (r : Replay) (ts : ℕ) (e : NvtxEvent)
    → Covered r
    → Covered (dispatch tables r ts e)
unfolding dispatch
Covered-dispatch tables r ts (range_start d i a) c j h =
    unfold on_range_start in c j (IsHole-reserve _ r.slots j h)
Covered-dispatch tables r ts (range_end d i) c j h =
    unfold on_range_end in c j (IsHole-reserve _ r.slots j h)
Covered-dispatch tables r ts (range_push d t a) c j h = Covered-push tables r ts d t a c j h
Covered-dispatch tables r ts (range_pop d t) c j h = Covered-pop r ts d t c j h
Covered-dispatch tables r ts (resource_create d k i b m) c j h =
    unfold on_resource_create in c j (IsHole-reserve _ r.slots j h)
Covered-dispatch tables r ts (resource_destroy k) c j h =
    unfold on_resource_destroy in c j (IsHole-reserve _ r.slots j h)
Covered-dispatch tables r ts (mark d a) c j h = unfold on_mark in c j h
Covered-dispatch tables r ts _ c j h = c j h

pub Covered-replay :
    (tables : ResolutionTables) (r : Replay) (events : List (Event NvtxEvent))
    → Covered r
    → Covered (replay tables r events)
unfolding replay
Covered-replay tables r [] c = c
Covered-replay tables r (event ∷ events) c =
    Covered-replay tables
      (dispatch tables (advance r event.timestamp) event.timestamp event.payload) events
      (Covered-dispatch tables (advance r event.timestamp) event.timestamp event.payload
        (unfold advance in c))
