-- ===== src/Nvtx/Ranges.antt =====
-- integrations/nvtx/analyzer/src/ranges.rs: ranges that wait for what closes them. `close` has the
-- value of a build without debug assertions; that its precondition holds is proved of the replay.
use quent.Base.{
  ℕ, Bool, ◌&&◌, ◌||◌, Option, none, some, List, [], ◌∷◌, ◌++◌, map, ltb, eqb, nat_eq, pair_eq,
  option_eq, list_eq,
}
use quent.Base.Assoc.{Assoc, lookup, insert, remove}
use quent.Base.Sort.{sort_by}
use quent.Base.Text.{Text}
use quent.Nvtx.Event.{NvtxColor, NvtxPayload, NvtxEventAttributes}
use quent.Nvtx.Span.{SpanId, SpanKind, push_pop, start_end, NvtxSpan, category_id}

pub record OpenRange : Type 0 where
  pub domain : ℕ
  pub name : Text
  pub category : Option ℕ
  pub color : Option NvtxColor
  pub payload : Option NvtxPayload
  pub start : ℕ

unfoldable pub new : ℕ → Text → NvtxEventAttributes → ℕ → OpenRange
unfolding category_id
new domain name attributes start = record {
  domain = domain;
  name = name;
  category = category_id attributes.category;
  color = attributes.color;
  payload = attributes.payload;
  start = start;
}

unfoldable pub close : OpenRange → Option ℕ → SpanKind → NvtxSpan
close r end kind = record {
  domain = r.domain;
  name = r.name;
  category = r.category;
  color = r.color;
  payload = r.payload;
  start = r.start;
  end = end;
  kind = kind;
}

abbrev pub closed_as : Option OpenRange → Option ℕ → SpanKind → Option NvtxSpan
closed_as none end kind = none
closed_as (some r) end kind = some (close r end kind)

-- The open ranges, by their ids.
abbrev pub StartEndRanges : Type 0
StartEndRanges = Assoc ℕ OpenRange

-- The span that comes back is that of a range displaced under the same id.
unfoldable pub start :
    StartEndRanges → ℕ → ℕ → Text → NvtxEventAttributes → ℕ → StartEndRanges × Option NvtxSpan
start ranges range_id domain name attributes at = (
  insert range_id (new domain name attributes at) ranges,
  closed_as (lookup range_id ranges) none start_end,
)

unfoldable pub end : StartEndRanges → ℕ → ℕ → StartEndRanges × Option NvtxSpan
end ranges range_id at =
    (remove range_id ranges, closed_as (lookup range_id ranges) (some at) start_end)

-- `(open.start, range_id)` comes after the other one.
abbrev pub later_range : ℕ × OpenRange → ℕ × OpenRange → Bool
later_range (i, a) (j, b) = ltb b.start a.start || eqb b.start a.start && ltb j i

abbrev close_leaked : ℕ × OpenRange → NvtxSpan
close_leaked (i, r) = close r none start_end

unfoldable pub drain_unclosed : StartEndRanges → StartEndRanges × List NvtxSpan
drain_unclosed ranges = ([], map close_leaked (sort_by later_range ranges))

-- One thread within one domain.
abbrev pub StackKey : Type 0
StackKey = ℕ × ℕ

pub record OpenPushSpan : Type 0 where
  pub id : SpanId
  pub range : OpenRange

unfoldable pub close_push : OpenPushSpan → Option ℕ → ℕ → Option SpanId → SpanId × NvtxSpan
unfolding close
close_push p end thread parent = (p.id, close p.range end (push_pop thread parent))

-- A stack, its top first.
abbrev pub Stack : Type 0
Stack = List OpenPushSpan

abbrev pub PushPopRanges : Type 0
PushPopRanges = Assoc StackKey Stack

abbrev pub stack_of : Option Stack → Stack
stack_of none = []
stack_of (some s) = s

unfoldable pub push :
    PushPopRanges → SpanId → ℕ → ℕ → Text → NvtxEventAttributes → ℕ → PushPopRanges
push stacks id thread domain name attributes at =
    insert (thread, domain)
      (record { id = id; range = new domain name attributes at }
        ∷ stack_of (lookup (thread, domain) stacks))
      stacks

-- The enclosing push of what lies under the top.
abbrev pub enclosing : Stack → Option SpanId
enclosing [] = none
enclosing (p ∷ s) = some p.id

-- The stack that a pop leaves; an empty one is dropped.
abbrev pub store : StackKey → Stack → PushPopRanges → PushPopRanges
store key [] stacks = remove key stacks
store key (p ∷ s) stacks = insert key (p ∷ s) stacks

abbrev pub pop_stack :
    StackKey → ℕ → Stack → PushPopRanges → PushPopRanges × Option (SpanId × NvtxSpan)
pop_stack key at [] stacks = (stacks, none)
pop_stack key at (p ∷ s) stacks =
    (store key s stacks, some (close_push p (some at) key.0 (enclosing s)))

unfoldable pub pop : PushPopRanges → ℕ → ℕ → ℕ → PushPopRanges × Option (SpanId × NvtxSpan)
pop stacks thread domain at =
    pop_stack (thread, domain) at (stack_of (lookup (thread, domain) stacks)) stacks

-- Innermost first.
unfoldable pub close_stack : ℕ → Stack → List (SpanId × NvtxSpan)
close_stack thread [] = []
close_stack thread (p ∷ s) = close_push p none thread (enclosing s) ∷ close_stack thread s

abbrev pub later_stack : StackKey × Stack → StackKey × Stack → Bool
later_stack ((t, d), a) ((u, e), b) = ltb u t || eqb u t && ltb e d

unfoldable pub close_stacks : List (StackKey × Stack) → List (SpanId × NvtxSpan)
close_stacks [] = []
close_stacks (((thread, domain), s) ∷ rest) = close_stack thread s ++ close_stacks rest

unfoldable pub drain_unpopped : PushPopRanges → PushPopRanges × List (SpanId × NvtxSpan)
drain_unpopped stacks = ([], close_stacks (sort_by later_stack stacks))
