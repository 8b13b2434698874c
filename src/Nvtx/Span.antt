-- ===== src/Nvtx/Span.antt =====
-- integrations/nvtx/analyzer/src/span.rs: what is reconstructed.
use quent.Base.{
  or_else, ℕ, ◌+◌, Option, none, some, ◌++◌, eqb, if◌then◌else◌, nat_eq, pair_eq, option_eq,
  list_eq, saturating_sub,
}
use quent.Base.Text.{Text, text, decimal}
use quent.Nvtx.Event.{ℤ, pos, negsuc, NvtxColor, NvtxPayload}

-- The index into the span list of a model.
abbrev pub SpanId : Type 0
SpanId = ℕ

pub data SpanKind : Type 0 where
  push_pop : ℕ → Option SpanId → SpanKind
  start_end : SpanKind
  resource : ℤ → SpanKind

unfoldable pub thread_id : SpanKind → Option ℕ
thread_id (push_pop t p) = some t
thread_id start_end = none
thread_id (resource i) = none

unfoldable pub parent : SpanKind → Option SpanId
parent (push_pop t p) = p
parent start_end = none
parent (resource i) = none

decimal_of : ℤ → Text
unfolding decimal
decimal_of (pos n) = decimal n
decimal_of (negsuc n) = text "-" ++ decimal (n + 1)

-- A label for each type of the generic class, by its number.
core_label : ℕ → Option Text
core_label n =
    if eqb n 0
    then some (text "unknown")
    else if eqb n 0x00010001
    then some (text "generic pointer")
    else if eqb n 0x00010002
    then some (text "generic handle")
    else if eqb n 0x00010003
    then some (text "native thread")
    else if eqb n 0x00010004
    then some (text "posix thread")
    else none

unfoldable pub label_identifier_type : ℤ → Text
unfolding core_label decimal_of
label_identifier_type (pos n) =
    or_else (core_label n) (text "<identifier_type " ++ decimal_of (pos n) ++ text ">")
label_identifier_type (negsuc n) = text "<identifier_type " ++ decimal_of (negsuc n) ++ text ">"

unfoldable pub identifier_type_label : SpanKind → Option Text
unfolding label_identifier_type
identifier_type_label (push_pop t p) = none
identifier_type_label start_end = none
identifier_type_label (resource i) = some (label_identifier_type i)

unfoldable pub category_id : ℕ → Option ℕ
category_id raw = if eqb raw 0 then none else some raw

pub record NvtxSpan : Type 0 where
  pub domain : ℕ
  pub name : Text
  pub category : Option ℕ
  pub color : Option NvtxColor
  pub payload : Option NvtxPayload
  pub start : ℕ
  pub end : Option ℕ
  pub kind : SpanKind

abbrev elapsed : ℕ → Option ℕ → Option ℕ
elapsed start none = none
elapsed start (some end) = some (saturating_sub end start)

unfoldable pub duration : NvtxSpan → Option ℕ
duration s = elapsed s.start s.end

pub record NvtxMark : Type 0 where
  pub domain : ℕ
  pub name : Text
  pub category : Option ℕ
  pub color : Option NvtxColor
  pub payload : Option NvtxPayload
  pub timestamp : ℕ

pub record NvtxDomain : Type 0 where
  pub domain : ℕ
  pub name : Text
  pub created : Option ℕ
  pub first_seen : ℕ
  pub destroyed : Option ℕ

pub record NvtxThread : Type 0 where
  pub thread_id : ℕ
  pub name : Text

pub record NvtxCategory : Type 0 where
  pub domain : ℕ
  pub category : ℕ
  pub name : Text
