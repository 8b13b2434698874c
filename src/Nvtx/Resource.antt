-- ===== src/Nvtx/Resource.antt =====
-- integrations/nvtx/analyzer/src/resource.rs: resource lifespans, matched by their handle alone.
use quent.Base.{
  ℕ, Bool, ◌&&◌, ◌||◌, Option, none, some, List, [], map, ltb, eqb, nat_eq, pair_eq, option_eq,
  list_eq,
}
use quent.Base.Assoc.{Assoc, lookup, insert, remove}
use quent.Base.Sort.{sort_by}
use quent.Base.Text.{Text}
use quent.Nvtx.Event.{ℤ}
use quent.Nvtx.Span.{NvtxSpan, resource}

pub record OpenResource : Type 0 where
  pub domain : ℕ
  pub name : Text
  pub identifier_type : ℤ
  pub start : ℕ

unfoldable pub close : OpenResource → Option ℕ → NvtxSpan
close r end = record {
  domain = r.domain;
  name = r.name;
  category = none;
  color = none;
  payload = none;
  start = r.start;
  end = end;
  kind = resource r.identifier_type;
}

abbrev pub closed : Option OpenResource → Option ℕ → Option NvtxSpan
closed none end = none
closed (some r) end = some (close r end)

-- The open resources, by their handles.
abbrev pub Resources : Type 0
Resources = Assoc ℕ OpenResource

-- The span that comes back is that of a lifespan displaced under the same handle.
unfoldable pub create : Resources → ℕ → ℕ → Text → ℤ → ℕ → Resources × Option NvtxSpan
create resources handle domain name identifier_type start = (
  insert handle
      (record { domain = domain; name = name; identifier_type = identifier_type; start = start })
      resources,
  closed (lookup handle resources) none,
)

unfoldable pub destroy : Resources → ℕ → ℕ → Resources × Option NvtxSpan
destroy resources handle end =
    (remove handle resources, closed (lookup handle resources) (some end))

-- `(open.start, handle)` comes after the other one.
abbrev pub later_resource : ℕ × OpenResource → ℕ × OpenResource → Bool
later_resource (i, a) (j, b) = ltb b.start a.start || eqb b.start a.start && ltb j i

abbrev close_leaked : ℕ × OpenResource → NvtxSpan
close_leaked (i, r) = close r none

unfoldable pub drain_unclosed : Resources → Resources × List NvtxSpan
drain_unclosed resources = ([], map close_leaked (sort_by later_resource resources))
