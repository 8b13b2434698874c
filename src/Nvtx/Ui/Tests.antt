-- ===== src/Nvtx/Ui/Tests.antt =====
-- A request for a part of a catalog, and one for all of it.
use quent.Base.{
  ℕ, ◌≡◌, refl, ap, ◌∙◌, ◌↔◌, Bool, true, false, [], ◌∷◌, ltb, Option, none, some, List, zero, suc,
  length, get_elem?, arith, nat_eq, pair_eq, option_eq, list_eq,
}
use quent.Base.Text.{text}
use quent.Base.Set.{member}
use quent.Base.Result.{ok, err}
use quent.Nvtx.Ui.{
  NvtxCatalogDomain, NvtxCatalog, NvtxCatalogAnomalies, NvtxViewportWindow, NvtxDomainSelection,
  NvtxViewportRequest, unknown_category,
}
use quent.Nvtx.Span.{push_pop, NvtxSpan, parent}
use quent.Nvtx.Ui.Catalog.{select_all}
use quent.Nvtx.Ui.Depths.{drain_cycle, follow, assign, all_chains, span_depths_for}
use quent.Nvtx.Ui.Depths.Fuel.{span_depths_for-total}
use quent.Nvtx.Ui.Depths.Parents.{ParentsBefore, depth_by_parent, span_depths_for-parents}
use quent.Nvtx.Ui.Request.{canonicalize_request}
use quent.Nvtx.Ui.Request.Accepts.{acceptable, canonical, canonicalize_request-ok}
use quent.Nvtx.Ui.Request.SelectAll.{canonicalize_request-select_all}

abbrev solver : NvtxCatalogDomain
solver = record {
  domain_id = 7;
  name = text "solver";
  color = text "#0d9488";
  threads = [];
  categories =
      record { category_id = 4; name = text "io" }
      ∷ record { category_id = 2; name = text "math" }
      ∷ [];
  has_uncategorized = false;
}

abbrev other : NvtxCatalogDomain
other = record solver { domain_id = 3; categories = []; has_uncategorized = true }

abbrev faithful : NvtxCatalogAnomalies
faithful = record {
  orphan_range_ends = 0;
  orphan_range_pops = 0;
  orphan_resource_destroys = 0;
  reused_range_ids = 0;
  reused_resource_handles = 0;
  total = 0;
  is_faithful = true;
}

abbrev catalog : NvtxCatalog ℕ
catalog = record {
  query_start = 0;
  trace_start = 0;
  trace_end = 90;
  domains = solver ∷ other ∷ [];
  anomalies = faithful;
}

abbrev window : NvtxViewportWindow ℕ
window = record { start = 10; end = 20 }

abbrev any_number : ℕ → Bool
any_number n = true

abbrev greater : ℕ → ℕ → Bool
greater a b = ltb b a

abbrev selection : NvtxDomainSelection
selection = record { domain_id = 7; category_ids = 4 ∷ 2 ∷ 4 ∷ []; include_uncategorized = false }

abbrev request : NvtxViewportRequest ℕ
request = record { viewport = window; selections = selection ∷ [] }

abbrev sorted_request : NvtxViewportRequest ℕ
sorted_request = record request { selections = record selection { category_ids = 2 ∷ 4 ∷ [] } ∷ [] }

canonicalize_request-ok_example :
    (canonicalize_request any_number greater catalog request ≡ ok sorted_request) ↔ (
      (acceptable any_number greater catalog request ≡ true) × (canonical request ≡ sorted_request))
canonicalize_request-ok_example =
    canonicalize_request-ok any_number greater catalog request sorted_request

request-accepted : canonicalize_request any_number greater catalog request ≡ ok sorted_request
unfolding canonicalize_request
request-accepted = refl

unknown-refused :
    canonicalize_request any_number greater catalog
      (record request { selections = record selection { category_ids = 4 ∷ 5 ∷ [] } ∷ [] })
    ≡ err (unknown_category 7 5)
unfolding canonicalize_request
unknown-refused = refl

canonicalize_request-select_all_example :
    canonicalize_request any_number greater catalog
      (record { viewport = window; selections = select_all catalog })
    ≡ ok (canonical (record { viewport = window; selections = select_all catalog }))
unfolding member
canonicalize_request-select_all_example =
    canonicalize_request-select_all any_number greater catalog window refl refl

abbrev child_of : Option ℕ → NvtxSpan
child_of p = record {
  domain = 7;
  name = text "span";
  category = none;
  color = none;
  payload = none;
  start = 0;
  end = some 1;
  kind = push_pop 1 p;
}

-- Two levels, and a second span at the lower one.
abbrev nested : List NvtxSpan
nested = child_of none ∷ child_of (some 0) ∷ child_of (some 1) ∷ child_of (some 0) ∷ []

nested-ParentsBefore : ParentsBefore nested
unfolding parent
nested-ParentsBefore zero p s at e =
    let one : child_of none ≡ s = cc in
    let z : none ≡ some p = ap (λ u. parent u.kind) one ∙ e in cc
nested-ParentsBefore (suc zero) p s at e =
    let one : child_of (some 0) ≡ s = cc in
    let z : some 0 ≡ some p = ap (λ u. parent u.kind) one ∙ e in let q : 0 ≡ p = cc in omega arith
nested-ParentsBefore (suc (suc zero)) p s at e =
    let one : child_of (some 1) ≡ s = cc in
    let z : some 1 ≡ some p = ap (λ u. parent u.kind) one ∙ e in let q : 1 ≡ p = cc in omega arith
nested-ParentsBefore (suc (suc (suc zero))) p s at e =
    let one : child_of (some 0) ≡ s = cc in
    let z : some 0 ≡ some p = ap (λ u. parent u.kind) one ∙ e in let q : 0 ≡ p = cc in omega arith
nested-ParentsBefore (suc (suc (suc (suc i)))) p s at e = cc

span_depths_for-parents_example :
    (depths : List ℕ) × (span_depths_for nested ≡ some depths)
    × (length depths ≡ length nested)
    × ((i : ℕ) (s : NvtxSpan)
        → get_elem? nested i ≡ some s
        → get_elem? depths i ≡ some (depth_by_parent depths (parent s.kind)))
span_depths_for-parents_example = span_depths_for-parents nested nested-ParentsBefore

nested_depths : span_depths_for nested ≡ some (0 ∷ 1 ∷ 2 ∷ 1 ∷ [])
unfolding span_depths_for all_chains follow assign drain_cycle
nested_depths = refl

-- A parent that is not there, and two spans that are each other's parent.
missing_parent : span_depths_for (child_of (some 99) ∷ []) ≡ some (0 ∷ [])
unfolding span_depths_for all_chains follow assign drain_cycle
missing_parent = refl

mutual_parents : span_depths_for (child_of (some 1) ∷ child_of (some 0) ∷ []) ≡ some (0 ∷ 0 ∷ [])
unfolding span_depths_for all_chains follow assign drain_cycle
mutual_parents = refl

span_depths_for-total_example :
    (depths : List ℕ) × (span_depths_for (child_of (some 1) ∷ child_of (some 0) ∷ []) ≡ some depths)
span_depths_for-total_example = span_depths_for-total (child_of (some 1) ∷ child_of (some 0) ∷ [])
