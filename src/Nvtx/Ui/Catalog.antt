-- ===== src/Nvtx/Ui/Catalog.antt =====
-- integrations/nvtx/ui/src/lib.rs: the catalog of a model, and the selection of all of it.
use quent.Base.{
  ℕ, ◌%◌, Bool, true, false, not, ◌&&◌, ◌||◌, Option, none, some, List, [], ◌∷◌, ◌++◌, map, ltb,
  eqb, if◌then◌else◌, ◌==◌, nat_eq, pair_eq, option_eq, list_eq, length, get_elem?, keep, or_else,
}
use quent.Base.Text.{Text, text, text_before}
use quent.Base.Assoc.{Assoc, lookup, insert, remove}
use quent.Base.Set.{set_insert}
use quent.Base.Sort.{sort_by}
use quent.Time.Clock.{to_secs_relative}
use quent.Nvtx.Span.{
  SpanKind, push_pop, start_end, NvtxSpan, NvtxMark, NvtxDomain, NvtxThread, NvtxCategory,
}
use quent.Nvtx.Anomalies.{ReconstructionAnomalies, total, is_faithful}
use quent.Nvtx.Model.{NvtxModel, thread_name}
use quent.Nvtx.Ui.{
  NvtxCatalogAnomalies, NvtxCatalogThread, NvtxCatalogCategory, NvtxCatalogDomain, NvtxCatalog,
  NvtxDomainSelection,
}

pub record CatalogDomainMetadata : Type 0 where
  pub thread_ids : List ℕ
  pub has_uncategorized : Bool

abbrev pub no_metadata : CatalogDomainMetadata
no_metadata = record { thread_ids = []; has_uncategorized = false }

unfoldable pub fallback_color : ℕ → Text
fallback_color domain_id =
    or_else
      (get_elem?
        (text "#2563eb"
          ∷ text "#7c3aed"
          ∷ text "#db2777"
          ∷ text "#dc2626"
          ∷ text "#ea580c"
          ∷ text "#ca8a04"
          ∷ text "#16a34a"
          ∷ text "#0d9488"
          ∷ text "#0891b2"
          ∷ text "#4f46e5"
          ∷ text "#9333ea"
          ∷ text "#475569"
          ∷ [])
        (domain_id % 12))
      []

abbrev pub is_range : SpanKind → Bool
is_range (push_pop thread parent) = true
is_range start_end = true
is_range _ = false

abbrev pub is_none {ℓ} : {A : Type ℓ} → Option A → Bool
is_none none = true
is_none (some a) = false

abbrev pub add_thread : SpanKind → List ℕ → List ℕ
add_thread (push_pop thread parent) ids = set_insert ltb thread ids
add_thread _ ids = ids

unfoldable pub note_span : Assoc ℕ CatalogDomainMetadata → NvtxSpan → Assoc ℕ CatalogDomainMetadata
unfolding lookup insert
note_span m s =
    let metadata = or_else (lookup s.domain m) no_metadata in
    insert s.domain
      (record {
        thread_ids = add_thread s.kind metadata.thread_ids;
        has_uncategorized = metadata.has_uncategorized || (is_range s.kind && is_none s.category);
      })
      m

unfoldable pub note_mark : Assoc ℕ CatalogDomainMetadata → NvtxMark → Assoc ℕ CatalogDomainMetadata
unfolding lookup insert
note_mark m k =
    if is_none k.category
    then insert k.domain
        (record (or_else (lookup k.domain m) no_metadata) { has_uncategorized = true }) m
    else m

abbrev pub note_spans :
    Assoc ℕ CatalogDomainMetadata → List NvtxSpan → Assoc ℕ CatalogDomainMetadata
note_spans m [] = m
note_spans m (s ∷ ss) = note_spans (note_span m s) ss

abbrev pub note_marks :
    Assoc ℕ CatalogDomainMetadata → List NvtxMark → Assoc ℕ CatalogDomainMetadata
note_marks m [] = m
note_marks m (k ∷ ks) = note_marks (note_mark m k) ks

abbrev pub collect_categories :
    Assoc ℕ (List NvtxCatalogCategory) → List NvtxCategory → Assoc ℕ (List NvtxCatalogCategory)
collect_categories m [] = m
collect_categories m (c ∷ cs) =
    let listed = or_else (lookup c.domain m) [] in
    let entry : NvtxCatalogCategory = record { category_id = c.category; name = c.name } in
    collect_categories (insert c.domain (listed ++ entry ∷ []) m) cs

abbrev pub collect_names : Assoc ℕ Text → List NvtxThread → Assoc ℕ Text
collect_names m [] = m
collect_names m (t ∷ ts) = collect_names (insert t.thread_id t.name m) ts

-- The order by name, then by number.
abbrev pub named_before : Text → ℕ → Text → ℕ → Bool
named_before name id other other_id = text_before name other || (name == other && ltb id other_id)

abbrev pub catalog_threads : NvtxModel → Assoc ℕ Text → List ℕ → List NvtxCatalogThread
catalog_threads model names [] = []
catalog_threads model names (t ∷ ts) =
    record { thread_id = t; name = or_else (lookup t names) (thread_name model t) }
    ∷ catalog_threads model names ts

abbrev pub sort_threads : List NvtxCatalogThread → List NvtxCatalogThread
sort_threads = sort_by (λ a b. named_before b.name b.thread_id a.name a.thread_id)

abbrev pub sort_categories : List NvtxCatalogCategory → List NvtxCatalogCategory
sort_categories = sort_by (λ a b. named_before b.name b.category_id a.name a.category_id)

abbrev pub sort_domains : List NvtxCatalogDomain → List NvtxCatalogDomain
sort_domains = sort_by (λ a b. named_before b.name b.domain_id a.name a.domain_id)

-- The entry of a domain takes what is noted of it from the maps.
unfoldable pub catalog_domains :
    NvtxModel
    → Assoc ℕ Text
    → Assoc ℕ CatalogDomainMetadata
    → Assoc ℕ (List NvtxCatalogCategory)
    → List NvtxDomain
    → List NvtxCatalogDomain
unfolding lookup remove sort_by thread_name fallback_color
catalog_domains model names metadata categories [] = []
catalog_domains model names metadata categories (d ∷ ds) =
    let noted = or_else (lookup d.domain metadata) no_metadata in
    record {
      domain_id = d.domain;
      name = d.name;
      color = fallback_color d.domain;
      threads = sort_threads (catalog_threads model names noted.thread_ids);
      categories = sort_categories (or_else (lookup d.domain categories) []);
      has_uncategorized = noted.has_uncategorized;
    }
    ∷ catalog_domains model names (remove d.domain metadata) (remove d.domain categories) ds

unfoldable pub catalog_anomalies : ReconstructionAnomalies → NvtxCatalogAnomalies
unfolding total is_faithful
catalog_anomalies a = record {
  orphan_range_ends = a.orphan_range_ends;
  orphan_range_pops = a.orphan_range_pops;
  orphan_resource_destroys = a.orphan_resource_destroys;
  reused_range_ids = a.reused_range_ids;
  reused_resource_handles = a.reused_resource_handles;
  total = total a;
  is_faithful = is_faithful a;
}

module _ {ℓ} {Secs : Type ℓ} (scale : ℕ → Secs) (negate : Secs → Secs) where
  unfoldable pub from_model : NvtxModel → ℕ → NvtxCatalog Secs
  unfolding to_secs_relative catalog_domains catalog_anomalies
  from_model model query_start = record {
    query_start = query_start;
    trace_start = to_secs_relative scale negate model.trace_start query_start;
    trace_end = to_secs_relative scale negate model.trace_end query_start;
    domains = sort_domains (
        catalog_domains model (collect_names [] model.threads)
          (note_marks (note_spans [] model.spans) model.marks)
          (collect_categories [] model.categories) model.domains);
    anomalies = catalog_anomalies model.anomalies;
  }

abbrev pub selects_some : NvtxDomainSelection → Bool
selects_some s = not (eqb (length s.category_ids) 0) || s.include_uncategorized

abbrev pub select_domain : NvtxCatalogDomain → NvtxDomainSelection
select_domain d = record {
  domain_id = d.domain_id;
  category_ids = map (λ c. c.category_id) d.categories;
  include_uncategorized = d.has_uncategorized;
}

unfoldable pub select_all {ℓ} : {Secs : Type ℓ} → NvtxCatalog Secs → List NvtxDomainSelection
unfolding sort_by
select_all c =
    sort_by (λ s t. ltb t.domain_id s.domain_id) (keep selects_some (map select_domain c.domains))
