-- ===== src/Nvtx/Ui.antt =====
-- integrations/nvtx/ui/src/lib.rs: what the user interface selects of a capture. The numbers of
-- seconds are a parameter.
pub mod Catalog
pub mod Request
pub mod Depths
pub mod Tests
use quent.Base.{ℕ, Bool, List, nat_eq, pair_eq, option_eq, list_eq}
use quent.Base.Text.{Text, text}

pub record NvtxCatalogAnomalies : Type 0 where
  pub orphan_range_ends : ℕ
  pub orphan_range_pops : ℕ
  pub orphan_resource_destroys : ℕ
  pub reused_range_ids : ℕ
  pub reused_resource_handles : ℕ
  pub total : ℕ
  pub is_faithful : Bool

pub record NvtxCatalogThread : Type 0 where
  pub thread_id : ℕ
  pub name : Text

pub record NvtxCatalogCategory : Type 0 where
  pub category_id : ℕ
  pub name : Text

pub record NvtxCatalogDomain : Type 0 where
  pub domain_id : ℕ
  pub name : Text
  pub color : Text
  pub threads : List NvtxCatalogThread
  pub categories : List NvtxCatalogCategory
  pub has_uncategorized : Bool

pub record NvtxCatalog {ℓ} (Secs : Type ℓ) : Type ℓ where
  pub query_start : ℕ
  pub trace_start : Secs
  pub trace_end : Secs
  pub domains : List NvtxCatalogDomain
  pub anomalies : NvtxCatalogAnomalies

pub record NvtxViewportWindow {ℓ} (Secs : Type ℓ) : Type ℓ where
  pub start : Secs
  pub end : Secs

pub record NvtxDomainSelection : Type 0 where
  pub domain_id : ℕ
  pub category_ids : List ℕ
  pub include_uncategorized : Bool

pub record NvtxViewportRequest {ℓ} (Secs : Type ℓ) : Type ℓ where
  pub viewport : NvtxViewportWindow Secs
  pub selections : List NvtxDomainSelection

pub data NvtxViewportError : Type 0 where
  invalid_window : NvtxViewportError
  empty_selection : ℕ → NvtxViewportError
  duplicate_domain : ℕ → NvtxViewportError
  unknown_domain : ℕ → NvtxViewportError
  unknown_category : ℕ → ℕ → NvtxViewportError
  uncategorized_unavailable : ℕ → NvtxViewportError
