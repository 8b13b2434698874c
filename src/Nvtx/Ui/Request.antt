-- ===== src/Nvtx/Ui/Request.antt =====
-- integrations/nvtx/ui/src/lib.rs: the validation of a request and its canonical form. The tests of
-- floating-point numbers are parameters.
pub mod Accepts
pub mod SelectAll
use quent.Base.{
  ℕ, Bool, true, false, not, ◌&&◌, Option, none, some, List, [], ◌∷◌, map, ltb, eqb, if◌then◌else◌,
  nat_eq, pair_eq, option_eq, list_eq,
}
use quent.Base.Assoc.{Assoc, lookup, insert}
use quent.Base.Set.{member}
use quent.Base.Sort.{sort_by}
use quent.Base.Result.{Result, ok, err, ◌>>=◌}
use quent.Nvtx.Ui.{
  NvtxCatalogDomain, NvtxCatalog, NvtxViewportWindow, NvtxDomainSelection, NvtxViewportRequest,
  NvtxViewportError, invalid_window, empty_selection, duplicate_domain, unknown_domain,
  unknown_category, uncategorized_unavailable,
}

-- The domains by their ids; of two with one id the last is found.
abbrev pub catalog_from :
    Assoc ℕ NvtxCatalogDomain → List NvtxCatalogDomain → Assoc ℕ NvtxCatalogDomain
catalog_from m [] = m
catalog_from m (d ∷ ds) = catalog_from (insert d.domain_id d m) ds

-- `Vec::dedup`
unfoldable pub dedup : List ℕ → List ℕ
dedup [] = []
dedup (x ∷ []) = x ∷ []
dedup (x ∷ y ∷ xs) = let rest = dedup (y ∷ xs) in if eqb x y then rest else x ∷ rest

abbrev pub has_category : NvtxCatalogDomain → ℕ → Bool
has_category d id = member id (map (λ c. c.category_id) d.categories)

-- The first category that the domain does not have.
unfoldable pub unknown_of : NvtxCatalogDomain → List ℕ → Option ℕ
unfolding member
unknown_of d [] = none
unknown_of d (id ∷ ids) = let rest = unknown_of d ids in if has_category d id then rest else some id

unfoldable pub canonical_selection : NvtxDomainSelection → NvtxDomainSelection
unfolding dedup sort_by
canonical_selection s = record s { category_ids = dedup (sort_by (λ a b. ltb b a) s.category_ids) }

abbrev pub empty_ids : List ℕ → Bool
empty_ids [] = true
empty_ids (id ∷ ids) = false

abbrev pub check_uncategorized :
    NvtxDomainSelection
    → NvtxCatalogDomain
    → Option ℕ
    → Result NvtxDomainSelection NvtxViewportError
check_uncategorized s d (some id) = err (unknown_category s.domain_id id)
check_uncategorized s d none =
    if s.include_uncategorized && not d.has_uncategorized
    then err (uncategorized_unavailable s.domain_id)
    else ok (canonical_selection s)

abbrev pub check_domain :
    NvtxDomainSelection → Option NvtxCatalogDomain → Result NvtxDomainSelection NvtxViewportError
check_domain s none = err (unknown_domain s.domain_id)
check_domain s (some d) =
    check_uncategorized s d (unknown_of d (canonical_selection s).category_ids)

unfoldable pub check_selection :
    Assoc ℕ NvtxCatalogDomain
    → List ℕ
    → NvtxDomainSelection
    → Result NvtxDomainSelection NvtxViewportError
unfolding member lookup unknown_of canonical_selection
check_selection catalog seen s =
    let found = check_domain s (lookup s.domain_id catalog) in
    if member s.domain_id seen
    then err (duplicate_domain s.domain_id)
    else if empty_ids s.category_ids && not s.include_uncategorized
    then err (empty_selection s.domain_id)
    else found

-- The loop over the selections.
unfoldable pub check_selections :
    Assoc ℕ NvtxCatalogDomain
    → List ℕ
    → List NvtxDomainSelection
    → Result (List NvtxDomainSelection) NvtxViewportError
unfolding check_selection
check_selections catalog seen [] = ok []
check_selections catalog seen (s ∷ ss) = do
  selection ← check_selection catalog seen s
  rest ← check_selections catalog (s.domain_id ∷ seen) ss
  ok (selection ∷ rest)

abbrev pub sort_selections : List NvtxDomainSelection → List NvtxDomainSelection
sort_selections = sort_by (λ s t. ltb t.domain_id s.domain_id)

module _ {ℓ} {Secs : Type ℓ} (is_finite : Secs → Bool) (greater : Secs → Secs → Bool) where
  abbrev pub valid_window : NvtxViewportWindow Secs → Bool
  valid_window w = is_finite w.start && is_finite w.end && not (greater w.start w.end)

  unfoldable pub canonicalize_request :
      NvtxCatalog Secs
      → NvtxViewportRequest Secs
      → Result (NvtxViewportRequest Secs) NvtxViewportError
  unfolding check_selections sort_by insert
  canonicalize_request c r =
      let checked = do
        selections ← check_selections (catalog_from [] c.domains) [] r.selections
        ok (record r { selections = sort_selections selections })
      in if valid_window r.viewport then checked else err invalid_window
