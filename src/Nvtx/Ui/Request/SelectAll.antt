-- ===== src/Nvtx/Ui/Request/SelectAll.antt =====
-- The selection of everything in a catalog is accepted.
use quent.Base.{
  ℕ, ◌≡◌, refl, ap, ◌∙◌, inl, inr, Bool, true, false, not, ◌&&◌, ◌||◌, some, List, [], ◌∷◌, map,
  arith, ltb, eqb, eqb_iff, Bool-cases, ◌==◌, nat_eq, pair_eq, option_eq, list_eq, length, keep,
  All,
}
use quent.Base.Assoc.{Assoc, lookup, insert, lookup-insert, lookup-insert_self}
use quent.Base.Set.{member, distinct}
use quent.Base.Sort.{sort_by, insert_sorted}
use quent.Base.Result.{ok}
use quent.Nvtx.Ui.{
  NvtxCatalogDomain, NvtxCatalog, NvtxViewportWindow, NvtxDomainSelection, NvtxViewportRequest,
}
use quent.Nvtx.Ui.Catalog.{select_all, select_domain, selects_some}
use quent.Nvtx.Ui.Request.{
  catalog_from, has_category, empty_ids, valid_window, canonicalize_request,
}
use quent.Nvtx.Ui.Request.Accepts.{
  all_known, acceptable_selection, all_acceptable, acceptable, canonical, canonicalize_request-ok,
}

abbrev ids_of : List NvtxDomainSelection → List ℕ
ids_of ss = map (λ s. s.domain_id) ss

abbrev domain_ids : List NvtxCatalogDomain → List ℕ
domain_ids ds = map (λ d. d.domain_id) ds

swap : (a b c : Bool) → (a && (b && c)) ≡ (b && (a && c))
swap a b c = ground arith

empty_ids-length : (ids : List ℕ) → empty_ids ids ≡ eqb (length ids) 0
empty_ids-length [] = refl
empty_ids-length (id ∷ ids) = ground arith

module _ (after : NvtxDomainSelection → NvtxDomainSelection → Bool) where
  member-insert_sorted :
      (id : ℕ) (s : NvtxDomainSelection) (ss : List NvtxDomainSelection)
      → member id (ids_of (insert_sorted after s ss))
        ≡ (eqb s.domain_id id || member id (ids_of ss))
  unfolding insert_sorted member
  member-insert_sorted id s [] = refl
  member-insert_sorted id s (t ∷ ss) =
      let rest = member-insert_sorted id s ss in
      elim (Bool-cases (after s t)) [ inl a ↦ rw a (ground arith) | inr b ↦ rw b refl ]

  distinct-insert_sorted :
      (s : NvtxDomainSelection) (ss : List NvtxDomainSelection)
      → distinct (ids_of (insert_sorted after s ss))
        ≡ (not (member s.domain_id (ids_of ss)) && distinct (ids_of ss))
  unfolding insert_sorted member
  distinct-insert_sorted s [] = refl
  distinct-insert_sorted s (t ∷ ss) =
      let rest = distinct-insert_sorted s ss in
      let here = member-insert_sorted t.domain_id s ss in
      elim (Bool-cases (after s t)) [
        | inl a ↦
            rw a (ground (arith, eqb_iff s.domain_id t.domain_id, eqb_iff t.domain_id s.domain_id))
        | inr b ↦ rw b refl
      ]

  member-sort_by :
      (id : ℕ) (ss : List NvtxDomainSelection)
      → member id (ids_of (sort_by after ss)) ≡ member id (ids_of ss)
  unfolding sort_by member
  member-sort_by id [] = refl
  member-sort_by id (s ∷ ss) =
      let rest = member-sort_by id ss in
      let here = member-insert_sorted id s (sort_by after ss) in ground arith

  distinct-sort_by :
      (ss : List NvtxDomainSelection) → distinct (ids_of (sort_by after ss)) ≡ distinct (ids_of ss)
  unfolding sort_by
  distinct-sort_by [] = refl
  distinct-sort_by (s ∷ ss) =
      let rest = distinct-sort_by ss in
      let same = member-sort_by s.domain_id ss in
      let here = distinct-insert_sorted s (sort_by after ss) in ground arith

  all_acceptable-insert_sorted :
      (catalog : Assoc ℕ NvtxCatalogDomain) (s : NvtxDomainSelection)
      (ss : List NvtxDomainSelection)
      → all_acceptable catalog (insert_sorted after s ss)
        ≡ (acceptable_selection catalog s && all_acceptable catalog ss)
  unfolding insert_sorted
  all_acceptable-insert_sorted catalog s [] = refl
  all_acceptable-insert_sorted catalog s (t ∷ ss) =
      let rest = all_acceptable-insert_sorted catalog s ss in
      elim (Bool-cases (after s t)) [
        | inl a ↦
            rw (a, rest)
              (swap (acceptable_selection catalog t) (acceptable_selection catalog s)
                (all_acceptable catalog ss))
        | inr b ↦ rw b refl
      ]

  all_acceptable-sort_by :
      (catalog : Assoc ℕ NvtxCatalogDomain) (ss : List NvtxDomainSelection)
      → all_acceptable catalog (sort_by after ss) ≡ all_acceptable catalog ss
  unfolding sort_by
  all_acceptable-sort_by catalog [] = refl
  all_acceptable-sort_by catalog (s ∷ ss) =
      all_acceptable-insert_sorted catalog s (sort_by after ss)
      ∙ ap (λ b. acceptable_selection catalog s && b) (all_acceptable-sort_by catalog ss)

member-selected :
    (id : ℕ) (ds : List NvtxCatalogDomain)
    → member id (domain_ids ds) ≡ false
    → member id (ids_of (keep selects_some (map select_domain ds))) ≡ false
unfolding member
member-selected id [] h = refl
member-selected id (d ∷ ds) h =
    let rest = member-selected id ds (ground arith) in
    elim (Bool-cases (selects_some (select_domain d))) [
      | inl t ↦ rw t (ground arith)
      | inr f ↦ rw f rest
    ]

distinct-selected :
    (ds : List NvtxCatalogDomain)
    → distinct (domain_ids ds) ≡ true
    → distinct (ids_of (keep selects_some (map select_domain ds))) ≡ true
distinct-selected [] h = refl
distinct-selected (d ∷ ds) h =
    let rest = distinct-selected ds (ground arith) in
    let apart = member-selected d.domain_id ds (ground arith) in
    elim (Bool-cases (selects_some (select_domain d))) [
      | inl t ↦ rw t (ground arith)
      | inr f ↦ rw f rest
    ]

lookup-other :
    (id : ℕ) (m : Assoc ℕ NvtxCatalogDomain) (ds : List NvtxCatalogDomain)
    → member id (domain_ids ds) ≡ false
    → lookup id (catalog_from m ds) ≡ lookup id m
unfolding member
lookup-other id m [] h = refl
lookup-other id m (d ∷ ds) h =
    lookup-other id (insert d.domain_id d m) ds (ground arith)
    ∙ lookup-insert id d.domain_id d m
    ∙ (let apart : (d.domain_id == id) ≡ false = ground arith in rw apart refl)

-- Each domain is found by its id.
lookup-catalog_from :
    (m : Assoc ℕ NvtxCatalogDomain) (ds : List NvtxCatalogDomain)
    → distinct (domain_ids ds) ≡ true
    → All (λ d. lookup d.domain_id (catalog_from m ds) ≡ some d) ds
lookup-catalog_from m [] h = tt
lookup-catalog_from m (d ∷ ds) h = (
  lookup-other d.domain_id (insert d.domain_id d m) ds (ground arith)
      ∙ lookup-insert_self d.domain_id d m,
  lookup-catalog_from (insert d.domain_id d m) ds (ground arith),
)

known-members :
    (d : NvtxCatalogDomain) (ids : List ℕ)
    → ((id : ℕ) → member id ids ≡ true → has_category d id ≡ true)
    → all_known d ids ≡ true
unfolding member
known-members d [] h = refl
known-members d (id ∷ ids) h =
    let here = h id (let same = (eqb_iff id id).1 refl in ground arith) in
    let rest = known-members d ids (λ i k. h i (ground arith)) in ground arith

acceptable-select_domain :
    (catalog : Assoc ℕ NvtxCatalogDomain) (d : NvtxCatalogDomain)
    → lookup d.domain_id catalog ≡ some d
    → selects_some (select_domain d) ≡ true
    → acceptable_selection catalog (select_domain d) ≡ true
acceptable-select_domain catalog d found some_of =
    let all = known-members d (map (λ c. c.category_id) d.categories) (λ id k. k) in
    let size = empty_ids-length (map (λ c. c.category_id) d.categories) in rw found (ground arith)

all_acceptable-selected :
    (catalog : Assoc ℕ NvtxCatalogDomain) (ds : List NvtxCatalogDomain)
    → All (λ d. lookup d.domain_id catalog ≡ some d) ds
    → all_acceptable catalog (keep selects_some (map select_domain ds)) ≡ true
all_acceptable-selected catalog [] h = refl
all_acceptable-selected catalog (d ∷ ds) h =
    let rest = all_acceptable-selected catalog ds h.1 in
    elim (Bool-cases (selects_some (select_domain d))) [
      | inl t ↦ let here = acceptable-select_domain catalog d h.0 t in rw (t, here) rest
      | inr f ↦ rw f rest
    ]

module _ {ℓ} {Secs : Type ℓ} (is_finite : Secs → Bool) (greater : Secs → Secs → Bool) where
  -- Where a catalog has no domain twice, a request for all that it offers is accepted, in any
  -- window that is finite and ordered.
  pub canonicalize_request-select_all :
      (c : NvtxCatalog Secs) (w : NvtxViewportWindow Secs)
      → distinct (map (λ d. d.domain_id) c.domains) ≡ true
      → valid_window is_finite greater w ≡ true
      → canonicalize_request is_finite greater c
          (record { viewport = w; selections = select_all c })
        ≡ ok (canonical (record { viewport = w; selections = select_all c }))
  unfolding select_all
  canonicalize_request-select_all c w h v =
      let r : NvtxViewportRequest Secs = record { viewport = w; selections = select_all c } in
      let after = λ (s t : NvtxDomainSelection). ltb t.domain_id s.domain_id in
      let chosen = keep selects_some (map select_domain c.domains) in
      let ids = distinct-sort_by after chosen ∙ distinct-selected c.domains h in
      let catalog = catalog_from [] c.domains in
      let each =
        all_acceptable-sort_by after catalog chosen
        ∙ all_acceptable-selected catalog c.domains (lookup-catalog_from [] c.domains h) in
      let accepted : acceptable is_finite greater c r ≡ true = rw (v, ids, each) refl in
      (canonicalize_request-ok is_finite greater c r (canonical r)).1 (accepted, refl)
