-- ===== src/Nvtx/Ui/Request/Accepts.antt =====
-- Which requests are accepted, and that they are put in their canonical form.
use quent.Base.{
  ℕ, ◌≡◌, refl, sym, ap, ◌∙◌, ◌↔◌, inl, inr, Bool, true, false, not, ◌&&◌, ◌||◌, Option, none, some,
  List, [], ◌∷◌, map, arith, ltb, eqb, eqb_iff, Bool-cases, Option-cases, nat_eq, pair_eq,
  option_eq, list_eq,
}
use quent.Base.Assoc.{Assoc, lookup}
use quent.Base.Set.{member, distinct}
use quent.Base.Sort.{sort_by, insert_sorted}
use quent.Base.Result.{Result, ok, ◌>>=◌, bind_ok}
use quent.Nvtx.Ui.{
  NvtxCatalogDomain, NvtxCatalog, NvtxDomainSelection, NvtxViewportRequest, NvtxViewportError,
}
use quent.Nvtx.Ui.Request.{
  catalog_from, dedup, has_category, unknown_of, canonical_selection, empty_ids, check_domain,
  check_selection, check_selections, sort_selections, valid_window, canonicalize_request,
}

abbrev pub all_known : NvtxCatalogDomain → List ℕ → Bool
all_known d [] = true
all_known d (id ∷ ids) = has_category d id && all_known d ids

unknown_of-none :
    (d : NvtxCatalogDomain) (ids : List ℕ) → (unknown_of d ids ≡ none) ↔ (all_known d ids ≡ true)
unfolding unknown_of
unknown_of-none d [] = (λ h. refl, λ h. refl)
unknown_of-none d (id ∷ ids) =
    let rest = unknown_of-none d ids in
    elim (Bool-cases (has_category d id)) [ inl t ↦ rw t rest | inr f ↦ rw f (λ h. cc, λ h. cc) ]

all_known-insert_sorted :
    (d : NvtxCatalogDomain) (after : ℕ → ℕ → Bool) (id : ℕ) (ids : List ℕ)
    → all_known d (insert_sorted after id ids) ≡ (has_category d id && all_known d ids)
unfolding insert_sorted
all_known-insert_sorted d after id [] = refl
all_known-insert_sorted d after id (x ∷ ids) =
    let rest = all_known-insert_sorted d after id ids in
    elim (Bool-cases (after id x)) [ inl t ↦ rw t (ground arith) | inr f ↦ rw f refl ]

all_known-sort_by :
    (d : NvtxCatalogDomain) (after : ℕ → ℕ → Bool) (ids : List ℕ)
    → all_known d (sort_by after ids) ≡ all_known d ids
unfolding sort_by
all_known-sort_by d after [] = refl
all_known-sort_by d after (id ∷ ids) =
    all_known-insert_sorted d after id (sort_by after ids)
    ∙ ap (λ b. has_category d id && b) (all_known-sort_by d after ids)

all_known-dedup : (d : NvtxCatalogDomain) (ids : List ℕ) → all_known d (dedup ids) ≡ all_known d ids
unfolding dedup
all_known-dedup d [] = refl
all_known-dedup d (x ∷ []) = refl
all_known-dedup d (x ∷ y ∷ ids) =
    let rest = all_known-dedup d (y ∷ ids) in
    elim (Bool-cases (eqb x y)) [
      | inl t ↦
          let same : has_category d x ≡ has_category d y =
            ap (has_category d) ((eqb_iff x y).0 t) in
          rw t (ground arith)
      | inr f ↦ rw f (ap (λ b. has_category d x && b) rest)
    ]

-- Whether a domain offers what is selected of it.
abbrev pub offered : NvtxDomainSelection → Option NvtxCatalogDomain → Bool
offered s none = false
offered s (some d) =
    all_known d s.category_ids && (not s.include_uncategorized || d.has_uncategorized)

abbrev pub acceptable_selection : Assoc ℕ NvtxCatalogDomain → NvtxDomainSelection → Bool
acceptable_selection catalog s =
    (not (empty_ids s.category_ids) || s.include_uncategorized)
    && offered s (lookup s.domain_id catalog)

check_domain-ok :
    (s t : NvtxDomainSelection) (o : Option NvtxCatalogDomain)
    → (check_domain s o ≡ ok t) ↔ ((offered s o ≡ true) × (canonical_selection s ≡ t))
unfolding canonical_selection
check_domain-ok s t none = (λ h. cc, λ h. cc)
check_domain-ok s t (some d) =
    let ids = (canonical_selection s).category_ids in
    let known = unknown_of-none d ids in
    let same : all_known d ids ≡ all_known d s.category_ids =
      all_known-dedup d (sort_by (λ a b. ltb b a) s.category_ids)
      ∙ all_known-sort_by d (λ a b. ltb b a) s.category_ids in
    elim (Option-cases (unknown_of d ids)) [
      | inl n ↦
          let all : all_known d s.category_ids ≡ true = sym same ∙ known.0 n in
          elim (Bool-cases (s.include_uncategorized && not d.has_uncategorized)) [
            | inl u ↦ rw (n, u) (λ h. cc, λ h. absurd (let k = h.0 in ground arith))
            | inr u ↦ rw (n, u) (λ h. (ground arith, cc), λ h. ap ok h.1)
          ]
      | inr (id, e) ↦ rw e (
        λ h. cc,
        λ h.
            let k = h.0 in
            let all : all_known d s.category_ids ≡ true = ground arith in
            let n = known.1 (same ∙ all) in cc,
      )
    ]

check_selection-ok :
    (catalog : Assoc ℕ NvtxCatalogDomain) (seen : List ℕ) (s t : NvtxDomainSelection)
    → (check_selection catalog seen s ≡ ok t) ↔ (
        (not (member s.domain_id seen) && acceptable_selection catalog s ≡ true)
        × (canonical_selection s ≡ t))
unfolding check_selection
check_selection-ok catalog seen s t =
    let found = check_domain-ok s t (lookup s.domain_id catalog) in
    elim (Bool-cases (member s.domain_id seen)) [
      | inl m ↦ rw m (λ h. cc, λ h. absurd (let k = h.0 in ground arith))
      | inr m ↦ elim (Bool-cases (empty_ids s.category_ids && not s.include_uncategorized)) [
        | inl e ↦ rw (m, e) (λ h. cc, λ h. absurd (let k = h.0 in ground arith))
        | inr e ↦
            rw (m, e)
              (
                λ h. let r = found.0 h in let k = r.0 in (ground arith, r.1),
                λ h. let k = h.0 in found.1 (ground arith, h.1),
              )
      ]
    ]

-- Whether no id is among those that are seen or comes twice.
abbrev fresh_ids : List ℕ → List NvtxDomainSelection → Bool
fresh_ids seen [] = true
fresh_ids seen (s ∷ ss) = not (member s.domain_id seen) && fresh_ids seen ss

abbrev pub all_acceptable : Assoc ℕ NvtxCatalogDomain → List NvtxDomainSelection → Bool
all_acceptable catalog [] = true
all_acceptable catalog (s ∷ ss) = acceptable_selection catalog s && all_acceptable catalog ss

fresh_ids-cons :
    (id : ℕ) (seen : List ℕ) (ss : List NvtxDomainSelection)
    → fresh_ids (id ∷ seen) ss ≡ (fresh_ids seen ss && not (member id (map (λ s. s.domain_id) ss)))
unfolding member
fresh_ids-cons id seen [] = refl
fresh_ids-cons id seen (s ∷ ss) =
    let rest = fresh_ids-cons id seen ss in
    ground (arith, eqb_iff id s.domain_id, eqb_iff s.domain_id id)

fresh_ids_nil : (ss : List NvtxDomainSelection) → fresh_ids [] ss ≡ true
unfolding member
fresh_ids_nil [] = refl
fresh_ids_nil (s ∷ ss) = fresh_ids_nil ss

check_selections-ok :
    (catalog : Assoc ℕ NvtxCatalogDomain) (seen : List ℕ) (ss ts : List NvtxDomainSelection)
    → (check_selections catalog seen ss ≡ ok ts) ↔ (
        (fresh_ids seen ss && distinct (map (λ s. s.domain_id) ss) && all_acceptable catalog ss
          ≡ true)
        × (map canonical_selection ss ≡ ts))
unfolding check_selections
check_selections-ok catalog seen [] ts = (λ h. (refl, cc), λ h. ap ok h.1)
check_selections-ok catalog seen (s ∷ ss) ts =
    let first = check_selection catalog seen s in
    let others = check_selections catalog (s.domain_id ∷ seen) ss in
    let tail : NvtxDomainSelection → Result (List NvtxDomainSelection) NvtxViewportError =
      λ t. others >>= λ rest. ok (t ∷ rest) in
    let cons = fresh_ids-cons s.domain_id seen ss in
    (
      λ h.
          let (t, e, h) = (bind_ok first tail ts).0 h in
          let (rest, f, g) = (bind_ok others (λ rest. ok (t ∷ rest)) ts).0 h in
          let (a, p) = (check_selection-ok catalog seen s t).0 e in
          let (b, q) = (check_selections-ok catalog (s.domain_id ∷ seen) ss rest).0 f in
          let whole : t ∷ rest ≡ ts = cc in (ground arith, rw (p, q) whole),
      λ (k, q).
          let e =
            (check_selection-ok catalog seen s (canonical_selection s)).1 (ground arith, refl) in
          let f =
            (check_selections-ok catalog (s.domain_id ∷ seen) ss (map canonical_selection ss)).1
              (ground arith, refl) in
          rw (e, f) (ap ok q),
    )

-- The form of a request in which the ids of its selections and of their categories are sorted.
abbrev pub canonical {ℓ} : {Secs : Type ℓ} → NvtxViewportRequest Secs → NvtxViewportRequest Secs
canonical r = record r { selections = sort_selections (map canonical_selection r.selections) }

module _ {ℓ} {Secs : Type ℓ} (is_finite : Secs → Bool) (greater : Secs → Secs → Bool) where
  -- Whether the window is finite and ordered, and the selections are of different domains, each of
  -- one in the catalog, of something, and of nothing that the domain does not offer.
  abbrev pub acceptable : NvtxCatalog Secs → NvtxViewportRequest Secs → Bool
  acceptable c r =
      valid_window is_finite greater r.viewport
      && distinct (map (λ s. s.domain_id) r.selections)
      && all_acceptable (catalog_from [] c.domains) r.selections

  -- A request is accepted exactly where its window is finite and ordered and its selections are of
  -- different domains, each of one in the catalog, of something, and of nothing that the domain
  -- does not offer; it is put in its canonical form.
  pub canonicalize_request-ok :
      (c : NvtxCatalog Secs) (r q : NvtxViewportRequest Secs)
      → (canonicalize_request is_finite greater c r ≡ ok q)
        ↔ ((acceptable c r ≡ true) × (canonical r ≡ q))
  unfolding canonicalize_request
  canonicalize_request-ok c r q =
      let catalog = catalog_from [] c.domains in
      let checked = check_selections catalog [] r.selections in
      let made : List NvtxDomainSelection → Result (NvtxViewportRequest Secs) NvtxViewportError =
        λ ss. ok (record r { selections = sort_selections ss }) in
      let fresh = fresh_ids_nil r.selections in
      elim (Bool-cases (valid_window is_finite greater r.viewport)) [
        | inl v ↦ rw v (
          λ h.
              let (ss, e, g) = (bind_ok checked made q).0 h in
              let (k, p) = (check_selections-ok catalog [] r.selections ss).0 e in
              let whole : record r { selections = sort_selections ss } ≡ q = cc in
              (ground arith, rw p whole),
          λ (k, p).
              let e =
                (check_selections-ok catalog [] r.selections
                    (map canonical_selection r.selections)).1
                  (ground arith, refl) in
              (bind_ok checked made q).1 (map canonical_selection r.selections, e, ap ok p),
        )
        | inr v ↦ rw v (λ h. cc, λ h. absurd (let k = h.0 in ground arith))
      ]
