-- ===== src/Constraints/DuplicateTypePaths/Shared.antt =====
-- What is reported of paths that a record and an entity share.
use quent.Base.{
  ◌≡◌, refl, ap, ◌∙◌, true, Option, some, List, [], ◌∷◌, arith, nat_eq, pair_eq, option_eq, list_eq,
  All, All-map,
}
use quent.Base.Text.{Text}
use quent.Schema.Elements.{Schema}
use quent.Schema.Visitor.{Element, the_schema, Cursor, current, walk}
use quent.Schema.Visitor.Positions.{visits, walk-positions}
use quent.Schema.Visitor.Placed.{at_good, no_schema, positions-below_root}
use quent.Constraints.DuplicateTypePaths
use quent.Constraints.DuplicateTypePaths.{duplicate_type_paths, shared_paths}

shared_paths-inner :
    (found : List Text) (o : Option Element)
    → at_good no_schema o ≡ true
    → DuplicateTypePaths.visit_element found o ≡ found
shared_paths-inner found (some (the_schema s)) h = absurd (ground arith)
shared_paths-inner found o h = refl

visits-shared_paths :
    (found : List Text) (cs : List Cursor)
    → All (λ c. at_good no_schema (current c) ≡ true) cs
    → visits DuplicateTypePaths.visit found cs ≡ found
unfolding DuplicateTypePaths.visit
visits-shared_paths found [] h = refl
visits-shared_paths found (c ∷ cs) h =
    ap (λ f. visits DuplicateTypePaths.visit f cs) (shared_paths-inner found (current c) h.0)
    ∙ visits-shared_paths found cs h.1

-- What is reported as declared twice are the paths of the entities that are paths of records.
pub walk-shared_paths : (s : Schema) → walk duplicate_type_paths [] s ≡ shared_paths s
unfolding DuplicateTypePaths.visit current
walk-shared_paths s =
    let (cs, e, placed) = positions-below_root s in
    let rest = All-map (λ c h. h.1) cs placed in
    walk-positions duplicate_type_paths [] s
    ∙ ap (visits DuplicateTypePaths.visit []) e
    ∙ visits-shared_paths (shared_paths s) cs rest
