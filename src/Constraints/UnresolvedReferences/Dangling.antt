-- ===== src/Constraints/UnresolvedReferences/Dangling.antt =====
-- What is reported of references to records.
use quent.Base.{
  ◌≡◌, refl, sym, ap, ◌∙◌, inl, inr, Option, none, some, List, [], ◌∷◌, ◌++◌, if◌then◌else◌,
  Bool-cases, nat_eq, pair_eq, option_eq, list_eq, All, All-map,
}
use mathlib.Core.List.{append-nil, append_assoc}
use quent.Base.Text.{Text}
use quent.Schema.TypePath.{TypePath}
use quent.Schema.Elements.{record_ref, Schema, is_some, schema_record}
use quent.Schema.Visitor.{Element, the_type, Cursor, current, root, walk}
use quent.Schema.Visitor.Positions.{positions, visits, walk-positions}
use quent.Schema.Visitor.Placed.{positions-below_root}
use quent.Constraints.UnresolvedReferences
use quent.Constraints.UnresolvedReferences.{unresolved_references, describe}

-- The path of the record that an element refers to.
abbrev pub reference : Option Element → Option TypePath
reference (some (the_type (record_ref path))) = some path
reference _ = none

abbrev dangling_here : Schema → Cursor → Option TypePath → List Text
dangling_here s c none = []
dangling_here s c (some path) = if is_some (schema_record s path) then [] else describe c path ∷ []

-- The references to records that the schema does not declare, described by where they are.
abbrev pub dangling : Schema → List Cursor → List Text
dangling s [] = []
dangling s (c ∷ cs) = dangling_here s c (reference (current c)) ++ dangling s cs

dangling-step :
    (s : Schema) (found : List Text) (c : Cursor) (o : Option Element)
    → root c ≡ some s
    → UnresolvedReferences.visit_element found c o ≡ found ++ dangling_here s c (reference o)
dangling-step s found c (some (the_type (record_ref path))) h =
    elim (Bool-cases (is_some (schema_record s path))) [
      | inl t ↦ rw (h, t) (sym (append-nil found))
      | inr f ↦ rw (h, f) refl
    ]
dangling-step s found c o h = sym (append-nil found)

visits-dangling :
    (s : Schema) (found : List Text) (cs : List Cursor)
    → All (λ c. root c ≡ some s) cs
    → visits UnresolvedReferences.visit found cs ≡ found ++ dangling s cs
unfolding UnresolvedReferences.visit
visits-dangling s found [] h = sym (append-nil found)
visits-dangling s found (c ∷ cs) h =
    let here = dangling_here s c (reference (current c)) in
    ap (λ f. visits UnresolvedReferences.visit f cs) (dangling-step s found c (current c) h.0)
    ∙ visits-dangling s (found ++ here) cs h.1
    ∙ append_assoc found here (dangling s cs)

-- What is reported as unresolved are the references to records that the schema does not declare,
-- in the order of the schema.
pub walk-dangling : (s : Schema) → walk unresolved_references [] s ≡ dangling s (positions s)
unfolding root
walk-dangling s =
    let (cs, e, placed) = positions-below_root s in
    let rest = All-map (λ c h. h.0) cs placed in
    walk-positions unresolved_references [] s
    ∙ visits-dangling s [] (positions s) (rw e (refl, rest))
