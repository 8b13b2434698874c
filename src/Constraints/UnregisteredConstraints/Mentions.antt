-- ===== src/Constraints/UnregisteredConstraints/Mentions.antt =====
-- What is reported of constraints that no validated one handles.
use quent.Base.{
  ◌≡◌, refl, ap, inl, inr, Bool, false, not, ◌&&◌, ◌||◌, Option, some, List, [], ◌∷◌, arith,
  Bool-cases, ◌==◌, nat_eq, pair_eq, option_eq, list_eq,
}
use quent.Base.Text.{Text, text_before}
use quent.Base.Set.{member, set_insert, member-add_all, member-set_insert}
use quent.Schema.Elements.{Constraint, Schema, values}
use quent.Schema.Visitor.{Element, the_annotations, Cursor, current, walk}
use quent.Schema.Visitor.Positions.{positions, visits, walk-positions}
use quent.Constraints.UnregisteredConstraints
use quent.Constraints.UnregisteredConstraints.{
  UnregisteredConstraints, unregistered_constraints, insert_unregistered,
}

-- Whether constraints have one of a name.
abbrev mentions : Text → List Constraint → Bool
mentions name [] = false
mentions name (c ∷ cs) = (c.name == name) || mentions name cs

abbrev mentions_at : Text → Option Element → Bool
mentions_at name (some (the_annotations a)) = mentions name (values a.constraints)
mentions_at name _ = false

-- Whether an annotation somewhere in a schema has a constraint of a name.
abbrev pub mentioned : Text → List Cursor → Bool
mentioned name [] = false
mentioned name (c ∷ cs) = mentions_at name (current c) || mentioned name cs

member-insert_unregistered :
    (name : Text) (registered unregistered : List Text) (cs : List Constraint)
    → member name (insert_unregistered registered unregistered cs)
      ≡ (member name unregistered || (not (member name registered) && mentions name cs))
unfolding insert_unregistered
member-insert_unregistered name registered unregistered [] = ground arith
member-insert_unregistered name registered unregistered (c ∷ cs) =
    let added = member-set_insert text_before name c.name unregistered in
    let kept = member-insert_unregistered name registered unregistered cs in
    let more =
      member-insert_unregistered name registered (set_insert text_before c.name unregistered) cs in
    elim (Bool-cases (c.name == name)) [
      | inl q ↦
          let known : member c.name registered ≡ member name registered =
            ap (λ n. member n registered) ((list_eq.same_iff c.name name).0 q) in
          elim (Bool-cases (member c.name registered)) [
            | inl t ↦ rw t (ground arith)
            | inr f ↦ rw f (ground arith)
          ]
      | inr q ↦ elim (Bool-cases (member c.name registered)) [
        | inl t ↦ rw t (ground arith)
        | inr f ↦ rw f (ground arith)
      ]
    ]

visit_element-registered :
    (u : UnregisteredConstraints) (o : Option Element)
    → (UnregisteredConstraints.visit_element u o).registered ≡ u.registered
visit_element-registered u (some (the_annotations a)) = refl
visit_element-registered u o = refl

member-visit_element :
    (name : Text) (u : UnregisteredConstraints) (o : Option Element)
    → member name (UnregisteredConstraints.visit_element u o).unregistered
      ≡ (member name u.unregistered || (not (member name u.registered) && mentions_at name o))
member-visit_element name u (some (the_annotations a)) =
    member-insert_unregistered name u.registered u.unregistered (values a.constraints)
member-visit_element name u o = ground arith

member-visits :
    (name : Text) (u : UnregisteredConstraints) (cs : List Cursor)
    → member name (visits UnregisteredConstraints.visit u cs).unregistered
      ≡ (member name u.unregistered || (not (member name u.registered) && mentioned name cs))
unfolding UnregisteredConstraints.visit
member-visits name u [] = ground arith
member-visits name u (c ∷ cs) =
    let next = UnregisteredConstraints.visit_element u (current c) in
    let here = member-visit_element name u (current c) in
    let same = ap (member name) (visit_element-registered u (current c)) in
    let rest = member-visits name next cs in ground arith

-- What is reported as not registered are the names of the constraints anywhere in the schema but
-- the ones that are validated.
pub walk-unregistered :
    (name : Text) (names : List Text) (s : Schema)
    → member name (walk unregistered_constraints (UnregisteredConstraints.new names) s)
      ≡ (mentioned name (positions s) && not (member name names))
unfolding UnregisteredConstraints.new
walk-unregistered name names s =
    let all =
      ap (member name)
        (walk-positions unregistered_constraints (UnregisteredConstraints.new names) s) in
    let found = member-visits name (UnregisteredConstraints.new names) (positions s) in
    let known = member-add_all name [] names in
    let none : member name [] ≡ false = refl in ground arith
